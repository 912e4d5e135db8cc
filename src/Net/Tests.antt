-- ===== src/Net/Tests.antt =====
-- Addresses as they are shown, paths, and the theorems on URLs applied to them.
use horizon_cast.Base.{ℕ, ◌≡◌, ◌≢◌, refl, arith, none, some}
use horizon_cast.Base.Text.{text, same, decimal, digits_onto}
use horizon_cast.Discovery.Registry.{v4, v6}
use horizon_cast.Net.Address.{
  show_addr, show_v4, show_v6, show_groups, show_segments, hex_onto, longest_zeros,
}
use horizon_cast.Net.Listener.{server_url}
use horizon_cast.Net.Path.{extension, file_name, pieces, last_component, rsplit_once}
use horizon_cast.Net.Urls.{read_server, read_server-server_url, read_server-ne-show_addr}

abbrev lan : ℕ
lan = 0xC0A80002

a_v4_address : show_addr (v4 lan) ≡ text "192.168.0.2"
unfolding show_addr show_v4 decimal digits_onto
a_v4_address = refl

abbrev link_local : ℕ
link_local = 0xFE80_0000_0000_0000_0000_0000_0000_0001

a_v6_address : show_addr (v6 link_local) ≡ text "fe80::1"
unfolding show_addr show_v6 show_groups show_segments hex_onto longest_zeros
a_v6_address = refl

an_extension : extension (text "/films/a.b/one.two.MP4") ≡ some (text "MP4")
unfolding extension file_name pieces last_component rsplit_once same
an_extension = refl

a_hidden_file : extension (text "/films/.mp4") ≡ none
unfolding extension file_name pieces last_component rsplit_once same
a_hidden_file = refl

read_server-server_url_example :
    read_server (server_url (v4 lan) 8080 (text "live.ts")) ≡ some (show_addr (v4 lan), 8080)
read_server-server_url_example = read_server-server_url lan 8080 (text "live.ts") (omega arith)

read_server-ne-show_addr_example :
    read_server (server_url (v6 link_local) 8080 (text "live.ts"))
    ≢ some (show_addr (v6 link_local), 8080)
read_server-ne-show_addr_example = read_server-ne-show_addr link_local 8080 8080 (text "live.ts")
