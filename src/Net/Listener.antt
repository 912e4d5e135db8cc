-- ===== src/Net/Listener.antt =====
-- What the two local servers share: the listener on an ephemeral port, and the URL made of it.
use horizon_cast.Base.{ℕ, ◌∷◌, ◌++◌}
use horizon_cast.Base.Text.{Text, text, decimal}
use horizon_cast.Core.{Result, ok, err, sink_error}
use horizon_cast.Discovery.Registry.{IpAddr}
use horizon_cast.Net.Address.{show_addr}
use horizon_cast.Net.World.{Listen, bind_failed, addr_failed, listening}

-- The port; the messages name the server.
abbrev pub bound : Text → Listen → Result ℕ
bound server (bind_failed e) = err (sink_error (server ++ (text " server bind failed: " ++ e)))
bound server (addr_failed e) = err (sink_error (server ++ (text " server addr failed: " ++ e)))
bound server (listening port) = ok port

unfoldable pub server_url : IpAddr → ℕ → Text → Text
server_url local_ip port name =
    text "http://" ++ (show_addr local_ip ++ (b':' ∷ (decimal port ++ (b'/' ∷ name))))
