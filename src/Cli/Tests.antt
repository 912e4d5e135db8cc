-- ===== src/Cli/Tests.antt =====
-- A television that is meant in three ways, titles, and the theorems applied to them.
use horizon_cast.Base.{◌≡◌, refl, true, false, none, some, [], ◌∷◌}
use horizon_cast.Base.Text.{text, same, first_part, decimal, digits_onto, to_ascii_lowercase_char}
use horizon_cast.Discovery.Registry.{v4, dlna, air_play_mirror}
use horizon_cast.Discovery.Registry.Devices.{Device}
use horizon_cast.Net.Address.{show_addr, show_v4}
use horizon_cast.Net.Path.{rsplit_once}
use horizon_cast.Net.World.{Environment, routed, listening, replied, document}
use horizon_cast.Sink.Servers.{running}
use horizon_cast.Cli.{
  Pumped, find_device, is_meant, media_title, after_last, has_separator, without_query, run_mirror,
}
use horizon_cast.Cli.Runs.{LeavesNone, run_mirror-running}

abbrev network : Environment
network = record {
  probe = λ tr unspecified target. routed (v4 0xC0A80002);
  try_exists = λ tr path. true;
  listen = λ tr. listening 8080;
  reply = λ tr url action body. replied 200 (text "200 OK") [];
  fetch = λ tr url. document [];
}

abbrev television : Device
television = record {
  id = text "uuid:1";
  name = text "Living Room";
  address = v4 0xC0A80009;
  port = 80;
  protocols = air_play_mirror ∷ dlna ∷ [];
  dlna_control_url = some (text "http://192.168.0.9/ctl");
  dlna_location = none;
}

meant_by_name : find_device (text "living ROOM") (television ∷ []) ≡ some television
unfolding find_device is_meant show_addr show_v4 decimal digits_onto to_ascii_lowercase_char same
meant_by_name = refl

meant_by_address : find_device (text "192.168.0.9") (television ∷ []) ≡ some television
unfolding find_device is_meant show_addr show_v4 decimal digits_onto to_ascii_lowercase_char same
meant_by_address = refl

a_title : media_title (text "http://h/dir/My.Film.mkv?x=1#t") ≡ text "My.Film"
unfolding media_title after_last has_separator without_query rsplit_once first_part
a_title = refl

no_title : media_title (text "http://h/dir/") ≡ text "HorizonCast"
unfolding media_title after_last has_separator without_query rsplit_once first_part
no_title = refl

-- A mirror of one unit, whose television stays connected.
abbrev pumped : Pumped
pumped = record {
  fps = 60;
  bitrate_kbps = 16_000;
  units = record { annexb = 0x65 ∷ []; pts = 0; keyframe = true } ∷ [];
  waits = record { clients_left = false; capture_ended = true };
}

run_mirror-running_example :
    LeavesNone pumped.waits
      (running [])
      (run_mirror network (television ∷ []) (text "uuid:1") pumped [])
run_mirror-running_example = run_mirror-running network (television ∷ []) (text "uuid:1") pumped []
