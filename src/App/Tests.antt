-- ===== src/App/Tests.antt =====
-- A television that is found, a mirror and a link on it, and the theorems applied to them.
use mathlib.Core.Option.{get_or}
use horizon_cast.Base.{◌≡◌, ◌≢◌, ◌≤◌, ◌⊎◌, refl, true, false, none, some, List, [], ◌∷◌, length}
use horizon_cast.Base.Text.{text, same}
use horizon_cast.Discovery.Registry.{v4, dlna}
use horizon_cast.Discovery.Registry.Devices.{Device}
use horizon_cast.MpegTs.Muxer
use horizon_cast.Net.World.{Environment, routed, listening, replied, document, live_served}
use horizon_cast.Net.Http.{send_soap_action}
use horizon_cast.Sink
use horizon_cast.Sink.{LiveMirrorSession, start_playback, set_and_play}
use horizon_cast.Sink.Mirror.{push_units}
use horizon_cast.Sink.Servers.{running}
use horizon_cast.App.{
  App, idle, media, mirroring, cast_url, Outside, on_command, teardown, start_for, start_media,
  start_media_for, find_device, end_pump, start_media_on, control_url, media_result, clear_casting,
}
use horizon_cast.App.Events.{
  Desktop, Event, callback, take_command, updated, unit, select, start_mirror, open_link, run, quit,
  opened,
}
use horizon_cast.App.Runs.{run-quit}
use horizon_cast.App.Shown.{on_command_shows, on_command_hides}

abbrev network : Environment
network = record {
  probe = λ tr unspecified target. routed (v4 0xC0A80002);
  try_exists = λ tr path. true;
  listen = λ tr. listening 8080;
  reply = λ tr url action body. replied 200 (text "200 OK") [];
  fetch = λ tr url. document [];
}

-- The capture of a mirror ends just before it is torn down.
abbrev outside : Outside
outside = record { net = network; late = λ tr. record { units = []; capture_ended = true } }

abbrev television : Device
television = record {
  id = text "tv";
  name = text "TV";
  address = v4 0xC0A80009;
  port = 80;
  protocols = dlna ∷ [];
  dlna_control_url = some (text "http://192.168.0.9/ctl");
  dlna_location = none;
}

-- A mirror is started, and while it runs a link is opened.
abbrev mirror_then_link : List Event
mirror_then_link =
    updated (television ∷ [])
    ∷ callback (select (some 0))
    ∷ callback (start_mirror 1 2)
    ∷ take_command
    ∷ unit (record { annexb = 0x65 ∷ []; pts = 0; keyframe = true })
    ∷ callback (open_link (text " http://a/b.mp4 "))
    ∷ take_command
    ∷ []

run-quit_example :
    (d : Desktop) × (a : App) × (run outside mirror_then_link opened ≡ some d)
    × (length (running d.app.trace) ≤ 1)
    × (quit outside d ≡ some a)
    × (running a.trace ≡ [])
run-quit_example = run-quit outside mirror_then_link

abbrev mirror : LiveMirrorSession
mirror = record {
  control_url = text "http://192.168.0.9/ctl";
  live = record { url = text "http://192.168.0.2:8080/live.ts"; content_type = text "video/mp2t" };
  muxer = Muxer.new;
}

-- The mirror is active, and the window shows the link that was just opened.
abbrev before_link : App
before_link = record {
  snapshot = television ∷ [];
  window = record {
    devices = [];
    scanning = false;
    selected = some 0;
    casting = true;
    now_casting = text "TV";
    url_text = [];
  };
  active = mirroring mirror;
  trace = live_served mirror.live.url ∷ [];
}

abbrev after_link : App
after_link =
    get_or (on_command outside (cast_url (text "tv") (text "http://a/b.mp4")) before_link)
      before_link

-- The link is played, and the window shows no cast.
a_hidden_cast :
    (after_link.active
      ≡ media (record {
        control_url = text "http://192.168.0.9/ctl";
        media_url = text "http://a/b.mp4";
        server = none;
      }))
    × (after_link.window.casting ≡ false)
unfolding on_command teardown push_units start_for start_media start_media_for find_device end_pump
    same start_media_on control_url media_result Sink.cast_url start_playback set_and_play
    send_soap_action clear_casting
a_hidden_cast = (refl, refl)

on_command_hides_example : after_link.window.casting ≡ false
unfolding on_command teardown push_units
on_command_hides_example =
    on_command_hides outside (cast_url (text "tv") (text "http://a/b.mp4")) mirror before_link
      after_link refl refl refl

on_command_shows_example : (after_link.active ≢ idle) ⊎ (after_link.window.casting ≡ false)
unfolding on_command teardown push_units
on_command_shows_example =
    on_command_shows outside (cast_url (text "tv") (text "http://a/b.mp4")) before_link after_link
      (λ e. cc) refl
