-- ===== src/App.antt =====
-- The desktop application, crates/hc-app/src/main.rs: the background loop that owns what is cast,
-- and the callbacks of the window. A step that makes the muxer panic is `none`.
pub mod Events
pub mod Servers
pub mod Tests
pub mod Runs
pub mod Shown
use mathlib.Core.Option.{get_or}
use horizon_cast.Base.{
  ℕ, Bool, true, false, Option, none, some, List, [], ◌∷◌, map, if◌then◌else◌, ◌>>=◌,
}
use horizon_cast.Base.Text.{Text, text, same}
use horizon_cast.Core.{Result, ok, err}
use horizon_cast.Discovery.Registry.{
  Protocol, air_play_mirror, air_play_video, dlna, miracast, cast,
}
use horizon_cast.Discovery.Registry.Devices.{Device}
use horizon_cast.Encode.{EncodedFrame}
use horizon_cast.Net.Path.{file_stem}
use horizon_cast.Net.World.{Environment, Trace, capture_spawned}
use horizon_cast.Sink
use horizon_cast.Sink.{
  MediaCastSession, LiveMirrorSession, stop_cast, stop_mirror, resolve_control_url,
}
use horizon_cast.Sink.Mirror.{push_units}

pub data Cmd : Type 0 where
  cast_file : (id path : Text) → Cmd
  cast_url : (id url : Text) → Cmd
  mirror : (id : Text) → (fps bitrate_kbps : ℕ) → Cmd
  stop : Cmd

-- What is cast. The pump of a mirror owns its session until the capture ends or the mirror is torn
-- down; `mirror_ended` is a mirror whose pump is done.
pub data Active : Type 0 where
  idle mirror_ended : Active
  media : MediaCastSession → Active
  mirroring : LiveMirrorSession → Active

pub record DeviceItem : Type 0 where
  pub id : Text
  pub name : Text
  pub protocol : Text

-- What the window shows.
pub record Window : Type 0 where
  pub devices : List DeviceItem
  pub scanning : Bool
  pub selected : Option ℕ
  pub casting : Bool
  pub now_casting : Text
  pub url_text : Text

pub record App : Type 0 where
  pub snapshot : List Device
  pub window : Window
  pub active : Active
  pub trace : Trace

-- The world, and what the pump of a mirror still takes before it sees the stop signal: units, and
-- then perhaps the end of the capture.
pub record Late : Type 0 where
  pub units : List EncodedFrame
  pub capture_ended : Bool

pub record Outside : Type 0 where
  pub net : Environment
  pub late : Trace → Late

unfoldable pub protocol_label : List Protocol → Text
protocol_label [] = text "Unknown"
protocol_label (dlna ∷ _) = text "DLNA"
protocol_label (air_play_mirror ∷ _) = text "AirPlay"
protocol_label (air_play_video ∷ _) = text "AirPlay"
protocol_label (miracast ∷ _) = text "Miracast"
protocol_label (cast ∷ _) = text "Cast"

unfoldable pub to_item : Device → DeviceItem
to_item d = record { id = d.id; name = d.name; protocol = protocol_label d.protocols }

abbrev flatten : Result (Option Text) → Option Text
flatten (ok url) = url
flatten (err e) = none

-- `control_url`, by the two URLs of the device.
unfoldable pub control_url : Environment → Option Text → Option Text → Trace → Option Text × Trace
control_url env (some url) location tr = (some url, tr)
control_url env none none tr = (none, tr)
control_url env none (some location) tr =
    let (result, tr') = resolve_control_url env location tr in (flatten result, tr')

-- The first device of the snapshot with the id.
unfoldable pub find_device : Text → List Device → Option Device
find_device id [] = none
find_device id (d ∷ ds) = let later = find_device id ds in if same d.id id then some d else later

unfoldable pub clear_casting : Window → Window
clear_casting w = record w { casting = false; now_casting = [] }

-- The end of a mirror's pump: the session is stopped, its result ignored.
unfoldable pub end_pump : Outside → Bool → LiveMirrorSession → App → App
end_pump out capture_ended s a = record a {
  window = if capture_ended then clear_casting a.window else a.window;
  active = mirror_ended;
  trace = (stop_mirror out.net s a.trace).1;
}

unfoldable pub teardown : Outside → Active → App → Option App
teardown out idle a = some (record a { active = idle })
teardown out mirror_ended a = some (record a { active = idle })
teardown out (media s) a =
    some (record a { active = idle; trace = (stop_cast out.net s a.trace).1 })
teardown out (mirroring s) a =
    let late = out.late a.trace in
    push_units late.units s a.trace >>= λ (s', tr').
    some (record (end_pump out late.capture_ended s' (record a { trace = tr' })) { active = idle })

-- A start that failed.
unfoldable pub not_started : Trace → App → App
not_started tr a = record a { window = clear_casting a.window; active = idle; trace = tr }

pub data MediaSource : Type 0 where
  file url : Text → MediaSource

abbrev pub cast_source :
    Environment → Text → Device → MediaSource → Trace → Result MediaCastSession × Trace
cast_source env control d (file path) =
    Sink.cast_file env control d.address path (get_or (file_stem path) (text "HorizonCast"))
cast_source env control d (url link) = Sink.cast_url env control link d.name

unfoldable pub media_result : Result MediaCastSession × Trace → App → App
media_result (ok s, tr) a = record a { active = media s; trace = tr }
media_result (err e, tr) a = not_started tr a

unfoldable pub start_media_on : Outside → Device → MediaSource → Option Text × Trace → App → App
start_media_on out d source (none, tr) a = not_started tr a
start_media_on out d source (some control, tr) a =
    media_result (cast_source out.net control d source tr) a

unfoldable pub start_media_for : Outside → Option Device → MediaSource → App → App
start_media_for out none source a = not_started a.trace a
start_media_for out (some d) source a =
    start_media_on out d source (control_url out.net d.dlna_control_url d.dlna_location a.trace) a

unfoldable pub start_media : Outside → Text → MediaSource → App → App
start_media out id source a = start_media_for out (find_device id a.snapshot) source a

unfoldable pub mirror_result : ℕ → ℕ → Result LiveMirrorSession × Trace → App → App
mirror_result fps bitrate_kbps (ok s, tr) a = record a {
  active = mirroring s;
  trace = capture_spawned fps bitrate_kbps ∷ tr;
}
mirror_result fps bitrate_kbps (err e, tr) a = not_started tr a

unfoldable pub start_mirror_on : Outside → Device → ℕ → ℕ → Option Text × Trace → App → App
start_mirror_on out d fps bitrate_kbps (none, tr) a = not_started tr a
start_mirror_on out d fps bitrate_kbps (some control, tr) a =
    mirror_result fps bitrate_kbps
      (Sink.start_mirror out.net control d.address (text "HorizonCast") tr) a

unfoldable pub start_mirror_for : Outside → Option Device → ℕ → ℕ → App → App
start_mirror_for out none fps bitrate_kbps a = not_started a.trace a
start_mirror_for out (some d) fps bitrate_kbps a =
    start_mirror_on out d fps bitrate_kbps
      (control_url out.net d.dlna_control_url d.dlna_location a.trace) a

unfoldable pub start_mirror : Outside → Text → ℕ → ℕ → App → App
start_mirror out id fps bitrate_kbps a =
    start_mirror_for out (find_device id a.snapshot) fps bitrate_kbps a

-- What follows the teardown for a command.
unfoldable pub start_for : Outside → Cmd → App → App
start_for out (cast_file id path) a = start_media out id (file path) a
start_for out (cast_url id link) a = start_media out id (url link) a
start_for out (mirror id fps bitrate_kbps) a = start_mirror out id fps bitrate_kbps a
start_for out stop a = a

unfoldable pub on_command : Outside → Cmd → App → Option App
on_command out cmd a = teardown out a.active a >>= λ a'. some (start_for out cmd a')

-- The devices changed.
unfoldable pub on_update : List Device → App → App
on_update ds a = record a {
  snapshot = ds;
  window = record a.window { devices = map to_item ds; scanning = false };
}

-- A unit for the pump, or the end of its channel; only a running pump takes them.
unfoldable pub unit_for : EncodedFrame → Active → App → Option App
unit_for u (mirroring s) a = push_units (u ∷ []) s a.trace >>= λ (s', tr').
    some (record a { active = mirroring s'; trace = tr' })
unit_for u _ a = some a

unfoldable pub on_unit : EncodedFrame → App → Option App
on_unit u a = unit_for u a.active a

unfoldable pub capture_end_for : Outside → Active → App → App
capture_end_for out (mirroring s) a = end_pump out true s a
capture_end_for out _ a = a

unfoldable pub on_capture_end : Outside → App → App
on_capture_end out a = capture_end_for out a.active a
