-- ===== src/Cli.antt =====
-- The command line, crates/hc-cli/src/main.rs: how it finds a device, names a medium, and runs a
-- cast or a mirror. What is printed is given for the device list only.
pub mod Title
pub mod Tests
pub mod Runs
use mathlib.Core.Option.{get_or}
use horizon_cast.Base.{
  ℕ, zero, suc, ◌+◌, ◌/◌, ◌%◌, ◌^◌, max, Bool, true, false, not, ◌&&◌, ◌||◌, Option, none, some,
  List, [], ◌∷◌, ◌++◌, map, ◌==◌, if◌then◌else◌, ◌>>=◌, length,
}
use horizon_cast.Base.Text.{
  Text, text, same, is_empty, starts_with, first_part, decimal, eq_ignore_ascii_case,
}
use horizon_cast.App.{control_url}
use horizon_cast.Capture.{CapturedFrame}
use horizon_cast.Core.{Error, Result, ok, err}
use horizon_cast.Discovery.Registry.{
  Protocol, air_play_mirror, air_play_video, dlna, miracast, cast,
}
use horizon_cast.Discovery.Registry.Devices.{Device}
use horizon_cast.Encode.{EncodedFrame}
use horizon_cast.Net.Address.{show_addr}
use horizon_cast.Net.Path.{rsplit_once}
use horizon_cast.Net.World.{Environment, Trace, capture_spawned}
use horizon_cast.Sink.{
  MediaCastSession, LiveMirrorSession, cast_file, cast_url, stop_cast, start_mirror, stop_mirror,
}
use horizon_cast.Sink.Mirror.{push_units}

unfoldable pub protocol_label : Protocol → Text
protocol_label air_play_mirror = text "AirPlay (mirror)"
protocol_label air_play_video = text "AirPlay (video)"
protocol_label dlna = text "DLNA"
protocol_label miracast = text "Miracast"
protocol_label cast = text "Cast"

-- `join`.
unfoldable pub join : Text → List Text → Text
join sep [] = []
join sep (t ∷ []) = t
join sep (t ∷ u ∷ ts) = t ++ (sep ++ join sep (u ∷ ts))

unfoldable pub device_line : Device → Text
device_line d =
    text "  "
    ++ (0x2022
        ∷ (text " "
            ++ (d.name
                ++ (text "  "
                    ++ (0x2014
                        ∷ (text "  "
                            ++ (show_addr d.address
                                ++ (b':'
                                    ∷ (decimal d.port
                                        ++ (text "  ["
                                            ++ (join (text ", ") (map protocol_label d.protocols)
                                                ++ text "]")))))))))))

-- `print_device_list`, by its lines.
unfoldable pub device_list_lines : List Device → List Text
device_list_lines [] = text "No cast devices found on the local network." ∷ []
device_list_lines (d ∷ ds) =
    (text "Found " ++ (decimal (length (d ∷ ds)) ++ text " device(s):")) ∷ map device_line (d ∷ ds)

unfoldable pub is_meant : Text → Device → Bool
is_meant needle d =
    same d.id needle || same (show_addr d.address) needle || eq_ignore_ascii_case d.name needle

unfoldable pub find_device : Text → List Device → Option Device
find_device needle [] = none
find_device needle (d ∷ ds) =
    let later = find_device needle ds in if is_meant needle d then some d else later

abbrev pub is_separator : ℕ → Bool
is_separator c = c == b'/' || c == b'\\'

unfoldable pub has_separator : Text → Bool
has_separator [] = false
has_separator (c ∷ s) = is_separator c || has_separator s

-- `rsplit(['/', '\\']).next()`.
unfoldable pub after_last : Text → Text
after_last [] = []
after_last (c ∷ s) =
    let rest = after_last s in if has_separator s then rest else if is_separator c then s else c ∷ s

abbrev pub before_last_dot : Text → Option (Text × Text) → Text
before_last_dot name none = name
before_last_dot name (some (l, r)) = l

abbrev pub or_default : Text → Text
or_default [] = text "HorizonCast"
or_default (c ∷ s) = c ∷ s

-- `split(['?', '#']).next()`.
unfoldable pub without_query : Text → Text
without_query s = first_part b'#' (first_part b'?' s)

unfoldable pub media_title : Text → Text
media_title media =
    let name = after_last (without_query media) in
    or_default (before_last_dot name (rsplit_once b'.' name))

-- `resolve_dlna_control_url`, which is `control_url` of the application.
abbrev pub resolve_dlna_control_url : Environment → Device → Trace → Option Text × Trace
resolve_dlna_control_url env d = control_url env d.dlna_control_url d.dlna_location

-- How a cast or a mirror ends, or what it waits for.
pub data Ended : Type 0 where
  no_media no_device no_endpoint : Ended
  not_started : Error → Ended
  stopped : Result (Unit {0}) → Ended
  waiting_for_clients waiting_for_capture : Ended

-- What the end of a mirror waits for: that all clients have left its stream, since the server is shut
-- down gracefully, and that the loop of the capture has ended.
pub record Waits : Type 0 where
  pub clients_left : Bool
  pub capture_ended : Bool

abbrev pub is_url : Text → Bool
is_url media = starts_with (text "http://") media || starts_with (text "https://") media

unfoldable pub start_cast :
    Environment → Text → Device → Text → Trace → Result MediaCastSession × Trace
start_cast env control d media =
    if is_url media
    then cast_url env control media (media_title media)
    else cast_file env control d.address media (media_title media)

-- A session is held until the interrupt, and then stopped.
unfoldable pub held_cast : Environment → Result MediaCastSession × Trace → Ended × Trace
held_cast env (err e, tr) = (not_started e, tr)
held_cast env (ok s, tr) = let (result, tr') = stop_cast env s tr in (stopped result, tr')

unfoldable pub cast_to : Environment → Device → Text → Option Text × Trace → Ended × Trace
cast_to env d media (none, tr) = (no_endpoint, tr)
cast_to env d media (some control, tr) = held_cast env (start_cast env control d media tr)

unfoldable pub cast_on : Environment → Text → Option Device → Trace → Ended × Trace
cast_on env media none tr = (no_device, tr)
cast_on env media (some d) tr = cast_to env d media (resolve_dlna_control_url env d tr)

-- `run_cast`, on the devices that the scan finds; `is_file` is the answer for the path.
unfoldable pub run_cast : Environment → Bool → List Device → Text → Text → Trace → Ended × Trace
run_cast env is_file devices device media tr =
    if not (is_url media) && not is_file
    then (no_media, tr)
    else cast_on env media (find_device device devices) tr

-- What the loop of the capture is started with, the units that are pumped until the interrupt or the
-- end of the capture, and what the end then waits for.
pub record Pumped : Type 0 where
  pub fps : ℕ
  pub bitrate_kbps : ℕ
  pub units : List EncodedFrame
  pub waits : Waits

-- The waits of `session.stop` and for the capture, in their order.
unfoldable pub after_stop : Waits → Result (Unit {0}) → Ended
after_stop waits result =
    if not waits.clients_left
    then waiting_for_clients
    else if not waits.capture_ended
    then waiting_for_capture
    else stopped result

unfoldable pub held_mirror :
    Environment → Pumped → Result LiveMirrorSession × Trace → Option (Ended × Trace)
held_mirror env p (err e, tr) = some (not_started e, tr)
held_mirror env p (ok s, tr) =
    push_units p.units s (capture_spawned p.fps p.bitrate_kbps ∷ tr) >>= λ (s', tr').
    let (result, tr'') = stop_mirror env s' tr' in some (after_stop p.waits result, tr'')

unfoldable pub mirror_to :
    Environment → Pumped → Device → Option Text × Trace → Option (Ended × Trace)
mirror_to env p d (none, tr) = some (no_endpoint, tr)
mirror_to env p d (some control, tr) =
    held_mirror env p (start_mirror env control d.address (text "HorizonCast") tr)

unfoldable pub mirror_on : Environment → Pumped → Option Device → Trace → Option (Ended × Trace)
mirror_on env p none tr = some (no_device, tr)
mirror_on env p (some d) tr = mirror_to env p d (resolve_dlna_control_url env d tr)

-- `run_mirror`, on the devices that the scan finds.
unfoldable pub run_mirror :
    Environment → List Device → Text → Pumped → Trace → Option (Ended × Trace)
run_mirror env devices device p tr = mirror_on env p (find_device device devices) tr

-- The count of `run_capture_test` over the frames that come before the deadline, and the size of
-- the last; the count is a `u32`.
unfoldable pub count_frames : ℕ → ℕ × ℕ → List CapturedFrame → ℕ × (ℕ × ℕ)
count_frames n dims [] = (n, dims)
count_frames n dims (f ∷ fs) = count_frames ((n + 1) % 2 ^ 32) (f.width, f.height) fs

-- The frames per second that it reports.
unfoldable pub reported_fps : ℕ → ℕ → ℕ
reported_fps frames secs = frames / max secs 1
