-- ===== src/App/Events.antt =====
-- The callbacks of the window, `main` of crates/hc-app/src/main.rs, and the loop that takes its
-- turns: clicks queue commands, which the background takes one by one.
use horizon_cast.Base.{
  ℕ, true, false, Option, none, some, List, [], ◌∷◌, ◌++◌, ◌==◌, if◌then◌else◌, ◌>>=◌, get_elem?,
}
use horizon_cast.Base.Text.{Text, text, is_empty, trim}
use horizon_cast.Discovery.Registry.Devices.{Device}
use horizon_cast.Encode.{EncodedFrame}
use horizon_cast.App.{
  App, Cmd, cast_file, cast_url, mirror, stop, Outside, Window, on_command, on_update, on_unit,
  on_capture_end, teardown, clear_casting, idle,
}

-- The window after a callback, and the command that it sends, if any.
abbrev pub Click : Type 0
Click = Window × Option Cmd

-- `selected_device`; a negative index is none.
unfoldable pub selected_device : Window → List Device → Option Device
selected_device w ds = w.selected >>= λ index. get_elem? ds index

unfoldable pub fps_of : ℕ → ℕ
fps_of choice = if choice == 1 then 30 else 60

unfoldable pub bitrate_of : ℕ → ℕ
bitrate_of quality =
    if quality == 3
    then 45_000
    else if quality == 2
    then 24_000
    else if quality == 1
    then 12_000
    else 16_000

-- A callback: the choice of a device, a mirror with the choices of rate and quality, a file that
-- was picked or none, a link, a stop, and a rescan.
pub data Callback : Type 0 where
  select : Option ℕ → Callback
  start_mirror : ℕ → ℕ → Callback
  pick_file : Option Text → Callback
  open_link : Text → Callback
  press_stop rescan : Callback

abbrev shows : Text → Window → Window
shows now w = record w { casting = true; now_casting = now }

unfoldable pub mirror_on : ℕ → ℕ → Option Device → Window → Click
mirror_on fps quality none w = (w, none)
mirror_on fps quality (some d) w = (
  shows (d.name ++ (text " " ++ (0xB7 ∷ text " screen"))) w,
  some (mirror d.id (fps_of fps) (bitrate_of quality)),
)

unfoldable pub file_on : Option Text → Option Device → Window → Click
file_on picked none w = (w, none)
file_on none (some d) w = (w, none)
file_on (some path) (some d) w = (shows d.name w, some (cast_file d.id path))

unfoldable pub link_on : Text → Option Device → Window → Click
link_on link none w = (w, none)
link_on link (some d) w = (record (shows d.name w) { url_text = [] }, some (cast_url d.id link))

unfoldable pub on_callback : Callback → List Device → Window → Click
on_callback (select index) ds w = (record w { selected = index }, none)
on_callback (start_mirror fps quality) ds w = mirror_on fps quality (selected_device w ds) w
on_callback (pick_file picked) ds w = file_on picked (selected_device w ds) w
on_callback (open_link link) ds w =
    if is_empty (trim link) then (w, none) else link_on (trim link) (selected_device w ds) w
on_callback press_stop ds w = (clear_casting w, some stop)
on_callback rescan ds w = (record w { scanning = true }, none)

pub record Desktop : Type 0 where
  pub app : App
  pub queue : List Cmd

-- A turn: of the window, or of the background, which takes a command or an update, or of the pump.
pub data Event : Type 0 where
  callback : Callback → Event
  take_command : Event
  updated : List Device → Event
  unit : EncodedFrame → Event
  capture_end : Event

abbrev pub sent_to : Option Cmd → List Cmd → List Cmd
sent_to none queue = queue
sent_to (some cmd) queue = queue ++ cmd ∷ []

abbrev pub with_app : List Cmd → Option App → Option Desktop
with_app queue none = none
with_app queue (some a) = some (record { app = a; queue = queue })

-- `cmd_rx.recv`, which waits while nothing is queued.
unfoldable pub next_command : Outside → List Cmd → App → Option Desktop
next_command out [] a = with_app [] (some a)
next_command out (cmd ∷ queue) a = with_app queue (on_command out cmd a)

unfoldable pub turn : Outside → Event → Desktop → Option Desktop
turn out (callback c) d =
    let (w, cmd) = on_callback c d.app.snapshot d.app.window in
    some (record { app = record d.app { window = w }; queue = sent_to cmd d.queue })
turn out take_command d = next_command out d.queue d.app
turn out (updated ds) d = with_app d.queue (some (on_update ds d.app))
turn out (unit u) d = with_app d.queue (on_unit u d.app)
turn out capture_end d = with_app d.queue (some (on_capture_end out d.app))

unfoldable pub run : Outside → List Event → Desktop → Option Desktop
run out [] d = some d
run out (e ∷ es) d = turn out e d >>= λ d'. run out es d'

-- The end of the loop.
unfoldable pub quit : Outside → Desktop → Option App
quit out d = teardown out d.app.active d.app

-- The application as it starts.
abbrev pub opened : Desktop
opened = record {
  app = record {
    snapshot = [];
    window = record {
      devices = [];
      scanning = true;
      selected = none;
      casting = false;
      now_casting = [];
      url_text = [];
    };
    active = idle;
    trace = [];
  };
  queue = [];
}
