-- ===== src/App/Servers.antt =====
-- The servers that run beside the application: those of what is cast, and none behind it.
use horizon_cast.Base.{ℕ, ◌≡◌, refl, ◌∙◌, subst, Option, none, some, List, ◌∷◌, arith}
use horizon_cast.Base.Text.{Text, text}
use horizon_cast.Net.Http.{fetch_description}
use horizon_cast.Core.{Result, ok, err}
use horizon_cast.Discovery.Registry.Devices.{Device}
use horizon_cast.Net.World.{Environment, Trace}
use horizon_cast.Sink
use horizon_cast.Sink.{MediaCastSession, LiveMirrorSession, stop_cast, stop_mirror}
use horizon_cast.Sink.Cast.{IsHeld, Leaves, cast_file-Leaves, cast_url-Leaves, stop_cast_ends}
use horizon_cast.Sink.Mirror.{
  IsLive, LeavesLive, push_units-IsLive, start_mirror-LeavesLive, stop_mirror_ends,
}
use horizon_cast.Sink.Servers.{running}
use horizon_cast.App.{
  App, Active, idle, mirror_ended, media, mirroring, Cmd, cast_file, cast_url, mirror, stop,
  Outside, MediaSource, file, url, control_url, teardown, end_pump, not_started, cast_source,
  media_result, start_media_on, start_media_for, start_media, mirror_result, start_mirror_on,
  start_mirror_for, start_mirror, start_for, on_command,
}

-- The servers of what is cast, over those that ran before.
abbrev pub Owns : List Text → Active → Trace → Type 0
Owns before idle tr = running tr ≡ before
Owns before mirror_ended tr = running tr ≡ before
Owns before (media s) tr = IsHeld s before tr
Owns before (mirroring s) tr = IsLive s before tr

abbrev pub IsSound : List Text → App → Type 0
IsSound before a = Owns before a.active a.trace

-- Tearing down never fails, whatever the renderer answers, and leaves no server of the cast.
pub teardown_sound :
    (out : Outside) (before : List Text) (active : Active) (a : App)
    → Owns before active a.trace
    → (a' : App) × (teardown out active a ≡ some a')
      × (a'.active ≡ idle)
      × (a'.snapshot ≡ a.snapshot)
      × (running a'.trace ≡ before)
unfolding teardown end_pump
teardown_sound out before idle a h = (_, refl, refl, refl, h)
teardown_sound out before mirror_ended a h = (_, refl, refl, refl, h)
teardown_sound out before (media s) a h =
    (_, refl, refl, refl, (stop_cast_ends out.net s before a.trace h).1)
teardown_sound out before (mirroring s) a h =
    let (s', tr', pushed, same_live, live) =
      push_units-IsLive (out.late a.trace).units s before a.trace h in
    let run : running tr' ≡ s'.live.url ∷ before = unfold IsLive in live.0 in
    let ended = end_pump out (out.late a.trace).capture_ended s' (record a { trace = tr' }) in
    let torn : App = record ended { active = idle } in
    (torn, rw pushed refl, refl, refl, (stop_mirror_ends out.net s' before tr' run).1)

pub control_url_running :
    (env : Environment) (direct location : Option Text) (tr : Trace)
    → running (control_url env direct location tr).1 ≡ running tr
unfolding control_url Sink.resolve_control_url fetch_description running
control_url_running env none none tr = refl
control_url_running env none (some location) tr = ground arith
control_url_running env (some direct) location tr = refl

cast_source-Leaves :
    (env : Environment) (control : Text) (d : Device) (source : MediaSource) (tr : Trace)
    → Leaves (running tr) (cast_source env control d source tr)
cast_source-Leaves env control d (file path) tr = cast_file-Leaves env control d.address path _ tr
cast_source-Leaves env control d (url link) tr = cast_url-Leaves env control link d.name tr

media_result-IsSound :
    (before : List Text) (end : Result MediaCastSession × Trace) (a : App)
    → Leaves before end
    → IsSound before (media_result end a)
unfolding media_result not_started
media_result-IsSound before (ok s, tr) a h = h
media_result-IsSound before (err e, tr) a h = h

mirror_result-IsSound :
    (fps bitrate_kbps : ℕ) (before : List Text) (end : Result LiveMirrorSession × Trace) (a : App)
    → LeavesLive before end
    → IsSound before (mirror_result fps bitrate_kbps end a)
unfolding mirror_result not_started IsLive running
mirror_result-IsSound fps bitrate_kbps before (ok s, tr) a h = h
mirror_result-IsSound fps bitrate_kbps before (err e, tr) a h = h

start_media_on-IsSound :
    (out : Outside) (d : Device) (source : MediaSource) (before : List Text)
    (found : Option Text × Trace) (a : App)
    → running found.1 ≡ before
    → IsSound before (start_media_on out d source found a)
unfolding start_media_on not_started
start_media_on-IsSound out d source before (none, tr) a h = h
start_media_on-IsSound out d source before (some control, tr) a h =
    media_result-IsSound before (cast_source out.net control d source tr) a (
      subst (λ (ran : List Text). Leaves ran (cast_source out.net control d source tr)) h
        (cast_source-Leaves out.net control d source tr))

start_mirror_on-IsSound :
    (out : Outside) (d : Device) (fps bitrate_kbps : ℕ) (before : List Text)
    (found : Option Text × Trace) (a : App)
    → running found.1 ≡ before
    → IsSound before (start_mirror_on out d fps bitrate_kbps found a)
unfolding start_mirror_on not_started
start_mirror_on-IsSound out d fps bitrate_kbps before (none, tr) a h = h
start_mirror_on-IsSound out d fps bitrate_kbps before (some control, tr) a h =
    mirror_result-IsSound fps bitrate_kbps before _ a (
      subst
        (λ (ran : List Text).
          LeavesLive ran (Sink.start_mirror out.net control d.address (text "HorizonCast") tr))
        h (start_mirror-LeavesLive out.net control d.address (text "HorizonCast") tr))

start_media-IsSound :
    (out : Outside) (found : Option Device) (source : MediaSource) (before : List Text) (a : App)
    → running a.trace ≡ before
    → IsSound before (start_media_for out found source a)
unfolding start_media_for not_started
start_media-IsSound out none source before a h = h
start_media-IsSound out (some d) source before a h =
    start_media_on-IsSound out d source before _ a
      (control_url_running out.net d.dlna_control_url d.dlna_location a.trace ∙ h)

start_mirror-IsSound :
    (out : Outside) (found : Option Device) (fps bitrate_kbps : ℕ) (before : List Text) (a : App)
    → running a.trace ≡ before
    → IsSound before (start_mirror_for out found fps bitrate_kbps a)
unfolding start_mirror_for not_started
start_mirror-IsSound out none fps bitrate_kbps before a h = h
start_mirror-IsSound out (some d) fps bitrate_kbps before a h =
    start_mirror_on-IsSound out d fps bitrate_kbps before _ a
      (control_url_running out.net d.dlna_control_url d.dlna_location a.trace ∙ h)

-- Starting from no cast leaves the servers of what was started, and none if nothing was.
start_for-IsSound :
    (out : Outside) (cmd : Cmd) (before : List Text) (a : App)
    → a.active ≡ idle
    → running a.trace ≡ before
    → IsSound before (start_for out cmd a)
unfolding start_for start_media start_mirror
start_for-IsSound out (cast_file id path) before a none_active h =
    start_media-IsSound out _ (file path) before a h
start_for-IsSound out (cast_url id link) before a none_active h =
    start_media-IsSound out _ (url link) before a h
start_for-IsSound out (mirror id fps bitrate_kbps) before a none_active h =
    start_mirror-IsSound out _ fps bitrate_kbps before a h
start_for-IsSound out stop before a none_active h = rw none_active h

pub on_command-IsSound :
    (out : Outside) (cmd : Cmd) (before : List Text) (a : App)
    → IsSound before a
    → (a' : App) × (on_command out cmd a ≡ some a') × IsSound before a'
unfolding on_command
on_command-IsSound out cmd before a h =
    let (a1, torn, now_idle, same_snapshot, ran) = teardown_sound out before a.active a h in
    (start_for out cmd a1, rw torn refl, start_for-IsSound out cmd before a1 now_idle ran)
