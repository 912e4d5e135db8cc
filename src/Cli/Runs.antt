-- ===== src/Cli/Runs.antt =====
-- What a cast or a mirror of the command line leaves behind.
use horizon_cast.Base.{
  ◌≡◌, refl, ◌∙◌, Bool, true, false, not, ◌&&◌, Option, none, some, List, ◌∷◌, Bool-cases, inl, inr,
}
use horizon_cast.Base.Text.{Text, text}
use horizon_cast.App.Servers.{control_url_running}
use horizon_cast.Core.{Result, ok, err}
use horizon_cast.Discovery.Registry.Devices.{Device}
use horizon_cast.Net.World.{Environment, Trace, capture_spawned}
use horizon_cast.Sink.{MediaCastSession, LiveMirrorSession, stop_mirror}
use horizon_cast.Sink.Cast.{Leaves, cast_file-Leaves, cast_url-Leaves, stop_cast_ends}
use horizon_cast.Sink.Mirror.{
  IsLive, LeavesLive, start_mirror-LeavesLive, push_units-IsLive, stop_mirror_ends,
}
use horizon_cast.Sink.Servers.{running}
use horizon_cast.Cli.{
  Ended, stopped, waiting_for_clients, waiting_for_capture, Waits, Pumped, after_stop, is_url,
  media_title, find_device, start_cast, held_cast, cast_to, cast_on, run_cast, held_mirror,
  mirror_to, mirror_on, run_mirror,
}

start_cast-Leaves :
    (env : Environment) (control : Text) (d : Device) (media : Text) (tr : Trace)
    → Leaves (running tr) (start_cast env control d media tr)
unfolding start_cast
start_cast-Leaves env control d media tr = elim (Bool-cases (is_url media)) [
  | inl link ↦ rw link (cast_url-Leaves env control media (media_title media) tr)
  | inr path ↦ rw path (cast_file-Leaves env control d.address media (media_title media) tr)
]

running-held_cast :
    (env : Environment) (before : List Text) (end : Result MediaCastSession × Trace)
    → Leaves before end
    → running (held_cast env end).1 ≡ before
unfolding held_cast
running-held_cast env before (err e, tr) h = h
running-held_cast env before (ok s, tr) h = (stop_cast_ends env s before tr h).1

running-cast_to :
    (env : Environment) (d : Device) (media : Text) (before : List Text)
    (found : Option Text × Trace)
    → running found.1 ≡ before
    → running (cast_to env d media found).1 ≡ before
unfolding cast_to
running-cast_to env d media before (none, tr) h = h
running-cast_to env d media before (some control, tr) h =
    running-held_cast env (running tr) _ (start_cast-Leaves env control d media tr) ∙ h

running-cast_on :
    (env : Environment) (media : Text) (found : Option Device) (tr : Trace)
    → running (cast_on env media found tr).1 ≡ running tr
unfolding cast_on
running-cast_on env media none tr = refl
running-cast_on env media (some d) tr =
    running-cast_to env d media (running tr) _
      (control_url_running env d.dlna_control_url d.dlna_location tr)

-- However a cast of the command line ends, the servers that run are those that ran before.
pub running-run_cast :
    (env : Environment) (is_file : Bool) (devices : List Device) (device media : Text) (tr : Trace)
    → running (run_cast env is_file devices device media tr).1 ≡ running tr
unfolding run_cast
running-run_cast env is_file devices device media tr =
    elim (Bool-cases (not (is_url media) && not is_file)) [
      | inl missing ↦ rw missing refl
      | inr found ↦ rw found (running-cast_on env media (find_device device devices) tr)
    ]

-- How a mirror ends: it was never started, and is over, or its session was told to stop; and then it
-- is over exactly if the clients have left the stream and the capture has ended.
abbrev pub IsOver : Waits → Ended → Type 0
IsOver waits (stopped result) = (waits.clients_left ≡ true) × (waits.capture_ended ≡ true)
IsOver waits waiting_for_clients = waits.clients_left ≡ false
IsOver waits waiting_for_capture = (waits.clients_left ≡ true) × (waits.capture_ended ≡ false)
IsOver waits _ = Unit {0}

after_stop-IsOver :
    (waits : Waits) (result : Result (Unit {0})) → IsOver waits (after_stop waits result)
unfolding after_stop
after_stop-IsOver waits result = elim (Bool-cases waits.clients_left) [
  | inr stay ↦ rw stay refl
  | inl left ↦ elim (Bool-cases waits.capture_ended) [
    | inr on ↦ rw (left, on) (refl, refl)
    | inl off ↦ rw (left, off) (refl, refl)
  ]
]

-- What a mirror leaves: it has not panicked, the servers are those that ran before, and it is over
-- or waits.
abbrev pub LeavesNone : Waits → List Text → Option (Ended × Trace) → Type 0
LeavesNone waits before end =
    (r : Ended × Trace) × (end ≡ some r) × (running r.1 ≡ before) × IsOver waits r.0

held_mirror-running :
    (env : Environment) (p : Pumped) (before : List Text) (end : Result LiveMirrorSession × Trace)
    → LeavesLive before end
    → LeavesNone p.waits before (held_mirror env p end)
unfolding held_mirror
held_mirror-running env p before (err e, tr) h = (_, refl, h, tt)
held_mirror-running env p before (ok s, tr) h =
    let started : IsLive s before (capture_spawned p.fps p.bitrate_kbps ∷ tr) =
      unfold IsLive in unfold running in h in
    let (s', tr', pushed, same_live, live) = push_units-IsLive p.units s before _ started in
    let run : running tr' ≡ s'.live.url ∷ before = unfold IsLive in live.0 in
    let end = stop_mirror env s' tr' in
    (
      (after_stop p.waits end.0, end.1),
      rw pushed refl,
      (stop_mirror_ends env s' before tr' run).1,
      after_stop-IsOver p.waits end.0,
    )

mirror_to-running :
    (env : Environment) (p : Pumped) (d : Device) (before : List Text) (found : Option Text × Trace)
    → running found.1 ≡ before
    → LeavesNone p.waits before (mirror_to env p d found)
unfolding mirror_to
mirror_to-running env p d before (none, tr) h = (_, refl, h, tt)
mirror_to-running env p d before (some control, tr) h =
    let (r, ended, ran, over) =
      held_mirror-running env p (running tr) _
        (start_mirror-LeavesLive env control d.address (text "HorizonCast") tr) in
    (r, ended, ran ∙ h, over)

-- A mirror of the command line does not panic, whatever finite sequence of units is pumped before the
-- interrupt or the end of the capture, and whatever the network answers. The servers that were not
-- told to stop are then those that ran before. A mirror that was started is over exactly if the
-- clients have left its stream and the capture has ended; otherwise it waits for one of them.
pub run_mirror-running :
    (env : Environment) (devices : List Device) (device : Text) (p : Pumped) (tr : Trace)
    → LeavesNone p.waits (running tr) (run_mirror env devices device p tr)
unfolding run_mirror
run_mirror-running env devices device p tr = on (find_device device devices)
  where
    on : (found : Option Device) → LeavesNone p.waits (running tr) (mirror_on env p found tr)
    on none = unfold mirror_on in (_, refl, refl, tt)
    on (some d) =
        unfold mirror_on in
        mirror_to-running env p d (running tr) _
          (control_url_running env d.dlna_control_url d.dlna_location tr)
