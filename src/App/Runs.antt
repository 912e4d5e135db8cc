-- ===== src/App/Runs.antt =====
-- Whole runs of the application: clicks, commands, updates, units and the end of captures in any
-- order.
use horizon_cast.Base.{◌≡◌, ◌≤◌, refl, Option, none, some, List, [], ◌∷◌, arith, length}
use horizon_cast.Base.Text.{Text}
use horizon_cast.Encode.{EncodedFrame}
use horizon_cast.Net.FileServer.{MediaServer}
use horizon_cast.Net.World.{Trace}
use horizon_cast.Sink.Cast.{IsHeld}
use horizon_cast.Sink.Mirror.{IsLive, push_units-IsLive, stop_mirror_ends}
use horizon_cast.Sink.Servers.{running}
use horizon_cast.App.{
  App, Active, idle, mirror_ended, media, mirroring, Cmd, Outside, end_pump, unit_for, on_unit,
  capture_end_for, on_capture_end, on_update,
}
use horizon_cast.App.Events.{
  Desktop, Event, callback, take_command, updated, unit, capture_end, next_command, turn, run, quit,
  opened,
}
use horizon_cast.App.Servers.{Owns, IsSound, on_command-IsSound, teardown_sound}

unit_for-IsSound :
    (u : EncodedFrame) (before : List Text) (active : Active) (a : App)
    → Owns before active a.trace
    → a.active ≡ active
    → (a' : App) × (unit_for u active a ≡ some a') × IsSound before a'
unfolding unit_for
unit_for-IsSound u before (mirroring s) a h e =
    let (s', tr', pushed, same_live, live) = push_units-IsLive (u ∷ []) s before a.trace h in
    (record a { active = mirroring s'; trace = tr' }, rw pushed refl, live)
unit_for-IsSound u before idle a h e = (a, refl, rw e h)
unit_for-IsSound u before mirror_ended a h e = (a, refl, rw e h)
unit_for-IsSound u before (media s) a h e = (a, refl, rw e h)

capture_end-IsSound :
    (out : Outside) (before : List Text) (active : Active) (a : App)
    → Owns before active a.trace
    → a.active ≡ active
    → IsSound before (capture_end_for out active a)
unfolding capture_end_for end_pump IsLive
capture_end-IsSound out before (mirroring s) a h e =
    (stop_mirror_ends out.net s before a.trace h.0).1
capture_end-IsSound out before idle a h e = rw e h
capture_end-IsSound out before mirror_ended a h e = rw e h
capture_end-IsSound out before (media s) a h e = rw e h

next_command-IsSound :
    (out : Outside) (before : List Text) (queue : List Cmd) (a : App)
    → IsSound before a
    → (d : Desktop) × (next_command out queue a ≡ some d) × IsSound before d.app
unfolding next_command
next_command-IsSound out before [] a h = (record { app = a; queue = [] }, refl, h)
next_command-IsSound out before (cmd ∷ queue) a h =
    let (a', done, sound) = on_command-IsSound out cmd before a h in
    (record { app = a'; queue = queue }, rw done refl, sound)

turn-IsSound :
    (out : Outside) (before : List Text) (e : Event) (d : Desktop)
    → IsSound before d.app
    → (d' : Desktop) × (turn out e d ≡ some d') × IsSound before d'.app
unfolding turn on_unit on_update on_capture_end
turn-IsSound out before (callback c) d h = (_, refl, h)
turn-IsSound out before take_command d h = next_command-IsSound out before d.queue d.app h
turn-IsSound out before (updated ds) d h = (_, refl, h)
turn-IsSound out before (unit u) d h =
    let (a', done, sound) = unit_for-IsSound u before d.app.active d.app h refl in
    (record { app = a'; queue = d.queue }, rw done refl, sound)
turn-IsSound out before capture_end d h =
    (_, refl, capture_end-IsSound out before d.app.active d.app h refl)

-- However clicks, commands, updates, units and ends of captures follow each other, and whatever the
-- network answers, no step fails, and the servers that run are those of what is cast.
pub run-IsSound :
    (out : Outside) (before : List Text) (es : List Event) (d : Desktop)
    → IsSound before d.app
    → (d' : Desktop) × (run out es d ≡ some d') × IsSound before d'.app
unfolding run
run-IsSound out before [] d h = (d, refl, h)
run-IsSound out before (e ∷ es) d h =
    let (d1, turned, h1) = turn-IsSound out before e d h in
    let (d2, ran, h2) = run-IsSound out before es d1 h1 in (d2, rw turned ran, h2)

Owns-one : (active : Active) (tr : Trace) → Owns [] active tr → length (running tr) ≤ 1
unfolding IsHeld IsLive
Owns-one idle tr h = rw h (omega arith)
Owns-one mirror_ended tr h = rw h (omega arith)
Owns-one (media s) tr h = held_one s.server tr h
  where
    held_one :
        (server : Option MediaServer) (tr' : Trace)
        → running tr' ≡ elim server [ none ↦ [] | some held ↦ held.url ∷ [] ]
        → length (running tr') ≤ 1
    held_one none tr' e = rw e (omega arith)
    held_one (some held) tr' e = rw e (omega arith)
Owns-one (mirroring s) tr h = rw h.0 (omega arith)

-- From its start on, whatever happens in whatever order, at most one server of the application runs;
-- and when it quits, none does.
pub run-quit :
    (out : Outside) (es : List Event)
    → (d : Desktop) × (a : App) × (run out es opened ≡ some d)
      × (length (running d.app.trace) ≤ 1)
      × (quit out d ≡ some a)
      × (running a.trace ≡ [])
unfolding quit
run-quit out es =
    let (d, ran, sound) = run-IsSound out [] es opened (unfold running in refl) in
    let (a, torn, now_idle, same_snapshot, left) = teardown_sound out [] d.app.active d.app sound in
    (d, a, ran, Owns-one d.app.active d.app.trace sound, torn, left)
