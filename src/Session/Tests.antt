-- ===== src/Session/Tests.antt =====
-- Runs of the session, and the theorems applied to them.
use horizon_cast.Base.{◌≡◌, refl, none, some, [], ◌∷◌}
use horizon_cast.Session.{
  next, drive, idle, streaming, stopping, error, protocol_failed, congested, recovered, stop,
  failed,
}
use horizon_cast.Session.History.{Within, needs, to_stream, drive-needs}

a_stream_opens : drive idle to_stream ≡ some streaming
unfolding drive next
a_stream_opens = refl

congestion_passes : drive streaming (congested ∷ recovered ∷ []) ≡ some streaming
unfolding drive next
congestion_passes = refl

-- An error state is left by a stop.
error_stops : next (error protocol_failed) stop ≡ some stopping
unfolding next
error_stops = refl

-- A failure is accepted in the idle state too.
idle_fails : next idle (failed protocol_failed) ≡ some (error protocol_failed)
unfolding next
idle_fails = refl

idle_refuses_stop : next idle stop ≡ none
unfolding next
idle_refuses_stop = refl

drive-needs_example : Within (needs streaming) to_stream
drive-needs_example = drive-needs to_stream streaming a_stream_opens
