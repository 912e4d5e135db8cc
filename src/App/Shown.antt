-- ===== src/App/Shown.antt =====
-- What the window shows of a cast that has started, or has not.
use horizon_cast.Base.{
  ℕ, ◌≡◌, ◌≢◌, ◌⊎◌, refl, ap, ◌∙◌, subst, true, false, Option, none, some, inl, inr, arith,
  Option-cases,
}
use horizon_cast.Base.Text.{Text}
use horizon_cast.Core.{Result, ok, err}
use horizon_cast.Discovery.Registry.Devices.{Device}
use horizon_cast.Net.World.{Trace}
use horizon_cast.Sink.{MediaCastSession, LiveMirrorSession}
use horizon_cast.Sink.Mirror.{push_units}
use horizon_cast.App.{
  App, idle, mirroring, Cmd, cast_file, cast_url, mirror, stop, Outside, MediaSource, file, url,
  clear_casting, teardown, end_pump, not_started, media_result, start_media_on, start_media_for,
  start_media, mirror_result, start_mirror_on, start_mirror_for, start_mirror, start_for,
  on_command,
}

-- From `a`, a cast started and the window is as it was, or none did and the window shows none.
abbrev pub Shows : App → App → Type 0
Shows a a' =
    ((a'.active ≢ idle) × (a'.window ≡ a.window))
    ⊎ ((a'.active ≡ idle) × (a'.window ≡ clear_casting a.window))

media_result-Shows :
    (end : Result MediaCastSession × Trace) (a : App) → Shows a (media_result end a)
unfolding media_result not_started
media_result-Shows (ok s, tr) a = inl (λ e. cc, refl)
media_result-Shows (err e, tr) a = inr (refl, refl)

mirror_result-Shows :
    (fps bitrate_kbps : ℕ) (end : Result LiveMirrorSession × Trace) (a : App)
    → Shows a (mirror_result fps bitrate_kbps end a)
unfolding mirror_result not_started
mirror_result-Shows fps bitrate_kbps (ok s, tr) a = inl (λ e. cc, refl)
mirror_result-Shows fps bitrate_kbps (err e, tr) a = inr (refl, refl)

start_media-Shows :
    (out : Outside) (found : Option Device) (source : MediaSource) (a : App)
    → Shows a (start_media_for out found source a)
unfolding start_media_for not_started
start_media-Shows out none source a = inr (refl, refl)
start_media-Shows out (some d) source a = on_control _
  where
    on_control : (control : Option Text × Trace) → Shows a (start_media_on out d source control a)
    on_control (none, tr) = unfold start_media_on in inr (refl, refl)
    on_control (some control, tr) = unfold start_media_on in media_result-Shows _ a

start_mirror-Shows :
    (out : Outside) (found : Option Device) (fps bitrate_kbps : ℕ) (a : App)
    → Shows a (start_mirror_for out found fps bitrate_kbps a)
unfolding start_mirror_for not_started
start_mirror-Shows out none fps bitrate_kbps a = inr (refl, refl)
start_mirror-Shows out (some d) fps bitrate_kbps a = on_control _
  where
    on_control :
        (control : Option Text × Trace) → Shows a (start_mirror_on out d fps bitrate_kbps control a)
    on_control (none, tr) = unfold start_mirror_on in inr (refl, refl)
    on_control (some control, tr) =
        unfold start_mirror_on in mirror_result-Shows fps bitrate_kbps _ a

start_for-Shows : (out : Outside) (cmd : Cmd) (a : App) → cmd ≢ stop → Shows a (start_for out cmd a)
unfolding start_for start_media start_mirror
start_for-Shows out (cast_file id path) a ne = start_media-Shows out _ (file path) a
start_for-Shows out (cast_url id link) a ne = start_media-Shows out _ (url link) a
start_for-Shows out (mirror id fps bitrate_kbps) a ne = start_mirror-Shows out _ fps bitrate_kbps a
start_for-Shows out stop a ne = absurd (ne refl)

shown_hidden : (a a' : App) → a.window.casting ≡ false → Shows a a' → a'.window.casting ≡ false
unfolding clear_casting
shown_hidden a a' hidden (inl (started, same)) = ap (λ w. w.casting) same ∙ hidden
shown_hidden a a' hidden (inr (none_active, cleared)) = ap (λ w. w.casting) cleared

-- A command to cast that did not panic has started a cast, or the window shows none.
pub on_command_shows :
    (out : Outside) (cmd : Cmd) (a a' : App)
    → cmd ≢ stop
    → on_command out cmd a ≡ some a'
    → (a'.active ≢ idle) ⊎ (a'.window.casting ≡ false)
unfolding on_command
on_command_shows out cmd a a' ne e = elim (Option-cases (teardown out a.active a)) [
  | inl panic ↦ absurd (ground arith)
  | inr (a1, torn) ↦
      let done : start_for out cmd a1 ≡ a' = ground arith in
      let shown : Shows a1 a' = subst (Shows a1) done (start_for-Shows out cmd a1 ne) in
      elim shown [
        | inl (started, same) ↦ inl started
        | inr (none_active, cleared) ↦ inr (unfold clear_casting in ap (λ w. w.casting) cleared)
      ]
]

-- A cast that starts does not make the window show one.
start_for_hidden :
    (out : Outside) (cmd : Cmd) (a : App)
    → a.window.casting ≡ false
    → (start_for out cmd a).window.casting ≡ false
start_for_hidden out stop a hidden = unfold start_for in hidden
start_for_hidden out (cast_file id path) a hidden =
    shown_hidden a (start_for out (cast_file id path) a) hidden
      (start_for-Shows out (cast_file id path) a (λ e. cc))
start_for_hidden out (cast_url id link) a hidden =
    shown_hidden a (start_for out (cast_url id link) a) hidden
      (start_for-Shows out (cast_url id link) a (λ e. cc))
start_for_hidden out (mirror id fps bitrate_kbps) a hidden =
    shown_hidden a (start_for out (mirror id fps bitrate_kbps) a) hidden
      (start_for-Shows out (mirror id fps bitrate_kbps) a (λ e. cc))

teardown_hides :
    (out : Outside) (s : LiveMirrorSession) (a a' : App)
    → (out.late a.trace).capture_ended ≡ true
    → teardown out (mirroring s) a ≡ some a'
    → a'.window.casting ≡ false
unfolding teardown end_pump clear_casting
teardown_hides out s a a' late e =
    elim (Option-cases (push_units (out.late a.trace).units s a.trace)) [
      | inl panic ↦ absurd (ground arith)
      | inr ((s', tr'), pushed) ↦ ground arith
    ]

-- When the capture of a mirror ends just before the pump sees the stop, the window shows no cast
-- after the next command, also where that command has started one.
pub on_command_hides :
    (out : Outside) (cmd : Cmd) (s : LiveMirrorSession) (a a' : App)
    → a.active ≡ mirroring s
    → (out.late a.trace).capture_ended ≡ true
    → on_command out cmd a ≡ some a'
    → a'.window.casting ≡ false
unfolding on_command
on_command_hides out cmd s a a' mirrored late e = elim (Option-cases (teardown out a.active a)) [
  | inl panic ↦ absurd (ground arith)
  | inr (a1, torn) ↦
      let done : start_for out cmd a1 ≡ a' = ground arith in
      let was : teardown out (mirroring s) a ≡ some a1 = rw (← mirrored) torn in
      rw (← done) (start_for_hidden out cmd a1 (teardown_hides out s a a1 late was))
]
