-- ===== src/Pipeline/Units.antt =====
-- What the loop sends, against the encoder's answers to the frames with the ticks of the clock.
use native.Mathlib.Nat.{sub-zero, suc-sub-suc}
use horizon_cast.Base.{
  ◌≤◌, ◌⊎◌, ℕ, zero, suc, ◌-◌, ◌≡◌, refl, sym, ap, ap₂, take_all, ◌∙◌, none, some, List, [], ◌∷◌,
  ◌++◌, map, take, length, inl, inr, arith, append-nil,
}
use horizon_cast.Capture.{CapturedFrame}
use horizon_cast.Clock.{PtsClock, pts, pts_all}
use horizon_cast.Clock
use horizon_cast.Core.{Result, ok, err}
use horizon_cast.Encode.{Backend, EncodedFrame}
use horizon_cast.Pipeline.{
  LoopEvent, sent, reported, encoder_finished, capture_stopped, send_all, unless_closed,
  after_encode, with_encoder, encode_frames, capture_encode_loop, config_for,
}

-- The units that were sent, in order.
unfoldable pub units_sent : List LoopEvent → List EncodedFrame
units_sent [] = []
units_sent (sent u ∷ es) = u ∷ units_sent es
units_sent (_ ∷ es) = units_sent es

-- How often the capture was stopped.
unfoldable pub stops : List LoopEvent → ℕ
stops [] = 0
stops (capture_stopped ∷ es) = suc (stops es)
stops (_ ∷ es) = stops es

units_sent-append : (a b : List LoopEvent) → units_sent (a ++ b) ≡ units_sent a ++ units_sent b
unfolding units_sent
units_sent-append [] b = refl
units_sent-append (sent u ∷ a) b = ap (◌∷◌ u) (units_sent-append a b)
units_sent-append (reported e ∷ a) b = units_sent-append a b
units_sent-append (encoder_finished ∷ a) b = units_sent-append a b
units_sent-append (capture_stopped ∷ a) b = units_sent-append a b

unfoldable pub units_before : Result (List EncodedFrame) → List EncodedFrame → List EncodedFrame
units_before (err e) later = []
units_before (ok units) later = units ++ later

module _ {S : Type 0} (backend : Backend S) where
  -- All that the encoder answers to the frames, each with its tick, until it fails.
  unfoldable pub answers : S → List CapturedFrame → List ℕ → List EncodedFrame
  answers s (f ∷ fs) (t ∷ ts) =
      let (result, s') = backend.encode s f t in units_before result (answers s' fs ts)
  answers s _ _ = []

take-append_short :
    (n : ℕ) (us vs : List EncodedFrame)
    → length us ≤ n
    → take n (us ++ vs) ≡ us ++ take (n - length us) vs
take-append_short n [] vs h = rw sub-zero refl
take-append_short zero (u ∷ us) vs h = absurd (omega arith)
take-append_short (suc n) (u ∷ us) vs h =
    rw suc-sub-suc (ap (◌∷◌ u) (take-append_short n us vs (omega arith)))

take-append_long :
    (n : ℕ) (us vs : List EncodedFrame) → n ≤ length us → take n (us ++ vs) ≡ take n us
take-append_long zero us vs h = refl
take-append_long (suc n) [] vs h = absurd (omega arith)
take-append_long (suc n) (u ∷ us) vs h = ap (◌∷◌ u) (take-append_long n us vs (omega arith))

-- Either there was room for all, or the channel was filled.
send_all_cases :
    (us : List EncodedFrame) (room : ℕ)
    → ((length us ≤ room)
        × (units_sent (send_all us room).0 ≡ us)
        × ((send_all us room).1 ≡ some (room - length us)))
      ⊎ ((room ≤ length us)
          × (units_sent (send_all us room).0 ≡ take room us)
          × ((send_all us room).1 ≡ none))
unfolding send_all units_sent
send_all_cases [] room = inl (omega arith, refl, rw sub-zero refl)
send_all_cases (u ∷ us) zero = inr (omega arith, refl, refl)
send_all_cases (u ∷ us) (suc room) = elim (send_all_cases us room) [
  | inl (fits, all, left) ↦ inl (omega arith, ap (◌∷◌ u) all, rw suc-sub-suc left)
  | inr (full, some_sent, left) ↦ inr (omega arith, ap (◌∷◌ u) some_sent, left)
]

stops-send_all :
    (us : List EncodedFrame) (room : ℕ) (es : List LoopEvent)
    → stops ((send_all us room).0 ++ es) ≡ stops es
unfolding send_all stops
stops-send_all [] room es = refl
stops-send_all (u ∷ us) zero es = refl
stops-send_all (u ∷ us) (suc room) es = stops-send_all us room es

-- One round: what it sends and the rest sends, and that the capture is stopped once.
after_encode_sends :
    (result : Result (List EncodedFrame)) (room : ℕ) (go_on : ℕ → List LoopEvent)
    (later : List EncodedFrame)
    → ((n : ℕ) → (units_sent (go_on n) ≡ take n later) × (stops (go_on n) ≡ 1))
    → (units_sent (after_encode result room go_on) ≡ take room (units_before result later))
      × (stops (after_encode result room go_on) ≡ 1)
unfolding after_encode unless_closed units_before
after_encode_sends (err e) room go_on later h =
    (unfold units_sent in sym (take_all room [] (omega arith)), unfold stops in refl)
after_encode_sends (ok units) room go_on later h = elim (send_all_cases units room) [
  | inr (full, some_sent, left) ↦ rw left (
    units_sent-append (send_all units room).0 (capture_stopped ∷ [])
        ∙ unfold units_sent in
          append-nil _ ∙ some_sent ∙ sym (take-append_long room units later full),
    stops-send_all units room (capture_stopped ∷ []) ∙ unfold stops in refl,
  )
  | inl (fits, all, left) ↦ rw left (
    units_sent-append (send_all units room).0 _
        ∙ ap₂ (λ (a b : List EncodedFrame). a ++ b) all (h (room - length units)).0
        ∙ sym (take-append_short room units later fits),
    stops-send_all units room _ ∙ (h (room - length units)).1,
  )
]

module _ {S : Type 0} (backend : Backend S) where
  encode_frames_sends :
      (s : S) (clock : PtsClock) (room : ℕ) (fs : List CapturedFrame)
      → (units_sent (encode_frames backend s clock room fs)
          ≡ take room (answers backend s fs (pts_all clock (map (λ f. f.pts) fs))))
        × (stops (encode_frames backend s clock room fs) ≡ 1)
  unfolding encode_frames answers pts_all
  encode_frames_sends s clock room [] =
      (unfold units_sent in sym (take_all room [] (omega arith)), unfold stops in refl)
  encode_frames_sends s clock room (f ∷ fs) =
      let step = backend.encode s f (pts clock f.pts).1 in
      after_encode_sends step.0 room _ _ (λ n. encode_frames_sends step.1 (pts clock f.pts).0 n fs)

  -- If the capture gives a frame and the encoder accepts the config of the first, then what is sent
  -- are the first units, as many as the channel takes, of what the encoder answers to the frames
  -- before its first error, in order; each frame is given to it with the tick that the clock of the
  -- session has for it. The capture is stopped exactly once.
  pub capture_encode_loop_sends :
      (first : CapturedFrame) (rest : List CapturedFrame) (fps bitrate_kbps room : ℕ) (s : S)
      → backend.new (config_for first fps bitrate_kbps) ≡ ok s
      → (units_sent (capture_encode_loop backend (ok (first ∷ rest)) fps bitrate_kbps room)
          ≡ take room (
              answers backend s
                (first ∷ rest)
                (pts_all Clock.new (map (λ f. f.pts) (first ∷ rest)))))
        × (stops (capture_encode_loop backend (ok (first ∷ rest)) fps bitrate_kbps room) ≡ 1)
  unfolding capture_encode_loop with_encoder
  capture_encode_loop_sends first rest fps bitrate_kbps room s made =
      rw (capture_encode_loop, made) (encode_frames_sends s Clock.new room (first ∷ rest))
