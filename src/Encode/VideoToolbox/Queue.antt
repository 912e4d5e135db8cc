-- ===== src/Encode/VideoToolbox/Queue.antt =====
-- What the calls of the encoder of macOS return of what the system hands to it.
use horizon_cast.Base.{
  ◌≡◌, refl, ap, ◌∙◌, sym, ℕ, ◌^◌, Option, none, some, List, [], ◌∷◌, ◌++◌, append_assoc,
  append-nil, arith, if◌then◌else◌, ltb,
}
use horizon_cast.Core.{Result, ok, err}
use horizon_cast.Encode.{EncodedFrame}
use horizon_cast.Encode.VideoToolbox.{
  Turn, handed, encode_called, finish_called, pushed, encode, finish, handled_unit, ticks_of,
  cmtime_to_90k, pts_time, as_i64,
}

abbrev pub units_of : Result (List EncodedFrame) → List EncodedFrame
units_of (ok us) = us
units_of (err e) = []

-- The units that the calls return, in order, and the queue that is left.
unfoldable pub returned : List Turn → List EncodedFrame → List EncodedFrame × List EncodedFrame
returned [] queue = ([], queue)
returned (handed h ∷ ts) queue = returned ts (pushed (handled_unit h) queue)
returned (encode_called pb failed ∷ ts) queue =
    let (result, queue') = encode pb failed queue in
    let (us, left) = returned ts queue' in (units_of result ++ us, left)
returned (finish_called ∷ ts) queue =
    let (result, queue') = finish queue in
    let (us, left) = returned ts queue' in (units_of result ++ us, left)

-- The units of the samples that are handed to the encoder, in order.
unfoldable pub handed_units : List Turn → List EncodedFrame
handed_units [] = []
handed_units (handed h ∷ ts) = pushed (handled_unit h) [] ++ handed_units ts
handed_units (_ ∷ ts) = handed_units ts

pushed-append :
    (u : Option EncodedFrame) (queue : List EncodedFrame) → pushed u queue ≡ queue ++ pushed u []
pushed-append none queue = sym (append-nil queue)
pushed-append (some u) queue = refl

-- However the system hands over samples and the calls follow each other, failed ones included, the
-- units that the calls return, and behind them those still queued, are the units that were queued
-- and those of the samples, each once and in order.
pub returned_all :
    (ts : List Turn) (queue : List EncodedFrame)
    → (returned ts queue).0 ++ (returned ts queue).1 ≡ queue ++ handed_units ts
unfolding returned handed_units encode finish
returned_all [] queue = sym (append-nil queue)
returned_all (handed h ∷ ts) queue =
    returned_all ts (pushed (handled_unit h) queue)
    ∙ ap (λ (q : List EncodedFrame). q ++ handed_units ts) (pushed-append (handled_unit h) queue)
    ∙ append_assoc queue (pushed (handled_unit h) []) (handed_units ts)
returned_all (encode_called (err e) failed ∷ ts) queue = returned_all ts queue
returned_all (encode_called (ok pb) (some status) ∷ ts) queue = returned_all ts queue
returned_all (encode_called (ok pb) none ∷ ts) queue =
    append_assoc queue (returned ts []).0 (returned ts []).1
    ∙ ap (λ (us : List EncodedFrame). queue ++ us) (returned_all ts [])
returned_all (finish_called ∷ ts) queue =
    append_assoc queue (returned ts []).0 (returned ts []).1
    ∙ ap (λ (us : List EncodedFrame). queue ++ us) (returned_all ts [])

-- The time that a frame is given comes back as the tick it was made of if that is below 2 ^ 63, and
-- as 0 otherwise.
pub cmtime_to_90k-pts_time :
    (pts : ℕ) → cmtime_to_90k (pts_time pts) ≡ (if ltb pts (2 ^ 63) then pts else 0)
unfolding cmtime_to_90k pts_time as_i64 ticks_of
cmtime_to_90k-pts_time pts = ground arith
