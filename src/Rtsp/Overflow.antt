-- ===== src/Rtsp/Overflow.antt =====
-- The length that a response declares, added to its head.
use horizon_cast.Base.{
  ℕ, ◌+◌, ◌-◌, ◌*◌, ◌^◌, ◌<◌, ◌≤◌, ◌≡◌, ◌↔◌, refl, Option, none, some, [], ◌∷◌, ◌==◌, if◌then◌else◌,
  ◌>>=◌, length, arith,
}
use mathlib.Core.Option.{get_or}
use horizon_cast.Base.Words.{Bytes}
use horizon_cast.Base.Text.{Text, text, max_u64, parse_digits, parse_unsigned, parse_u64}
use horizon_cast.Rtsp.Codec.{Headers, find_header, content_len, good, panicked, frame}

parse_digits-le :
    (limit : ℕ) (s : Text) (n m : ℕ) → n ≤ limit → parse_digits limit s n ≡ some m → m ≤ limit
unfolding parse_digits
parse_digits-le limit [] n m h e = ground arith
parse_digits-le limit (c ∷ s) n m h e =
    ground (arith, parse_digits-le limit s (n * 10 + (c - b'0')) m)

parse_unsigned-le : (limit : ℕ) (s : Text) (m : ℕ) → parse_unsigned limit s ≡ some m → m ≤ limit
unfolding parse_unsigned
parse_unsigned-le limit [] m e = absurd (ground arith)
parse_unsigned-le limit (c ∷ []) m e = ground (arith, parse_digits-le limit (c ∷ []) 0 m)
parse_unsigned-le limit (c ∷ d ∷ s) m e =
    parse_digits-le limit (if c == b'+' then d ∷ s else c ∷ d ∷ s) 0 m (omega arith) e

content_len-le : (hs : Headers) → content_len hs ≤ max_u64
content_len-le hs = bounded (find_header (text "content-length") hs)
  where
    of_parsed : (o : Option ℕ) → ((m : ℕ) → o ≡ some m → m ≤ max_u64) → get_or o 0 ≤ max_u64
    of_parsed none h = omega arith
    of_parsed (some m) h = h m refl

    bounded : (o : Option Text) → get_or (o >>= parse_u64) 0 ≤ max_u64
    bounded none = omega arith
    bounded (some s) = of_parsed (parse_u64 s) (λ m. parse_unsigned-le max_u64 s m)

-- A response with a good head that is in the buffer makes the parser panic exactly when the length
-- that it declares brings the end of the message to 2 ^ 64 or more.
pub frame_panicked_iff :
    (buf : Bytes) (head_end status : ℕ) (reason : Text) (headers : Headers)
    → head_end + 4 ≤ length buf
    → length buf < 2 ^ 64
    → (frame buf head_end (good status reason headers) ≡ panicked)
      ↔ (2 ^ 64 ≤ head_end + 4 + content_len headers)
unfolding frame
frame_panicked_iff buf head_end status reason headers inside small =
    ground (arith, content_len-le headers)
