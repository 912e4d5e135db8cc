-- ===== src/Rtsp/Framing.antt =====
-- Framing: what a buffer parses to is settled by its first bytes.
use horizon_cast.Base.{
  ℕ, zero, suc, ◌+◌, ◌-◌, ◌%◌, ◌^◌, ◌≤◌, ◌≡◌, ◌≢◌, refl, sym, subst, ap, ◌∙◌, true, false, ◌&&◌,
  none, some, [], ◌∷◌, ◌++◌, ltb, ◌==◌, ◌>>=◌, length, take, drop, arith, Bool-cases, Option-cases,
  inl, inr, length-append, length-drop, length-take,
}
use horizon_cast.Base.Words.{Bytes}
use horizon_cast.Base.Text.{text}
use horizon_cast.Base.Text.Utf8.{from_utf8}
use horizon_cast.Rtsp.Codec.{
  is_prefix, find_subsequence, Head, bad, good, content_len, Parsed, need_more, panicked, message,
  frame, head_of, parse_from, parse, RtspResponse,
}

take-append : (xs ys : Bytes) (n : ℕ) → n ≤ length xs → take n (xs ++ ys) ≡ take n xs
take-append xs ys zero h = refl
take-append [] ys (suc n) h = absurd (omega arith)
take-append (x ∷ xs) ys (suc n) h = ap (◌∷◌ x) (take-append xs ys n (omega arith))

pub drop-append : (xs ys : Bytes) (n : ℕ) → n ≤ length xs → drop n (xs ++ ys) ≡ drop n xs ++ ys
drop-append xs ys zero h = refl
drop-append [] ys (suc n) h = absurd (omega arith)
drop-append (x ∷ xs) ys (suc n) h = drop-append xs ys n (omega arith)

-- A window that lies in the buffer is the same in a longer one.
is_prefix-append :
    (p s more : Bytes) → length p ≤ length s → is_prefix p (s ++ more) ≡ is_prefix p s
unfolding is_prefix
is_prefix-append [] s more h = refl
is_prefix-append (x ∷ p) [] more h = absurd (omega arith)
is_prefix-append (x ∷ p) (c ∷ s) more h =
    ap (◌&&◌ (x == c)) (is_prefix-append p s more (omega arith))

is_prefix-length : (p s : Bytes) → is_prefix p s ≡ true → length p ≤ length s
unfolding is_prefix
is_prefix-length [] s h = omega arith
is_prefix-length (x ∷ p) [] h = absurd (ground arith)
is_prefix-length (x ∷ p) (c ∷ s) h = ground (arith, is_prefix-length p s)

none-some : {i : ℕ} → none ≡ some i → ⊥
none-some h = cc

-- The first place of the needle lies in the buffer.
find_subsequence-length :
    (hay needle : Bytes) (i : ℕ)
    → find_subsequence hay needle ≡ some i
    → i + length needle ≤ length hay
unfolding find_subsequence
find_subsequence-length [] needle i h = absurd (cc)
find_subsequence-length (c ∷ hay) needle i h = elim (Bool-cases (is_prefix needle (c ∷ hay))) [
  | inl here ↦
      let e : some 0 ≡ some i = rw here at h in
      let z : 0 ≡ i = cc in omega (arith, is_prefix-length needle (c ∷ hay) here)
  | inr further ↦ elim (Option-cases (find_subsequence hay needle)) [
    | inl nowhere ↦ absurd (none-some (rw (further, nowhere, ◌>>=◌) at h))
    | inr (j, later) ↦
        let e : some (suc j) ≡ some i = rw (further, later, ◌>>=◌) at h in
        let z : suc j ≡ i = cc in omega (arith, find_subsequence-length hay needle j later)
  ]
]

-- More bytes do not change the first place.
find_subsequence-append :
    (hay needle more : Bytes) (i : ℕ)
    → find_subsequence hay needle ≡ some i
    → find_subsequence (hay ++ more) needle ≡ some i
unfolding find_subsequence
find_subsequence-append [] needle more i h = absurd (cc)
find_subsequence-append (c ∷ hay) needle more i h =
    let fits = find_subsequence-length (c ∷ hay) needle i h in
    let same = is_prefix-append needle (c ∷ hay) more (omega arith) in
    rw same (elim (Option-cases (find_subsequence hay needle)) [
      | inl nowhere ↦ elim (Bool-cases (is_prefix needle (c ∷ hay))) [
        | inl here ↦ rw here (rw here at h)
        | inr further ↦ absurd (none-some (rw (further, nowhere, ◌>>=◌) at h))
      ]
      | inr (j, later) ↦ rw (find_subsequence-append hay needle more j later) (rw later at h)
    ])

frame-append :
    (buf more : Bytes) (head_end : ℕ) (h : Head)
    → head_end + 4 ≤ length buf
    → frame buf head_end h ≢ need_more
    → frame (buf ++ more) head_end h ≡ frame buf head_end h
frame-append buf more head_end (bad e) inside settled = unfold frame in refl
frame-append buf more head_end (good status reason headers) inside settled =
    let end = (head_end + 4 + content_len headers) % 2 ^ 64 in
    elim (Bool-cases (ltb (length buf) end)) [
      | inl short ↦ absurd (settled (unfold frame in rw short refl))
      | inr full ↦
          let full' : ltb (length (buf ++ more)) end ≡ false =
            ground (arith, length-append buf more) in
          let body : take (end - (head_end + 4)) (drop (head_end + 4) (buf ++ more))
              ≡ take (end - (head_end + 4)) (drop (head_end + 4) buf) =
            rw (drop-append buf more (head_end + 4) inside) (
              take-append (drop (head_end + 4) buf) more (end - (head_end + 4))
                (ground (arith, length-drop (head_end + 4) buf))) in
          unfold frame in rw (full, full', body) refl
    ]

-- A buffer that is settled, be it a message, an error or a panic, stays so whatever comes behind:
-- the parser never looks past what it takes.
pub parse-append : (buf more : Bytes) → parse buf ≢ need_more → parse (buf ++ more) ≡ parse buf
parse-append buf more settled = elim (Option-cases (find_subsequence buf (text "\r\n\r\n"))) [
  | inl nowhere ↦
      let e : parse buf ≡ need_more = unfold parse in ap (parse_from buf) nowhere in
      absurd (settled e)
  | inr (i, here) ↦
      let there = find_subsequence-append buf (text "\r\n\r\n") more i here in
      let inside = find_subsequence-length buf (text "\r\n\r\n") i here in
      let head = head_of (from_utf8 (take i buf)) in
      let same : parse buf ≡ frame buf i head = unfold parse in ap (parse_from buf) here in
      let longer : parse (buf ++ more) ≡ frame (buf ++ more) i head =
        unfold parse in
        ap (parse_from (buf ++ more)) there
        ∙ ap (λ head. frame (buf ++ more) i (head_of (from_utf8 head)))
            (take-append buf more i (omega arith)) in
      longer ∙ frame-append buf more i head inside (λ e. settled (same ∙ e)) ∙ sym same
]

frame-message :
    (buf : Bytes) (head_end : ℕ) (h : Head) (r : RtspResponse) (n : ℕ)
    → frame buf head_end h ≡ message r n
    → (head_end + 4 ≤ n) × (n ≤ length buf) × (length r.body ≡ n - (head_end + 4))
frame-message buf head_end (bad e) r n h = absurd (unfold frame in cc)
frame-message buf head_end (good status reason headers) r n h =
    let start = head_end + 4 in
    let end = (start + content_len headers) % 2 ^ 64 in
    elim (Bool-cases (ltb (length buf) end)) [
      | inl short ↦ let e : need_more ≡ message r n = unfold frame in rw short at h in absurd (cc)
      | inr full ↦ elim (Bool-cases (ltb end start)) [
        | inl wrapped ↦
            let e : panicked ≡ message r n = unfold frame in rw (full, wrapped) at h in absurd (cc)
        | inr sane ↦
            let body = take (end - start) (drop start buf) in
            let e : message
                  (record { status = status; reason = reason; headers = headers; body = body }) end
                ≡ message r n =
              unfold frame in rw (full, sane) at h in
            let same_end : end ≡ n = cc in
            let same_body : body ≡ r.body = ap body_of e in
            let size = length-take (end - start) (drop start buf) in
            let rest = length-drop start buf in
            let ordered : start ≤ end = ground arith in
            let fits : end ≤ length buf = ground arith in
            (
              subst (λ n. start ≤ n) same_end ordered,
              subst (λ n. n ≤ length buf) same_end fits,
              ap length (sym same_body) ∙ omega arith,
            )
      ]
    ]
  where
    body_of : Parsed → Bytes
    body_of (message r _) = r.body
    body_of _ = []

-- A message takes bytes of the buffer that are there, at least the four that end its head, and its
-- body has the length that is left of them.
pub parse-message :
    (buf : Bytes) (r : RtspResponse) (n : ℕ)
    → parse buf ≡ message r n
    → (head_end : ℕ) × (find_subsequence buf (text "\r\n\r\n") ≡ some head_end)
      × (head_end + 4 ≤ n)
      × (n ≤ length buf)
      × (length r.body ≡ n - (head_end + 4))
parse-message buf r n h = elim (Option-cases (find_subsequence buf (text "\r\n\r\n"))) [
  | inl nowhere ↦
      let e : parse buf ≡ need_more = unfold parse in ap (parse_from buf) nowhere in
      let clash : need_more ≡ message r n = sym e ∙ h in absurd (cc)
  | inr (i, here) ↦
      let head = head_of (from_utf8 (take i buf)) in
      let same : parse buf ≡ frame buf i head = unfold parse in ap (parse_from buf) here in
      let (behind, inside, size) = frame-message buf i head r n (sym same ∙ h) in
      (i, here, behind, inside, size)
]
