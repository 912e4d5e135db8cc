-- ===== src/Rtsp/Chunks.antt =====
-- The read loop does not depend on how the stream cuts its bytes.
use horizon_cast.Base.{
  ℕ, ◌≡◌, ◌≢◌, refl, sym, subst, ap, ◌∙◌, List, [], ◌∷◌, ◌++◌, drop, append_assoc, append-nil,
}
use mathlib.Core.Option.{get_or}
use horizon_cast.Base.Words.{Bytes}
use horizon_cast.Rtsp.Codec.{Parsed, need_more, panicked, invalid, message, parse, RtspResponse}
use horizon_cast.Rtsp.Connection.{
  Read, bytes, failed, answered, waiting, Waited, settled, await_response,
}
use horizon_cast.Rtsp.Framing.{drop-append, parse-append, parse-message}

-- Reads that bring at least a byte each, and all their bytes.
abbrev pub reads_of : List (ℕ × Bytes) → List Read
reads_of [] = []
reads_of ((c, chunk) ∷ chunks) = bytes (c ∷ chunk) ∷ reads_of chunks

abbrev pub bytes_of : List Read → Bytes
bytes_of [] = []
bytes_of (bytes chunk ∷ reads) = chunk ++ bytes_of reads
bytes_of (failed ∷ reads) = bytes_of reads

-- The loop ends with the response, and the bytes behind it are in the buffer or not read yet.
pub record IsAnswered (stream : Bytes) (r : RtspResponse) (n : ℕ) (w : Waited) : Type 0 where
  pub outcome : w.outcome ≡ answered r
  pub rest : w.left ++ bytes_of w.unread ≡ drop n stream

data View (buf : Bytes) : Type 0 where
  unsettled : parse buf ≡ need_more → View buf
  done : (p : Parsed) → parse buf ≡ p → p ≢ need_more → View buf

view : (buf : Bytes) → View buf
view buf = look (parse buf) refl
  where
    look : (p : Parsed) → parse buf ≡ p → View buf
    look need_more e = unsettled e
    look panicked e = done panicked e (λ h. cc)
    look (invalid x) e = done (invalid x) e (λ h. cc)
    look (message r n) e = done (message r n) e (λ h. cc)

-- The loop on a buffer that holds the whole message.
at_once : Bytes → RtspResponse → ℕ → List Read → Waited
at_once buf r n reads = record { left = drop n buf; outcome = answered r; unread = reads }

await_response_settled :
    (buf : Bytes) (chunks : List (ℕ × Bytes)) (r : RtspResponse) (n : ℕ)
    → parse buf ≡ message r n
    → await_response buf (reads_of chunks) ≡ at_once buf r n (reads_of chunks)
unfolding await_response at_once settled
await_response_settled buf [] r n h =
    ap (λ p. get_or (settled buf [] p) (record { left = buf; outcome = waiting; unread = [] })) h
await_response_settled buf ((c, chunk) ∷ chunks) r n h =
    ap
      (λ p.
        get_or (settled buf (reads_of ((c, chunk) ∷ chunks)) p)
          (await_response (buf ++ c ∷ chunk) (reads_of chunks)))
      h

await_response_unsettled :
    (buf : Bytes) (c : ℕ) (chunk : Bytes) (chunks : List (ℕ × Bytes))
    → parse buf ≡ need_more
    → await_response buf (reads_of ((c, chunk) ∷ chunks))
      ≡ await_response (buf ++ c ∷ chunk) (reads_of chunks)
unfolding await_response settled
await_response_unsettled buf c chunk chunks h =
    ap
      (λ p.
        get_or (settled buf (reads_of ((c, chunk) ∷ chunks)) p)
          (await_response (buf ++ c ∷ chunk) (reads_of chunks)))
      h

await_response-at_once :
    (buf : Bytes) (chunks : List (ℕ × Bytes)) (r : RtspResponse) (n : ℕ)
    → parse buf ≡ message r n
    → IsAnswered (buf ++ bytes_of (reads_of chunks)) r n (await_response buf (reads_of chunks))
await_response-at_once buf chunks r n h =
    let (_, _, _, inside, _) = parse-message buf r n h in
    let left = drop-append buf (bytes_of (reads_of chunks)) n inside in
    let done : IsAnswered (buf ++ bytes_of (reads_of chunks)) r n
        (at_once buf r n (reads_of chunks)) =
      unfold at_once in record { outcome = refl; rest = sym left } in
    subst (IsAnswered (buf ++ bytes_of (reads_of chunks)) r n)
      (sym (await_response_settled buf chunks r n h)) done

-- Whenever the bytes that the buffer holds and the reads bring start with a whole message, the loop
-- ends with that message, however the reads cut the bytes, and none of the bytes behind it is lost.
pub await_response-IsAnswered :
    (chunks : List (ℕ × Bytes)) (buf : Bytes) (r : RtspResponse) (n : ℕ)
    → parse (buf ++ bytes_of (reads_of chunks)) ≡ message r n
    → IsAnswered (buf ++ bytes_of (reads_of chunks)) r n (await_response buf (reads_of chunks))
await_response-IsAnswered [] buf r n h =
    await_response-at_once buf [] r n (ap parse (sym (append-nil buf)) ∙ h)
await_response-IsAnswered ((c, chunk) ∷ chunks) buf r n h = elim (view buf) [
  | unsettled e ↦
      let joined = append_assoc buf (c ∷ chunk) (bytes_of (reads_of chunks)) in
      let later = await_response-IsAnswered chunks (buf ++ c ∷ chunk) r n (ap parse joined ∙ h) in
      subst (λ s. IsAnswered s r n (await_response buf (reads_of ((c, chunk) ∷ chunks)))) joined
        (subst (IsAnswered ((buf ++ c ∷ chunk) ++ bytes_of (reads_of chunks)) r n)
          (sym (await_response_unsettled buf c chunk chunks e)) later)
  | done p e settled ↦
      let same =
        parse-append buf (bytes_of (reads_of ((c, chunk) ∷ chunks))) (λ u. settled (sym e ∙ u)) in
      await_response-at_once buf ((c, chunk) ∷ chunks) r n (sym same ∙ h)
]
