-- ===== src/Rtsp/Requests.antt =====
-- What requests send: the headers of a body, and the numbers.
use horizon_cast.Base.{
  ℕ, ◌+◌, ◌^◌, ◌<◌, ◌≡◌, refl, sym, ap, ap₂, ◌∙◌, some, List, [], ◌∷◌, ◌++◌, length, arith,
  append_assoc, append-nil,
}
use horizon_cast.Base.Words.{Bytes, u32}
use horizon_cast.Base.Text.{Text, text, same, to_ascii_lowercase_char, decimal}
use horizon_cast.Base.Text.Utf8.{as_bytes}
use horizon_cast.Rtsp.Codec.{
  Headers, RtspRequest, header, without_content, with_body, find_header, serialize,
  serialize_headers,
}
use horizon_cast.Rtsp.Connection.{
  Written, written, write_error, flush_error, Read, RtspConnection, request,
}

find_header-without_content :
    (hs rest : Headers)
    → (find_header (text "content-length") (without_content hs ++ rest)
        ≡ find_header (text "content-length") rest)
      × (find_header (text "content-type") (without_content hs ++ rest)
          ≡ find_header (text "content-type") rest)
unfolding find_header without_content
find_header-without_content [] rest = (refl, refl)
find_header-without_content ((k, v) ∷ hs) rest =
    let (one, two) = find_header-without_content hs rest in ground (arith, one, two)

-- A request with a body declares the length and the type of that body, whatever headers it had.
pub with_body-headers :
    (content_type : Text) (body : Bytes) (req : RtspRequest)
    → (find_header (text "content-length") (with_body content_type body req).headers
        ≡ some (decimal (length body)))
      × (find_header (text "content-type") (with_body content_type body req).headers
          ≡ some content_type)
      × ((with_body content_type body req).body ≡ body)
unfolding with_body
with_body-headers content_type body req =
    let rest : Headers =
      (text "Content-Type", content_type) ∷ (text "Content-Length", decimal (length body)) ∷ [] in
    let (one, two) = find_header-without_content req.headers rest in
    (
      one ∙ unfold find_header in unfold same in unfold to_ascii_lowercase_char in refl,
      two ∙ unfold find_header in unfold same in unfold to_ascii_lowercase_char in refl,
      refl,
    )

-- What a server gets of a request with a number: the request line, the headers of the request in
-- their order, the number behind all of them, and the body behind an empty line.
abbrev pub wire : ℕ → RtspRequest → Bytes
wire n req =
    as_bytes (req.method ++ (b' ' ∷ (req.uri ++ text " RTSP/1.0\r\n")))
    ++ (serialize_headers req.headers
        ++ (as_bytes (text "CSeq: " ++ (decimal n ++ text "\r\n")) ++ (text "\r\n" ++ req.body)))

serialize_headers-append :
    (hs gs : Headers) → serialize_headers (hs ++ gs) ≡ serialize_headers hs ++ serialize_headers gs
unfolding serialize_headers
serialize_headers-append [] gs = refl
serialize_headers-append ((k, v) ∷ hs) gs =
    let line = as_bytes (k ++ (text ": " ++ (v ++ text "\r\n"))) in
    ap (λ (rest : Bytes). line ++ rest) (serialize_headers-append hs gs)
    ∙ sym (append_assoc line (serialize_headers hs) (serialize_headers gs))

serialize-header :
    (n : ℕ) (req : RtspRequest) → serialize (header (text "CSeq") (decimal n) req) ≡ wire n req
unfolding serialize
serialize-header n req =
    let number : Headers = (text "CSeq", decimal n) ∷ [] in
    let line = as_bytes (text "CSeq: " ++ (decimal n ++ text "\r\n")) in
    let ending : Bytes = text "\r\n" ++ req.body in
    let alone : serialize_headers number ≡ line = unfold serialize_headers in append-nil line in
    let all : serialize_headers (req.headers ++ number) ++ ending
        ≡ serialize_headers req.headers ++ (line ++ ending) =
      ap (λ (hs : Bytes). hs ++ ending) (serialize_headers-append req.headers number)
      ∙ append_assoc (serialize_headers req.headers) (serialize_headers number) ending
      ∙ ap (λ (hs : Bytes). serialize_headers req.headers ++ (hs ++ ending)) alone in
    ap
      (λ (rest : Bytes).
        as_bytes (req.method ++ (b' ' ∷ (req.uri ++ text " RTSP/1.0\r\n"))) ++ rest)
      all

-- A request, how its write goes, and what the stream gives then.
pub record Attempt : Type 0 where
  pub req : RtspRequest
  pub how : Written
  pub reads : List Read

-- Requests one after the other on a connection: what is given to the stream for each.
unfoldable pub sent_by : List Attempt → RtspConnection → List Bytes
sent_by [] conn = []
sent_by (a ∷ more) conn =
    let made = request a.req a.how a.reads conn in made.sent ∷ sent_by more made.connection

-- Each with the number behind that of the one before.
unfoldable pub numbered_from : ℕ → List Attempt → List Bytes
numbered_from n [] = []
numbered_from n (a ∷ more) = wire (n + 1) a.req ∷ numbered_from (n + 1) more

numbered :
    (req : RtspRequest) (conn : RtspConnection)
    → conn.cseq + 1 < 2 ^ 32
    → (u32 (conn.cseq + 1) ≡ conn.cseq + 1)
      × (serialize (header (text "CSeq") (decimal (u32 (conn.cseq + 1))) req)
          ≡ wire (conn.cseq + 1) req)
numbered req conn h =
    let fits : u32 (conn.cseq + 1) ≡ conn.cseq + 1 = omega arith in
    (
      fits,
      ap (λ (n : ℕ). serialize (header (text "CSeq") (decimal n) req)) fits
          ∙ serialize-header (conn.cseq + 1) req,
    )

request-number :
    (req : RtspRequest) (how : Written) (reads : List Read) (conn : RtspConnection)
    → conn.cseq + 1 < 2 ^ 32
    → ((request req how reads conn).connection.cseq ≡ conn.cseq + 1)
      × ((request req how reads conn).sent ≡ wire (conn.cseq + 1) req)
unfolding request
request-number req written reads conn h = numbered req conn h
request-number req write_error reads conn h = numbered req conn h
request-number req flush_error reads conn h = numbered req conn h

-- However many requests are made on a connection and however each of them ends, the stream is given
-- for each one its request line, its own headers in order, behind them the number that follows the
-- one of the request before, and its body, as long as the numbers stay below 2 ^ 32.
pub request-cseq :
    (attempts : List Attempt) (conn : RtspConnection)
    → conn.cseq + length attempts < 2 ^ 32
    → sent_by attempts conn ≡ numbered_from conn.cseq attempts
unfolding sent_by numbered_from
request-cseq [] conn h = refl
request-cseq (a ∷ more) conn h =
    let made = request a.req a.how a.reads conn in
    let (next, sent) = request-number a.req a.how a.reads conn (omega arith) in
    ap₂ (λ (b : Bytes) (bs : List Bytes). b ∷ bs) sent
      (request-cseq more made.connection (omega (arith, next))
        ∙ ap (λ (n : ℕ). numbered_from n more) next)
