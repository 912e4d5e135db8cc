-- ===== src/Rtsp/Codec.antt =====
-- `RtspRequest` and `RtspResponse` of crates/hc-net/src/rtsp.rs: building requests and parsing
-- responses. `usize` has 64 bits and wraps around, as in a release build; a slice whose end is before
-- its start is a panic.
use horizon_cast.Base.{
  ℕ, suc, ◌+◌, ◌-◌, ◌%◌, ◌^◌, Bool, true, false, not, ◌&&◌, Option, none, some, List, [], ◌∷◌, ◌++◌,
  ltb, leb, ◌==◌, if◌then◌else◌, ◌>>=◌, ◌⊎◌, inl, inr, length, take, drop,
}
use mathlib.Core.Option.{get_or}
use horizon_cast.Base.Words.{Bytes}
use horizon_cast.Base.Text.{
  Text, text, eq_ignore_ascii_case, starts_with, split_once, trim, parse_u64, parse_u16, decimal,
}
use horizon_cast.Base.Text.Utf8.{from_utf8, as_bytes}

abbrev pub Headers : Type 0
Headers = List (Text × Text)

pub record RtspRequest : Type 0 where
  pub method : Text
  pub uri : Text
  pub headers : Headers
  pub body : Bytes

-- `RtspRequest::new`.
abbrev pub new : Text → Text → RtspRequest
new method uri = record { method = method; uri = uri; headers = []; body = [] }

-- `RtspRequest::header`.
abbrev pub header : Text → Text → RtspRequest → RtspRequest
header name value req = record req { headers = req.headers ++ (name, value) ∷ [] }

abbrev is_content_header : Text → Bool
is_content_header k = not (
    not (eq_ignore_ascii_case k (text "content-type"))
    && not (eq_ignore_ascii_case k (text "content-length")))

-- The headers but those of a body.
unfoldable pub without_content : Headers → Headers
without_content [] = []
without_content ((k, v) ∷ hs) =
    let rest = without_content hs in if is_content_header k then rest else (k, v) ∷ rest

unfoldable pub with_body : Text → Bytes → RtspRequest → RtspRequest
with_body content_type body req = record req {
  headers =
      without_content req.headers
      ++ ((text "Content-Type", content_type)
          ∷ (text "Content-Length", decimal (length body))
          ∷ []);
  body = body;
}

unfoldable pub serialize_headers : Headers → Bytes
serialize_headers [] = []
serialize_headers ((k, v) ∷ hs) =
    as_bytes (k ++ (text ": " ++ (v ++ text "\r\n"))) ++ serialize_headers hs

unfoldable pub serialize : RtspRequest → Bytes
serialize req =
    as_bytes (req.method ++ (b' ' ∷ (req.uri ++ text " RTSP/1.0\r\n")))
    ++ (serialize_headers req.headers ++ (text "\r\n" ++ req.body))

pub record RtspResponse : Type 0 where
  pub status : ℕ
  pub reason : Text
  pub headers : Headers
  pub body : Bytes

-- The first header of the name, in whatever case.
unfoldable pub find_header : Text → Headers → Option Text
find_header name [] = none
find_header name ((k, v) ∷ hs) =
    let rest = find_header name hs in if eq_ignore_ascii_case k name then some v else rest

-- `RtspResponse::header`.
abbrev pub response_header : Text → RtspResponse → Option Text
response_header name r = find_header name r.headers

abbrev pub is_success : RtspResponse → Bool
is_success r = leb 200 r.status && ltb r.status 300

-- The errors of `parse`, each with the text that its message shows.
pub data Invalid : Type 0 where
  not_utf8 : Invalid
  bad_status_line bad_status_code malformed_header : Text → Invalid

pub data Parsed : Type 0 where
  need_more panicked : Parsed
  invalid : Invalid → Parsed
  message : RtspResponse → ℕ → Parsed

-- `starts_with` on bytes.
unfoldable pub is_prefix : Bytes → Bytes → Bool
is_prefix [] s = true
is_prefix (p ∷ ps) [] = false
is_prefix (p ∷ ps) (c ∷ s) = p == c && is_prefix ps s

-- Where the first window that is the needle begins; a needle is not empty.
unfoldable pub find_subsequence : Bytes → Bytes → Option ℕ
find_subsequence [] needle = none
find_subsequence (c ∷ hay) needle =
    let later = find_subsequence hay needle >>= λ i. some (suc i) in
    if is_prefix needle (c ∷ hay) then some 0 else later

-- `head.split("\r\n")`: the first line, and the lines behind it.
unfoldable pub split_lines : Text → Text × List Text
split_lines [] = ([], [])
split_lines (c ∷ []) = (c ∷ [], [])
split_lines (c ∷ d ∷ s) = elim (c == 13 && d == 10) [
  | true ↦ let rest = split_lines s in ([], rest.0 ∷ rest.1)
  | false ↦ let rest = split_lines (d ∷ s) in (c ∷ rest.0, rest.1)
]

-- `splitn(3, ' ')` of the status line: the version, and the code and reason if they are there.
unfoldable pub status_parts : Text → Text × Option Text × Option Text
status_parts line = by_version (split_once b' ' line)
  where
    by_code : Text → Text → Option (Text × Text) → Text × Option Text × Option Text
    by_code version rest none = (version, some rest, none)
    by_code version rest (some (code, reason)) = (version, some code, some reason)

    by_version : Option (Text × Text) → Text × Option Text × Option Text
    by_version none = (line, none, none)
    by_version (some (version, rest)) = by_code version rest (split_once b' ' rest)

-- A header line, or the error; an empty line is none.
pub data HeaderLine : Type 0 where
  skipped malformed : HeaderLine
  parsed : Text × Text → HeaderLine

unfoldable pub header_line : Text → HeaderLine
header_line [] = skipped
header_line (c ∷ s) = by_colon (split_once b':' (c ∷ s))
  where
    by_colon : Option (Text × Text) → HeaderLine
    by_colon none = malformed
    by_colon (some (k, v)) = parsed (trim k, trim v)

-- A head that was read, or what is wrong with it.
pub data Head : Type 0 where
  bad : Invalid → Head
  good : ℕ → Text → Headers → Head

abbrev pub add_header : Text × Text → Invalid ⊎ Headers → Invalid ⊎ Headers
add_header h (inl e) = inl e
add_header h (inr hs) = inr (h ∷ hs)

-- The loop over the header lines: the first malformed line is the error.
unfoldable pub headers_of : List Text → Invalid ⊎ Headers
headers_of [] = inr []
headers_of (line ∷ lines) = elim (header_line line) [
  | skipped ↦ headers_of lines
  | malformed ↦ inl (malformed_header line)
  | parsed h ↦ add_header h (headers_of lines)
]

abbrev with_headers : ℕ → Text → Invalid ⊎ Headers → Head
with_headers status reason (inl e) = bad e
with_headers status reason (inr hs) = good status reason hs

abbrev with_status : Text → Option ℕ → Text → Invalid ⊎ Headers → Head
with_status line none reason hs = bad (bad_status_code line)
with_status line (some status) reason hs = with_headers status reason hs

-- The parts of the status line are tested before the headers.
abbrev with_parts : Text → Text × Option Text × Option Text → Invalid ⊎ Headers → Head
with_parts line (version, code, reason) hs =
    if starts_with (text "RTSP/") version
    then with_status line (code >>= parse_u16) (get_or reason []) hs
    else bad (bad_status_line line)

-- The status line and the headers.
unfoldable pub parse_head : Text → Head
parse_head head =
    let lines = split_lines head in with_parts lines.0 (status_parts lines.0) (headers_of lines.1)

abbrev pub content_len : Headers → ℕ
content_len hs = get_or (find_header (text "content-length") hs >>= parse_u64) 0

-- The message whose head ends at `head_end`.
unfoldable pub frame : Bytes → ℕ → Head → Parsed
frame buf head_end (bad e) = invalid e
frame buf head_end (good status reason headers) =
    let body_start = head_end + 4 in
    let body_end = (body_start + content_len headers) % 2 ^ 64 in
    if ltb (length buf) body_end
    then need_more
    else if ltb body_end body_start
    then panicked
    else message
        (record {
          status = status;
          reason = reason;
          headers = headers;
          body = take (body_end - body_start) (drop body_start buf);
        })
        body_end

abbrev pub head_of : Option Text → Head
head_of none = bad not_utf8
head_of (some head) = parse_head head

abbrev pub parse_from : Bytes → Option ℕ → Parsed
parse_from buf none = need_more
parse_from buf (some head_end) = frame buf head_end (head_of (from_utf8 (take head_end buf)))

-- `RtspResponse::parse`.
unfoldable pub parse : Bytes → Parsed
parse buf = parse_from buf (find_subsequence buf (text "\r\n\r\n"))
