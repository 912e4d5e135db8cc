-- ===== src/MediaServer.antt =====
-- The file server, crates/hc-net/src/media_server.rs: range requests, content types, and the answer
-- to a request. Texts are lists of code points; a header name or value is ASCII.
pub mod Range
pub mod Answer
pub mod Tests
use mathlib.Core.Option
use horizon_cast.Base.{
  ℕ, zero, ◌+◌, ◌-◌, min, Bool, true, false, ◌||◌, Option, none, some, List, [], ◌∷◌, ◌++◌, ltb,
  leb, ◌==◌, if◌then◌else◌, ◌>>=◌, length, take, drop,
}
use horizon_cast.Base.Words.{Bytes}
use horizon_cast.Base.Text.{
  Text, text, same, is_empty, is_some, strip_prefix, split_once, first_part, trim, parse_u64,
  decimal, to_ascii_lowercase,
}

-- The first range of the list, cut at its dash.
pub range_spec : Text → Option (Text × Text)
range_spec value =
    strip_prefix (text "bytes=") value >>= λ spec. split_once b'-' (trim (first_part b',' spec))

-- The bounds before the last test.
pub requested_range : Text → Text → ℕ → Option (ℕ × ℕ)
requested_range s e total =
    if is_empty s
    then (parse_u64 e >>= λ n. if n == 0 then none else some (total - n, total - 1))
    else (parse_u64 s >>= λ start.
        if is_empty e
        then some (start, total - 1)
        else (parse_u64 e >>= λ end. some (start, min end (total - 1))))

-- The last test, and the result.
pub checked_range : ℕ → ℕ × ℕ → Option (ℕ × ℕ)
checked_range last (start, end) =
    if ltb end start || ltb last start then none else some (start, end)

-- `parse_range`.
unfoldable pub parse_range : Text → ℕ → Option (ℕ × ℕ)
parse_range value total =
    if total == 0
    then none
    else (range_spec value >>= λ (s, e).
        requested_range s e total >>= λ bounds. checked_range (total - 1) bounds)

-- `Ok(0)` of a parse.
abbrev is_zero : Option ℕ → Bool
is_zero none = false
is_zero (some n) = n == 0

abbrev is_at_least : ℕ → Option ℕ → Bool
is_at_least total none = false
is_at_least total (some n) = leb total n

pub unsatisfiable_spec : ℕ → Option (Text × Text) → Bool
unsatisfiable_spec total none = false
unsatisfiable_spec total (some (start, end)) =
    if is_empty start then is_zero (parse_u64 end) else is_at_least total (parse_u64 start)

unfoldable pub range_is_unsatisfiable : Text → ℕ → Bool
range_is_unsatisfiable value total = unsatisfiable_spec total (range_spec value)

-- The match on the extension in lower case.
by_extension : Option Text → Text
by_extension none = text "application/octet-stream"
by_extension (some e) =
    if same e (text "mp4") || same e (text "m4v")
    then text "video/mp4"
    else if same e (text "mkv")
    then text "video/x-matroska"
    else if same e (text "mov")
    then text "video/quicktime"
    else if same e (text "webm")
    then text "video/webm"
    else if same e (text "avi")
    then text "video/x-msvideo"
    else if same e (text "ts")
    then text "video/mp2t"
    else if same e (text "mpeg") || same e (text "mpg")
    then text "video/mpeg"
    else if same e (text "mp3")
    then text "audio/mpeg"
    else if same e (text "flac")
    then text "audio/flac"
    else if same e (text "aac")
    then text "audio/aac"
    else if same e (text "wav")
    then text "audio/wav"
    else if same e (text "jpg") || same e (text "jpeg")
    then text "image/jpeg"
    else if same e (text "png")
    then text "image/png"
    else text "application/octet-stream"

-- `content_type_for`, of the path's extension. (`Path::extension` is the standard library's.)
unfoldable pub content_type_for : Option Text → Text
unfolding by_extension same
content_type_for ext = by_extension (Option.map to_ascii_lowercase ext)

abbrev pub dlna_content_features : Text
dlna_content_features =
    text "DLNA.ORG_OP=01;DLNA.ORG_CI=0;DLNA.ORG_FLAGS=01700000000000000000000000000000"

-- What the operating system does with the path: a failure to open it or to read its metadata, with
-- the error's text, or the file's bytes, where a seek may fail.
pub data Opened : Type 0 where
  open_failed : Text → Opened
  metadata_failed : Text → Opened
  opened : Bytes → Bool → Opened

-- The parts of a request that the handler reads; the user agent is only logged.
pub record Request : Type 0 where
  pub is_head : Bool
  pub range : Option Text
  pub wants_features : Bool

abbrev pub Headers : Type 0
Headers = List (Text × Text)

pub record Response : Type 0 where
  pub status : ℕ
  pub headers : Headers
  pub body : Bytes

abbrev pub insert_len : Headers → ℕ → Headers
insert_len out len = out ++ (text "content-length", decimal len) ∷ []

-- `ranged_body`.
pub ranged_body : Bytes → Bool → ℕ → ℕ → Bytes
ranged_body file seeks start len = if seeks then take len (drop start file) else []

abbrev pub content_range : ℕ → ℕ → ℕ → Text
content_range start end total =
    text "bytes " ++ (decimal start ++ (b'-' ∷ (decimal end ++ (b'/' ∷ decimal total))))

pub common_headers : Text → Bool → Headers
common_headers content_type wants =
    let out =
      (text "accept-ranges", text "bytes")
      ∷ (text "content-type", content_type)
      ∷ (text "transfermode.dlna.org", text "Streaming")
      ∷ [] in
    if wants then out ++ (text "contentfeatures.dlna.org", dlna_content_features) ∷ [] else out

-- The 416 answer.
pub unsatisfiable_response : ℕ → Response
unsatisfiable_response total = record {
  status = 416;
  headers = (text "content-range", text "bytes */" ++ decimal total) ∷ [];
  body = [];
}

-- The last match of `serve`, on the granted range.
pub granted_response : Headers → Bytes → Bool → Bool → Option (ℕ × ℕ) → Response
granted_response out file seeks is_head (some (start, end)) =
    let len = end - start + 1 in
    record {
      status = 206;
      headers =
          insert_len out len ++ (text "content-range", content_range start end (length file)) ∷ [];
      body = if is_head then [] else ranged_body file seeks start len;
    }
granted_response out file seeks is_head none = record {
  status = 200;
  headers = insert_len out (length file);
  body = if is_head then [] else file;
}

pub refuses : Option (ℕ × ℕ) → Option Text → ℕ → Bool
refuses none (some r) total = range_is_unsatisfiable r total
refuses _ _ total = false

unfoldable pub serve : Text → Opened → Request → Response
serve content_type (open_failed e) req = record { status = 404; headers = []; body = e }
serve content_type (metadata_failed e) req = record { status = 500; headers = []; body = e }
serve content_type (opened file seeks) req =
    let total = length file in
    let requested = req.range >>= λ v. parse_range v total in
    if refuses requested req.range total
    then unsatisfiable_response total
    else granted_response (common_headers content_type req.wants_features) file seeks req.is_head
        requested
