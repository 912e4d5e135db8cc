-- ===== src/MediaServer/Answer.antt =====
-- The answers of `serve`.
use horizon_cast.Base.{
  ℕ, ◌+◌, ◌-◌, ◌≤◌, ◌<◌, ◌≡◌, refl, ◌∙◌, Bool, true, false, Option, none, some, [], ◌∷◌, ◌++◌,
  if◌then◌else◌, arith, length, take, drop, ◌⊎◌,
}
use horizon_cast.Base.Words.{sizes, Bytes}
use horizon_cast.Base.Text.{Text, text, same, decimal}
use horizon_cast.MediaServer.{
  Opened, open_failed, metadata_failed, opened, Request, Headers, Response, ranged_body,
  content_range, insert_len, common_headers, unsatisfiable_response, granted_response, refuses,
  serve,
}
use horizon_cast.MediaServer.Range.{
  Form, Fits, Misses, header_value, selected, parse_range_bounds, parse_range-header_value,
  range_is_unsatisfiable-header_value, range_is_unsatisfiable-none,
}

-- `HeaderMap::get`, for names in lower case.
pub header : Text → Headers → Option Text
header name [] = none
header name ((k, v) ∷ hs) = let rest = header name hs in if same k name then some v else rest

-- The bytes from `start` to `end`, both included, with headers that say so.
pub record IsPartial (start end : ℕ) (file : Bytes) (r : Response) : Type 0 where
  pub status : r.status ≡ 206
  pub body : r.body ≡ take (end - start + 1) (drop start file)
  pub size : length r.body ≡ end - start + 1
  pub length_header : header (text "content-length") r.headers ≡ some (decimal (length r.body))
  pub range_header :
      header (text "content-range") r.headers ≡ some (content_range start end (length file))

-- The headers of such a part without its bytes, since the seek failed.
pub record IsMissing (start end : ℕ) (file : Bytes) (r : Response) : Type 0 where
  pub status : r.status ≡ 206
  pub body : r.body ≡ []
  pub length_header : header (text "content-length") r.headers ≡ some (decimal (end - start + 1))
  pub range_header :
      header (text "content-range") r.headers ≡ some (content_range start end (length file))

-- A part, by whether the file can be sought.
abbrev pub IsPart : Bool → ℕ → ℕ → Bytes → Response → Type 0
IsPart true start end file r = IsPartial start end file r
IsPart false start end file r = IsMissing start end file r

pub record IsWhole (file : Bytes) (r : Response) : Type 0 where
  pub status : r.status ≡ 200
  pub body : r.body ≡ file
  pub length_header : header (text "content-length") r.headers ≡ some (decimal (length r.body))
  pub range_header : header (text "content-range") r.headers ≡ none

pub record IsRefused (file : Bytes) (r : Response) : Type 0 where
  pub status : r.status ≡ 416
  pub body : r.body ≡ []
  pub range_header :
      header (text "content-range") r.headers ≡ some (text "bytes */" ++ decimal (length file))

module _ (content_type : Text) (n : ℕ) (tail : Headers) where
  length_of_common :
      (wants : Bool)
      → header (text "content-length") (insert_len (common_headers content_type wants) n ++ tail)
        ≡ some (decimal n)
  unfolding header same common_headers
  length_of_common true = refl
  length_of_common false = refl

  range_of_common :
      (wants : Bool)
      → header (text "content-range") (insert_len (common_headers content_type wants) n ++ tail)
        ≡ header (text "content-range") tail
  unfolding header same common_headers
  range_of_common true = refl
  range_of_common false = refl

granted-IsPartial :
    (content_type : Text) (file : Bytes) (wants : Bool) (start end : ℕ)
    → start ≤ end
    → end < length file
    → IsPartial start end file
        (granted_response (common_headers content_type wants) file true false (some (start, end)))
unfolding granted_response ranged_body
granted-IsPartial content_type file wants start end ordered inside =
    let n = end - start + 1 in
    let tail : Headers = (text "content-range", content_range start end (length file)) ∷ [] in
    let size : length (take n (drop start file)) ≡ n = omega sizes in
    record {
      status = refl;
      body = refl;
      size = size;
      length_header = rw size (length_of_common content_type n tail wants);
      range_header = range_of_common content_type n tail wants ∙ unfold header same in refl;
    }

unsatisfiable-IsRefused : (file : Bytes) → IsRefused file (unsatisfiable_response (length file))
unfolding unsatisfiable_response header same
unsatisfiable-IsRefused file = record { status = refl; body = refl; range_header = refl }

abbrev pub get : Option Text → Bool → Request
get range wants = record { is_head = false; range = range; wants_features = wants }

-- How a GET is answered, by what the operating system does with the file.
abbrev pub IsAnswer : Opened → Response → Type 0
IsAnswer (open_failed e) r = (r.status ≡ 404) × (r.body ≡ e)
IsAnswer (metadata_failed e) r = (r.status ≡ 500) × (r.body ≡ e)
IsAnswer (opened file seeks) r =
    ((start : ℕ) × (end : ℕ) × (start ≤ end) × (end < length file) × IsPart seeks start end file r)
    ⊎ IsWhole file r
    ⊎ IsRefused file r

-- A GET that names a range in one of the three forms, whose numbers fit 64 bits, and which selects
-- bytes from a file that can be opened and sought, gets those bytes, with their length and position
-- in the headers.
pub serve-selected :
    (content_type : Text) (file : Bytes) (f : Form) (wants : Bool) (start end : ℕ)
    → Fits f
    → selected f (length file) ≡ some (start, end)
    → IsPartial start end file
        (serve content_type (opened file true) (get (some (header_value f)) wants))
unfolding serve refuses
serve-selected content_type file f wants start end fits chosen =
    let granted = parse_range-header_value f (length file) fits ∙ chosen in
    let (ordered, inside) = parse_range_bounds (header_value f) (length file) start end granted in
    rw granted (granted-IsPartial content_type file wants start end ordered inside)

-- A GET whose well-formed range begins behind the end of the file, or asks for the last 0 bytes, is
-- refused.
pub serve_missed :
    (content_type : Text) (file : Bytes) (f : Form) (wants : Bool)
    → Fits f
    → Misses f (length file)
    → IsRefused file (serve content_type (opened file true) (get (some (header_value f)) wants))
unfolding serve refuses
serve_missed content_type file f wants fits missed =
    let unsatisfiable = (range_is_unsatisfiable-header_value f (length file) fits).1 missed in
    rw (range_is_unsatisfiable-none (header_value f) (length file) unsatisfiable, unsatisfiable)
      (unsatisfiable-IsRefused file)

abbrev pub head : Request → Request
head req = record req { is_head = true }

-- A HEAD request gets the status and headers of the GET request, and no body.
pub serve-head :
    (content_type : Text) (file : Bytes) (seeks : Bool) (range : Option Text) (wants : Bool)
    → serve content_type (opened file seeks) (head (get range wants))
      ≡ record (serve content_type (opened file seeks) (get range wants)) { body = [] }
unfolding serve granted_response unsatisfiable_response
serve-head content_type file seeks range wants = ground arith
