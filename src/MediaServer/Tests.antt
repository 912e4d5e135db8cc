-- ===== src/MediaServer/Tests.antt =====
-- Requests for small files, and the theorems applied to them.
use horizon_cast.Base.{◌≡◌, ◌↔◌, refl, true, false, none, some, [], ◌∷◌, arith}
use horizon_cast.Base.Words.{Bytes}
use horizon_cast.Base.Text.{
  Text, text, to_ascii_lowercase_char, strip_prefix, split_once, trim, first_part, parse_unsigned,
}
use horizon_cast.MediaServer.{
  range_spec, requested_range, checked_range, unsatisfiable_spec, parse_range,
  range_is_unsatisfiable, content_type_for, opened, serve,
}
use horizon_cast.MediaServer.Range.{
  from_to, from, last, header_value, selected, Misses, parse_range-header_value,
  range_is_unsatisfiable-header_value,
}
use horizon_cast.MediaServer.Answer.{IsPartial, get, serve-selected}

abbrev file : Bytes
file = 10 ∷ 11 ∷ 12 ∷ 13 ∷ 14 ∷ []

abbrev mp4 : Text
mp4 = text "video/mp4"

an_upper_case_extension : content_type_for (some (text "MP4")) ≡ mp4
unfolding content_type_for to_ascii_lowercase_char
an_upper_case_extension = refl

no_extension : content_type_for none ≡ text "application/octet-stream"
unfolding content_type_for
no_extension = refl

-- A backward range is neither granted nor refused.
backward_range : parse_range (text "bytes=50-10") 100 ≡ none
unfolding parse_range range_spec strip_prefix split_once trim first_part requested_range
    parse_unsigned checked_range
backward_range = refl

backward_not_refused : range_is_unsatisfiable (text "bytes=50-10") 100 ≡ false
unfolding range_is_unsatisfiable range_spec strip_prefix split_once trim first_part
    unsatisfiable_spec parse_unsigned
backward_not_refused = refl

granted : parse_range (text "bytes=1-99, 7-8") 5 ≡ some (1, 4)
unfolding parse_range range_spec strip_prefix split_once trim first_part requested_range
    parse_unsigned checked_range
granted = refl

refused : range_is_unsatisfiable (text "bytes=9-") 5 ≡ true
unfolding range_is_unsatisfiable range_spec strip_prefix split_once trim first_part
    unsatisfiable_spec parse_unsigned
refused = refl

parse_range-header_value_example : parse_range (header_value (last 2)) 5 ≡ selected (last 2) 5
parse_range-header_value_example = parse_range-header_value (last 2) 5 (omega arith)

range_is_unsatisfiable-header_value_example :
    (range_is_unsatisfiable (header_value (from 5)) 5 ≡ true) ↔ Misses (from 5) 5
range_is_unsatisfiable-header_value_example =
    range_is_unsatisfiable-header_value (from 5) 5 (omega arith)

serve-selected_example :
    IsPartial 1 3 file (serve mp4 (opened file true) (get (some (header_value (from_to 1 3))) true))
serve-selected_example =
    serve-selected mp4 file (from_to 1 3) true 1 3 (omega arith, omega arith) refl
