-- ===== src/Encode/VideoToolbox/Sets.antt =====
-- The parameter sets that the encoder of macOS reads from the format of a sample.
use horizon_cast.Base.{
  ℕ, zero, suc, ◌≤◌, ◌≡◌, refl, ap, subst, none, some, List, [], ◌∷◌, ◌++◌, length, get_elem?,
  append_assoc, length-append, arith, leb, if◌then◌else◌,
}
use horizon_cast.Base.Words.{Bytes}
use horizon_cast.Encode.VideoToolbox.{SetAnswer, no_set, set_at, h264_parameter_sets}

-- The answers of a format that has these sets.
abbrev pub answer_of : List Bytes → ℕ → SetAnswer
answer_of sets index = elim (get_elem? sets index) [
  | none ↦ no_set
  | some bytes ↦ set_at bytes (length sets)
]

get_elem?_behind :
    (before : List Bytes) (rest : List Bytes) (set : Bytes)
    → get_elem? (before ++ set ∷ rest) (length before) ≡ some set
get_elem?_behind [] rest set = refl
get_elem?_behind (b ∷ before) rest set = get_elem?_behind before rest set

get_elem?_end : (before : List Bytes) → get_elem? (before ++ []) (length before) ≡ none
get_elem?_end [] = refl
get_elem?_end (b ∷ before) = get_elem?_end before

-- The loop ends with the last set.
stop_or_go :
    (before : List Bytes) (set : Bytes) (rest : List Bytes)
    → (if leb (length (before ++ set ∷ rest)) (suc (length before)) then [] else rest) ≡ rest
stop_or_go before set [] = ground (arith, length-append before (set ∷ []))
stop_or_go before set (next ∷ rest) = ground (arith, length-append before (set ∷ next ∷ rest))

h264_parameter_sets_from :
    (fuel : ℕ) (before rest : List Bytes)
    → length rest ≤ fuel
    → h264_parameter_sets fuel (answer_of (before ++ rest)) (length before) ≡ rest
unfolding h264_parameter_sets
h264_parameter_sets_from zero before [] h = refl
h264_parameter_sets_from zero before (set ∷ rest) h = absurd (omega arith)
h264_parameter_sets_from (suc fuel) before [] h =
    rw (h264_parameter_sets, get_elem?_end before) refl
h264_parameter_sets_from (suc fuel) before (set ∷ rest) h =
    let size : length (before ++ set ∷ []) ≡ suc (length before) =
      omega (arith, length-append before (set ∷ [])) in
    let moved : h264_parameter_sets fuel (answer_of ((before ++ set ∷ []) ++ rest))
          (suc (length before))
        ≡ rest =
      subst
        (λ (n : ℕ). h264_parameter_sets fuel (answer_of ((before ++ set ∷ []) ++ rest)) n ≡ rest)
        size (h264_parameter_sets_from fuel (before ++ set ∷ []) rest (omega arith)) in
    let more : h264_parameter_sets fuel (answer_of (before ++ set ∷ rest)) (suc (length before))
        ≡ rest =
      subst
        (λ (all : List Bytes).
          h264_parameter_sets fuel (answer_of all) (suc (length before)) ≡ rest)
        (append_assoc before (set ∷ []) rest) moved in
    rw (h264_parameter_sets, get_elem?_behind before rest set, more)
      (ap (λ (sets : List Bytes). set ∷ sets) (stop_or_go before set rest))

-- Of a format that has these sets, at least as many rounds as there are sets read exactly these.
pub h264_parameter_sets_all :
    (fuel : ℕ) (sets : List Bytes)
    → length sets ≤ fuel
    → h264_parameter_sets fuel (answer_of sets) 0 ≡ sets
h264_parameter_sets_all fuel sets h = h264_parameter_sets_from fuel [] sets h
