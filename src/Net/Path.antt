-- ===== src/Net/Path.antt =====
-- What the program asks of a `Path`, as the standard library answers on Unix.
use horizon_cast.Base.{ℕ, ◌||◌, Option, none, some, List, [], ◌∷◌, ◌==◌, if◌then◌else◌, ◌>>=◌}
use horizon_cast.Base.Text.{Text, text, same, is_empty}

-- The parts between the separators.
unfoldable pub pieces : ℕ → Text → List Text
pieces sep [] = [] ∷ []
pieces sep (c ∷ s) = elim (pieces sep s) [
  | [] ↦ (c ∷ []) ∷ []
  | p ∷ ps ↦ if c == sep then [] ∷ p ∷ ps else (c ∷ p) ∷ ps
]

-- The last component that is neither empty nor a dot, over the one found so far.
unfoldable pub last_component : Option Text → List Text → Option Text
last_component found [] = found
last_component found (p ∷ ps) =
    last_component (if is_empty p || same p (text ".") then found else some p) ps

-- `Path::file_name`.
unfoldable pub file_name : Text → Option Text
file_name path = last_component none (pieces b'/' path) >>= λ name.
    if same name (text "..") then none else some name

-- `str::rsplit_once`: the parts before and behind the last `sep`.
unfoldable pub rsplit_once : ℕ → Text → Option (Text × Text)
rsplit_once sep [] = none
rsplit_once sep (c ∷ s) = elim (rsplit_once sep s) [
  | none ↦ if c == sep then some ([], s) else none
  | some (l, r) ↦ some (c ∷ l, r)
]

-- A name is cut at its last dot, unless nothing stands before that.
abbrev stem_of : Text → Option (Text × Text) → Text
stem_of name none = name
stem_of name (some (l, r)) = if is_empty l then name else l

abbrev extension_of : Option (Text × Text) → Option Text
extension_of none = none
extension_of (some (l, r)) = if is_empty l then none else some r

-- `Path::file_stem`.
unfoldable pub file_stem : Text → Option Text
unfolding file_name rsplit_once
file_stem path = file_name path >>= λ name. some (stem_of name (rsplit_once b'.' name))

-- `Path::extension`.
unfoldable pub extension : Text → Option Text
unfolding file_name rsplit_once
extension path = file_name path >>= λ name. extension_of (rsplit_once b'.' name)
