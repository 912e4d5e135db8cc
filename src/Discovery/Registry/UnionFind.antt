-- ===== src/Discovery/Registry/UnionFind.antt =====
-- The union-find of `DeviceRegistry::devices`: `find` with path halving, and the loop that links
-- addresses which share an identity. `none` is an index out of range, or a loop out of fuel.
pub mod Forest
pub mod Find
pub mod Classes
pub mod Joining
pub mod Correct
use horizon_cast.Base.{
  ℕ, zero, suc, ◌+◌, Bool, true, false, Option, none, some, List, [], ◌∷◌, ◌==◌, if◌then◌else◌,
  ◌>>=◌, ◌>>◌, get_elem?, set, length,
}
use horizon_cast.Base.Text.{Text, same}

-- `while parent[x] != x { parent[x] = parent[parent[x]]; x = parent[x] }`.
unfoldable pub find : ℕ → List ℕ → ℕ → Option (List ℕ × ℕ)
find zero parent x = none
find (suc fuel) parent x = get_elem? parent x >>= λ up. elim (up == x) [
  | true ↦ some (parent, x)
  | false ↦ get_elem? parent up >>= λ above. find fuel (set parent x above) above
]

-- `HashMap::get` of the owners of identities; a key stands once.
unfoldable pub owner_of : Text → List (Text × ℕ) → Option ℕ
owner_of id [] = none
owner_of id ((k, i) ∷ owners) = let rest = owner_of id owners in if same k id then some i else rest

pub record Links : Type 0 where
  pub parent : List ℕ
  pub id_owner : List (Text × ℕ)

-- The union of the trees of `i` and `j`.
unfoldable pub union : ℕ → List ℕ → ℕ → ℕ → Option (List ℕ)
union fuel parent i j = do
  first ← find fuel parent i
  second ← find fuel first.0 j
  some (if first.1 == second.1 then second.0 else set second.0 first.1 second.1)

-- One identity of the address with index `i`.
unfoldable pub link_id : ℕ → ℕ → Text → Links → Option Links
link_id fuel i id st = by_owner (owner_of id st.id_owner)
  where
    by_owner : Option ℕ → Option Links
    by_owner none = some (record st { id_owner = (id, i) ∷ st.id_owner })
    by_owner (some j) = union fuel st.parent i j >>= λ parent. some (record st { parent = parent })

unfoldable pub link_ids : ℕ → ℕ → List Text → Links → Option Links
link_ids fuel i [] st = some st
link_ids fuel i (id ∷ ids) st = link_id fuel i id st >>= λ st'. link_ids fuel i ids st'

-- The outer loop, from the address with index `i` on.
unfoldable pub link_all : ℕ → ℕ → List (List Text) → Links → Option Links
link_all fuel i [] st = some st
link_all fuel i (ids ∷ rest) st = link_ids fuel i ids st >>= λ st'. link_all fuel (i + 1) rest st'

-- `0..n`.
unfoldable pub range_from : ℕ → ℕ → List ℕ
range_from zero i = []
range_from (suc n) i = i ∷ range_from n (i + 1)

-- How many identities there are: at most so many unions are made, which bounds the trees' depth.
unfoldable pub count_ids : List (List Text) → ℕ
count_ids [] = 0
count_ids (ids ∷ rest) = length ids + count_ids rest

unfoldable pub links : List (List Text) → Option Links
unfolding range_from count_ids
links identities =
    link_all (suc (count_ids identities)) 0 identities
      (record { parent = range_from (length identities) 0; id_owner = [] })
