-- ===== src/Discovery/Registry/UnionFind/Forest.antt =====
-- Parent arrays as forests: the root of a node is where enough steps upwards end.
use horizon_cast.Base.{
  ℕ, zero, suc, ◌+◌, ◌-◌, ◌≤◌, ◌<◌, ◌≡◌, ◌≢◌, refl, ap, ◌∙◌, Option, none, some, List, [], ◌∷◌,
  ◌==◌, if◌then◌else◌, get_elem?, set, length, arith, inl, inr, Bool-cases,
}

abbrev up_or : Option ℕ → ℕ → ℕ
up_or none d = d
up_or (some y) d = y

-- `parent[x]`; a node that is not there is its own parent.
unfoldable pub at : List ℕ → ℕ → ℕ
at p x = up_or (get_elem? p x) x

get_elem?-lt : (p : List ℕ) (x : ℕ) → x < length p → (y : ℕ) × (get_elem? p x ≡ some y)
get_elem?-lt [] x h = absurd (omega arith)
get_elem?-lt (y ∷ p) zero h = (y, refl)
get_elem?-lt (y ∷ p) (suc x) h = get_elem?-lt p x (omega arith)

pub get_elem?-at : (p : List ℕ) (x : ℕ) → x < length p → get_elem? p x ≡ some (at p x)
unfolding at
get_elem?-at p x h = let (y, e) = get_elem?-lt p x h in rw e

get_elem?-set :
    (p : List ℕ) (x v y : ℕ)
    → x < length p
    → get_elem? (set p x v) y ≡ (if x == y then some v else get_elem? p y)
get_elem?-set [] x v y h = absurd (omega arith)
get_elem?-set (z ∷ p) zero v zero h = refl
get_elem?-set (z ∷ p) zero v (suc y) h = ground arith
get_elem?-set (z ∷ p) (suc x) v zero h = ground arith
get_elem?-set (z ∷ p) (suc x) v (suc y) h = ground (arith, get_elem?-set p x v y)

pub at-set :
    (p : List ℕ) (x v y : ℕ) → x < length p → at (set p x v) y ≡ (if x == y then v else at p y)
unfolding at
at-set p x v y h = ground (arith, get_elem?-set p x v y)

pub length-set : (p : List ℕ) (x v : ℕ) → length (set p x v) ≡ length p
length-set [] x v = refl
length-set (z ∷ p) zero v = refl
length-set (z ∷ p) (suc x) v = ap suc (length-set p x v)

-- `k` steps upwards.
unfoldable pub climb : List ℕ → ℕ → ℕ → ℕ
climb p zero x = x
climb p (suc k) x = climb p k (at p x)

abbrev pub IsRoot : List ℕ → ℕ → Type 0
IsRoot p r = at p r ≡ r

-- Every node has its root within `k` steps.
abbrev pub IsForest : List ℕ → ℕ → Type 0
IsForest p k = (x : ℕ) → IsRoot p (climb p k x)

pub climb_root : (p : List ℕ) (k r : ℕ) → IsRoot p r → climb p k r ≡ r
unfolding climb
climb_root p zero r h = refl
climb_root p (suc k) r h = rw h (climb_root p k r h)

climb_add : (p : List ℕ) (k m x : ℕ) → climb p (k + m) x ≡ climb p m (climb p k x)
unfolding climb
climb_add p zero m x = ap (λ n. climb p n x) {x = 0 + m} {y = m} (omega arith)
climb_add p (suc k) m x =
    ap (λ n. climb p n x) {x = suc k + m} {y = suc (k + m)} (omega arith) ∙ climb_add p k m (at p x)

-- Past the root nothing moves.
pub climb_stable :
    (p : List ℕ) (k m x : ℕ) → IsRoot p (climb p k x) → k ≤ m → climb p m x ≡ climb p k x
climb_stable p k m x h le =
    ap (λ n. climb p n x) {x = m} {y = k + (m - k)} (omega arith)
    ∙ climb_add p k (m - k) x
    ∙ climb_root p (m - k) (climb p k x) h

pub IsForest-le : (p : List ℕ) (k m : ℕ) → IsForest p k → k ≤ m → IsForest p m
IsForest-le p k m h le x = rw (climb_stable p k m x (h x) le) (h x)

-- A node is replaced by its grandparent.
abbrev pub halve : List ℕ → ℕ → List ℕ
halve p x = set p x (at p (at p x))

at-halve :
    (p : List ℕ) (x y : ℕ)
    → x < length p
    → at (halve p x) y ≡ (if x == y then at p (at p y) else at p y)
at-halve p x y h = rw (at-set p x (at p (at p x)) y h) (ground arith)

-- Each step in the halved array is one or two in the old one.
pub climb-halve :
    (p : List ℕ) (x : ℕ)
    → x < length p
    → (k y : ℕ) → (m : ℕ) × (k ≤ m) × (climb (halve p x) k y ≡ climb p m y)
unfolding climb
climb-halve p x h zero y = (0, omega arith, refl)
climb-halve p x h (suc k) y = elim (Bool-cases (x == y)) [
  | inr other ↦
      let (m, le, e) = climb-halve p x h k (at p y) in
      (suc m, omega arith, rw (at-halve p x y h, other) e)
  | inl same ↦
      let (m, le, e) = climb-halve p x h k (at p (at p y)) in
      (suc (suc m), omega arith, rw (at-halve p x y h, same) e)
]

-- A parent array of trees whose roots are at most `k` steps away, and whose parents are in range.
pub record IsFit (p : List ℕ) (k : ℕ) : Type 0 where
  pub forest : IsForest p k
  pub closed : (x : ℕ) → x < length p → at p x < length p

pub IsFit-le : (p : List ℕ) (k m : ℕ) → IsFit p k → k ≤ m → IsFit p m
IsFit-le p k m f le = record { forest = IsForest-le p k m f.forest le; closed = f.closed }

pub climb_in_range : (p : List ℕ) (j k x : ℕ) → IsFit p k → x < length p → climb p j x < length p
unfolding climb
climb_in_range p zero k x f h = h
climb_in_range p (suc j) k x f h = climb_in_range p j k (at p x) f (f.closed x h)

module _ (p : List ℕ) (x : ℕ) (h : x < length p) where
  -- Halving keeps the roots.
  pub halve-IsRoot : (r : ℕ) → IsRoot p r → IsRoot (halve p x) r
  halve-IsRoot r root = rw (at-halve p x r h, root, root) (ground arith)

  pub climb-halve_same : (k : ℕ) → IsForest p k → (y : ℕ) → climb (halve p x) k y ≡ climb p k y
  climb-halve_same k f y =
      let (m, le, e) = climb-halve p x h k y in e ∙ climb_stable p k m y (f y) le

  pub halve-IsFit : (k : ℕ) → IsFit p k → IsFit (halve p x) k
  halve-IsFit k f = record {
    forest = λ y. rw (climb-halve_same k f.forest y) (halve-IsRoot (climb p k y) (f.forest y));
    closed = λ y hy.
        let size = length-set p x (at p (at p x)) in
        let hy' : y < length p = omega (arith, size, hy) in
        let up = f.closed y hy' in
        let above = f.closed (at p y) up in rw (at-halve p x y h, size) (ground arith);
  }

-- A root is hung below another one.
module _ (p : List ℕ) (a b : ℕ) (ha : a < length p) (hb : b < length p) where
  pub climb-set :
      (k y : ℕ)
      → IsRoot p a
      → IsRoot p b
      → a ≢ b
      → IsRoot p (climb p k y)
      → climb (set p a b) (suc k) y ≡ (if a == climb p k y then b else climb p k y)
  unfolding climb
  climb-set zero y ra rb ne r = rw (at-set p a b y ha) (ground arith)
  climb-set (suc k) y ra rb ne r =
      let root_b : IsRoot (set p a b) b = rw (at-set p a b b ha) (ground arith) in
      elim (Bool-cases (a == y)) [
        | inl here ↦
            let e : a ≡ y = ground arith in
            let up : climb p k (at p y) ≡ a = rw (← e, ra) (climb_root p k a ra) in
            rw (at-set p a b y ha, here, root_b, climb_root (set p a b) k b root_b)
              (ground (arith, up))
        | inr other ↦ rw (at-set p a b y ha, other) (climb-set k (at p y) ra rb ne r)
      ]

  pub set-IsFit : (k : ℕ) → IsFit p k → IsRoot p a → IsRoot p b → a ≢ b → IsFit (set p a b) (suc k)
  set-IsFit k f ra rb ne = record {
    forest = λ y. rw (climb-set k y ra rb ne (f.forest y)) (
        let root_y = f.forest y in
        rw (at-set p a b (if a == climb p k y then b else climb p k y) ha) (ground arith));
    closed = λ y hy.
        let size = length-set p a b in
        let hy' : y < length p = omega (arith, size, hy) in
        let up = f.closed y hy' in rw (at-set p a b y ha, size) (ground arith);
  }
