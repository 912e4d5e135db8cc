-- ===== src/Discovery/Registry/UnionFind/Find.antt =====
-- `find` returns the root, with fuel above the depth, and keeps every node's root.
use horizon_cast.Base.{
  ℕ, zero, suc, ◌-◌, ◌<◌, ◌≡◌, ◌≢◌, refl, subst, ap, ◌∙◌, true, false, Option, some, List, ◌==◌,
  if◌then◌else◌, ◌>>=◌, set, length, arith, inl, inr, Bool-cases,
}
use horizon_cast.Discovery.Registry.UnionFind.{find, union}
use horizon_cast.Discovery.Registry.UnionFind.Forest.{
  at, get_elem?-at, length-set, climb, climb_root, IsRoot, IsForest, climb_stable, halve,
  climb-halve, IsFit, IsFit-le, climb_in_range, halve-IsRoot, climb-halve_same, halve-IsFit,
  climb-set, set-IsFit,
}

-- The search from `x` returns its root; the array that it leaves has the same roots.
pub record Found (p : List ℕ) (k x : ℕ) (result : Option (List ℕ × ℕ)) : Type 0 where
  pub after : List ℕ
  pub returns : result ≡ some (after, climb p k x)
  pub size : length after ≡ length p
  pub fit : IsFit after k
  pub roots : (y : ℕ) → climb after k y ≡ climb p k y

module _ (fuel : ℕ) (p : List ℕ) (x : ℕ) (h : x < length p) where
  find_root : (at p x == x) ≡ true → find (suc fuel) p x ≡ some (p, x)
  unfolding find
  find_root here = rw (get_elem?-at p x h, ◌>>=◌, here) refl

  find_step :
      (at p x == x) ≡ false
      → at p x < length p
      → find (suc fuel) p x ≡ find fuel (halve p x) (at p (at p x))
  unfolding find
  find_step further up = rw (get_elem?-at p x h, ◌>>=◌, further, get_elem?-at p (at p x) up) refl

-- One round brings the root nearer.
nearer :
    (j : ℕ) (p : List ℕ) (x : ℕ)
    → x < length p
    → IsRoot p (climb p j x)
    → (at p x == x) ≡ false
    → IsRoot (halve p x) (climb (halve p x) (j - 1) (at p (at p x))) × (0 < j)
unfolding climb
nearer zero p x h root further = absurd (ground arith)
nearer (suc j) p x h root further =
    let (m, le, e) = climb-halve p x h j (at p (at p x)) in
    let same = climb_stable p j (suc m) (at p x) root (omega arith) in
    let n : suc j - 1 ≡ j = omega arith in
    (rw (n, e, same) (halve-IsRoot p x h (climb p j (at p x)) root), omega arith)

two_up : (p : List ℕ) (k x : ℕ) → IsForest p k → climb p k (at p (at p x)) ≡ climb p k x
unfolding climb
two_up p k x f = climb_stable p k (suc (suc k)) x (f x) (omega arith)

pub find-Found :
    (fuel j k : ℕ) (p : List ℕ) (x : ℕ)
    → IsFit p k
    → x < length p
    → IsRoot p (climb p j x)
    → j < fuel
    → Found p k x (find fuel p x)
find-Found zero j k p x f h root enough = absurd (omega arith)
find-Found (suc fuel) j k p x f h root enough = elim (Bool-cases (at p x == x)) [
  | inl here ↦
      let e : at p x ≡ x = ground arith in
      record {
        after = p;
        returns = rw (find_root fuel p x h here, climb_root p k x e) refl;
        size = refl;
        fit = f;
        roots = λ y. refl;
      }
  | inr further ↦
      let up = f.closed x h in
      let (root', positive) = nearer j p x h root further in
      let size = length-set p x (at p (at p x)) in
      let roots = climb-halve_same p x h k f.forest in
      let found =
        find-Found fuel (j - 1) k (halve p x) (at p (at p x)) (halve-IsFit p x h k f)
          (omega (arith, size, f.closed (at p x) up)) root' (omega arith) in
      record {
        after = found.after;
        returns =
            find_step fuel p x h further up
            ∙ found.returns
            ∙ ap (λ r. some (found.after, r)) (roots (at p (at p x)) ∙ two_up p k x f.forest);
        size = found.size ∙ size;
        fit = found.fit;
        roots = λ y. found.roots y ∙ roots y;
      }
]

-- The union of the trees of `i` and `j` gives every node of the tree of `i` the root of `j`, and
-- makes no tree deeper by more than one.
pub record Joined (p : List ℕ) (k i j : ℕ) (result : Option (List ℕ)) : Type 0 where
  pub after : List ℕ
  pub returns : result ≡ some after
  pub size : length after ≡ length p
  pub fit : IsFit after (suc k)
  pub roots :
      (y : ℕ)
      → climb after (suc k) y ≡ (if climb p k i == climb p k y then climb p k j else climb p k y)

union_lem :
    (fuel : ℕ) (p q r : List ℕ) (i j a b : ℕ)
    → find fuel p i ≡ some (q, a)
    → find fuel q j ≡ some (r, b)
    → union fuel p i j ≡ some (if a == b then r else set r a b)
unfolding union
union_lem fuel p q r i j a b first second = rw (first, ◌>>=◌, second) refl

pub union-Joined :
    (fuel k : ℕ) (p : List ℕ) (i j : ℕ)
    → IsFit p k
    → i < length p
    → j < length p
    → k < fuel
    → Joined p k i j (union fuel p i j)
union-Joined fuel k p i j f hi hj enough =
    let first = find-Found fuel k k p i f hi (f.forest i) enough in
    let q = first.after in
    let second =
      find-Found fuel k k q j first.fit (omega (arith, first.size)) (first.fit.forest j) enough in
    let r = second.after in
    let roots : (y : ℕ) → climb r k y ≡ climb p k y = λ y. second.roots y ∙ first.roots y in
    let a = climb p k i in
    let b = climb p k j in
    let root_a : IsRoot r a = subst (IsRoot r) (roots i) (second.fit.forest i) in
    let root_b : IsRoot r b = subst (IsRoot r) (roots j) (second.fit.forest j) in
    let in_q = climb_in_range p k k i f hi in
    let in_r = climb_in_range p k k j f hj in
    let returns : union fuel p i j ≡ some (if a == b then r else set r a b) =
      union_lem fuel p q r i j a b first.returns
        (second.returns ∙ ap (λ b. some (r, b)) (first.roots j)) in
    elim (Bool-cases (a == b)) [
      | inl one ↦ record {
        after = r;
        returns = returns ∙ rw one refl;
        size = second.size ∙ first.size;
        fit = IsFit-le r k (suc k) second.fit (omega arith);
        roots = λ y.
            let e = climb_stable r k (suc k) y (second.fit.forest y) (omega arith) ∙ roots y in
            e ∙ ground arith;
      }
      | inr two ↦
          let size = second.size ∙ first.size in
          let ha : a < length r = omega (arith, size) in
          let hb : b < length r = omega (arith, size) in
          let ne : a ≢ b = λ e. ground arith in
          record {
            after = set r a b;
            returns = returns ∙ rw two refl;
            size = length-set r a b ∙ size;
            fit = set-IsFit r a b ha hb k second.fit root_a root_b ne;
            roots = λ y.
                climb-set r a b ha hb k y root_a root_b ne (second.fit.forest y)
                ∙ rw (roots y) refl;
          }
    ]
