-- ===== src/Discovery/Registry/UnionFind/Classes.antt =====
-- What the trees mean: two addresses have one root exactly when a chain of shared identities links
-- them.
use mathlib.Core.List.{Memᴰ}
use mathlib.Core.List.Memᴰ
use horizon_cast.Base.{
  ℕ, suc, ◌<◌, ◌≡◌, ◌↔◌, refl, sym, subst, ap, ◌∙◌, some, List, ◌++◌, length, arith,
}
use horizon_cast.Base.Text.{Text}
use horizon_cast.Discovery.Registry.UnionFind.{owner_of, Links}
use horizon_cast.Discovery.Registry.UnionFind.Forest.{climb, IsFit, IsFit-le, climb_stable}

-- The sightings: each address's index with each of its identities.
abbrev pub Sightings : Type 0
Sightings = List (ℕ × Text)

-- A chain of shared identities.
pub data Linked (es : Sightings) : ℕ → ℕ → Type 0 where
  self : {x : ℕ} → Linked es x x
  share : {x y : ℕ} (id : Text) → Memᴰ (x, id) es → Memᴰ (y, id) es → Linked es x y
  flip : {x y : ℕ} → Linked es x y → Linked es y x
  chain : {x y z : ℕ} → Linked es x y → Linked es y z → Linked es x z

-- More sightings keep what is linked.
pub Linked-append :
    {es : Sightings} (fs : Sightings) {x y : ℕ} → Linked es x y → Linked (es ++ fs) x y
Linked-append fs self = self
Linked-append fs (share id p q) = share id (Memᴰ.append_left fs p) (Memᴰ.append_left fs q)
Linked-append fs (flip h) = flip (Linked-append fs h)
Linked-append fs (chain h g) = chain (Linked-append fs h) (Linked-append fs g)

-- What the loop has made of the sightings so far.
pub record IsLinked (n : ℕ) (es : Sightings) (k : ℕ) (st : Links) : Type 0 where
  pub fit : IsFit st.parent k
  pub size : length st.parent ≡ n
  pub owned : (id : Text) (j : ℕ) → owner_of id st.id_owner ≡ some j → (j < n) × Memᴰ (j, id) es
  pub seen :
      (x : ℕ) (id : Text)
      → Memᴰ (x, id) es
      → (j : ℕ) × (owner_of id st.id_owner ≡ some j) × (climb st.parent k x ≡ climb st.parent k j)
  pub sound : (x : ℕ) → Linked es x (climb st.parent k x)

pub IsLinked-iff :
    (n : ℕ) (es : Sightings) (k : ℕ) (st : Links) (x y : ℕ)
    → IsLinked n es k st
    → (climb st.parent k x ≡ climb st.parent k y) ↔ Linked es x y
IsLinked-iff n es k st x y v =
    (λ e. chain (v.sound x) (subst (λ r. Linked es r y) (sym e) (flip (v.sound y))), complete)
  where
    complete : {x y : ℕ} → Linked es x y → climb st.parent k x ≡ climb st.parent k y
    complete self = refl
    complete (share {x} {y} id p q) =
        let (i, own, up) = v.seen x id p in
        let (j, own', up') = v.seen y id q in
        let e : i ≡ j = ground arith in up ∙ ap (climb st.parent k) e ∙ sym up'
    complete (flip h) = sym (complete h)
    complete (chain h g) = complete h ∙ complete g

-- Trees that are `k` deep are `k + 1` deep.
pub IsLinked-suc :
    (n : ℕ) (es : Sightings) (k : ℕ) (st : Links) → IsLinked n es k st → IsLinked n es (suc k) st
IsLinked-suc n es k st v = record {
  fit = IsFit-le st.parent k (suc k) v.fit (omega arith);
  size = v.size;
  owned = v.owned;
  seen =
      λ x id m. let (j, own, up) = v.seen x id m in (j, own, same_root x ∙ up ∙ sym (same_root j));
  sound = λ x. rw (same_root x) (v.sound x);
}
  where
    same_root : (x : ℕ) → climb st.parent (suc k) x ≡ climb st.parent k x
    same_root x = climb_stable st.parent k (suc k) x (v.fit.forest x) (omega arith)
