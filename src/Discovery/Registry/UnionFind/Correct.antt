-- ===== src/Discovery/Registry/UnionFind/Correct.antt =====
-- The whole loop: it never fails, and the roots tell which addresses a chain of identities links.
use mathlib.Core.List.Memᴰ
use horizon_cast.Base.{
  ltb, ℕ, zero, suc, ◌+◌, ◌<◌, ◌≡◌, ◌↔◌, refl, sym, subst, ap, none, some, List, [], ◌∷◌, ◌++◌,
  if◌then◌else◌, ◌>>=◌, get_elem?, length, map, arith, append_assoc, append-nil,
}
use horizon_cast.Base.Text.{Text}
use horizon_cast.Discovery.Registry.UnionFind.{
  owner_of, Links, link_ids, link_all, range_from, count_ids, links,
}
use horizon_cast.Discovery.Registry.UnionFind.Forest.{IsFit, at, climb}
use horizon_cast.Discovery.Registry.UnionFind.Classes.{
  Sightings, Linked, self, IsLinked, IsLinked-iff,
}
use horizon_cast.Discovery.Registry.UnionFind.Joining.{link_id-IsLinked}

-- The sightings of one address, and of all from the index `i` on.
abbrev pub sightings_of : ℕ → List Text → Sightings
sightings_of i ids = map (λ id. (i, id)) ids

abbrev pub sightings : ℕ → List (List Text) → Sightings
sightings i [] = []
sightings i (ids ∷ rest) = sightings_of i ids ++ sightings (i + 1) rest

recast :
    {n : ℕ} {es fs : Sightings} {k m : ℕ} {st : Links}
    → es ≡ fs
    → k ≡ m
    → IsLinked n es k st
    → IsLinked n fs m st
recast {n} {es} {fs} {k} {m} {st} e e' v =
    subst (λ es. IsLinked n es m st) e (subst (λ k. IsLinked n es k st) e' v)

link_ids-IsLinked :
    (n : ℕ) (ids : List Text) (fuel i : ℕ) (es : Sightings) (k : ℕ) (st : Links)
    → IsLinked n es k st
    → i < n
    → k + length ids < fuel
    → (st' : Links) × (link_ids fuel i ids st ≡ some st')
      × IsLinked n (es ++ sightings_of i ids) (k + length ids) st'
unfolding link_ids
link_ids-IsLinked n [] fuel i es k st v hi enough =
    (st, refl, recast (sym (append-nil es)) (omega arith) v)
link_ids-IsLinked n (id ∷ ids) fuel i es k st v hi enough =
    let (st', went, w) = link_id-IsLinked n es k i id st v fuel hi (omega arith) in
    let (st'', went', w') =
      link_ids-IsLinked n ids fuel i (es ++ (i, id) ∷ []) (suc k) st' w hi (omega arith) in
    (
      st'',
      rw (went, ◌>>=◌) went',
      recast (append_assoc es ((i, id) ∷ []) (sightings_of i ids)) (omega arith) w',
    )

link_all-IsLinked :
    (n : ℕ) (all : List (List Text)) (fuel i : ℕ) (es : Sightings) (k : ℕ) (st : Links)
    → IsLinked n es k st
    → i + length all ≡ n
    → k + count_ids all < fuel
    → (st' : Links) × (link_all fuel i all st ≡ some st')
      × IsLinked n (es ++ sightings i all) (k + count_ids all) st'
unfolding link_all count_ids
link_all-IsLinked n [] fuel i es k st v hi enough =
    (st, refl, recast (sym (append-nil es)) (omega arith) v)
link_all-IsLinked n (ids ∷ all) fuel i es k st v hi enough =
    let (st', went, w) = link_ids-IsLinked n ids fuel i es k st v (omega arith) (omega arith) in
    let (st'', went', w') =
      link_all-IsLinked n all fuel (i + 1) (es ++ sightings_of i ids) (k + length ids) st' w
        (omega arith) (omega arith) in
    (
      st'',
      rw (went, ◌>>=◌) went',
      recast (append_assoc es (sightings_of i ids) (sightings (i + 1) all)) (omega arith) w',
    )

length-range_from : (n i : ℕ) → length (range_from n i) ≡ n
unfolding range_from
length-range_from zero i = refl
length-range_from (suc n) i = ap suc (length-range_from n (i + 1))

at-range_from :
    (n i x : ℕ) → get_elem? (range_from n i) x ≡ (if ltb x n then some (i + x) else none)
unfolding range_from
at-range_from zero i x = ground arith
at-range_from (suc n) i zero = ground arith
at-range_from (suc n) i (suc x) = ground (arith, at-range_from n (i + 1) x)

-- At first every node is a tree.
start-IsLinked : (n : ℕ) → IsLinked n [] 0 (record { parent = range_from n 0; id_owner = [] })
unfolding climb
start-IsLinked n = record {
  fit = record { forest = λ x. root x; closed = λ x h. rw (root x) h };
  size = length-range_from n 0;
  owned = λ id j h. absurd (unfold owner_of in cc);
  seen = λ x id m. absurd (Memᴰ.not-nil m);
  sound = λ x. self;
}
  where
    root : (x : ℕ) → at (range_from n 0) x ≡ x
    root x = unfold at in ground (arith, at-range_from n 0 x)

-- The root of `x` once the loop is done.
abbrev pub root_of : List (List Text) → Links → ℕ → ℕ
root_of identities st x = climb st.parent (count_ids identities) x

-- With the fuel it has, the loop that links addresses by their identities ends without a panic.
-- Its parent array has trees whose parents are in range and whose roots are no more steps away
-- than there are identities, and two addresses have one root exactly when a chain of shared
-- identities links them.
pub links_iff_Linked :
    (identities : List (List Text))
    → (st : Links) × (links identities ≡ some st)
      × (length st.parent ≡ length identities)
      × IsFit st.parent (count_ids identities)
      × ((x y : ℕ)
          → (root_of identities st x ≡ root_of identities st y)
            ↔ Linked (sightings 0 identities) x y)
links_iff_Linked identities =
    let n = length identities in
    let (st, went, v) =
      link_all-IsLinked n identities (suc (count_ids identities)) 0 [] 0 _ (start-IsLinked n)
        (omega arith) (omega arith) in
    let v' : IsLinked n (sightings 0 identities) (count_ids identities) st =
      recast refl (omega arith) v in
    (
      st,
      unfold links in went,
      v'.size,
      v'.fit,
      λ x y. IsLinked-iff n (sightings 0 identities) (count_ids identities) st x y v',
    )
