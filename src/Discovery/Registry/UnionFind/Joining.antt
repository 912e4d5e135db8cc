-- ===== src/Discovery/Registry/UnionFind/Joining.antt =====
-- One sighting: the owner of its identity is recorded, or the trees are joined.
use mathlib.Core.List.{Memᴰ}
use mathlib.Core.List.Memᴰ
use horizon_cast.Base.{
  ℕ, suc, ◌<◌, ◌≡◌, refl, sym, subst, ap, ap₂, ◌∙◌, none, some, [], ◌∷◌, ◌++◌, ◌==◌, if◌then◌else◌,
  arith, inl, inr, Bool-cases, Option-cases,
}
use horizon_cast.Base.Text.{Text, same}
use horizon_cast.Base.Text.Cut.{same_iff}
use horizon_cast.Discovery.Registry.UnionFind.{owner_of, Links, union, link_id}
use horizon_cast.Discovery.Registry.UnionFind.Forest.{climb}
use horizon_cast.Discovery.Registry.UnionFind.Find.{Joined, union-Joined}
use horizon_cast.Discovery.Registry.UnionFind.Classes.{
  Sightings, Linked, share, flip, chain, Linked-append, IsLinked, IsLinked-suc,
}

meet : (a b : ℕ) → (if a == a then b else a) ≡ (if a == b then b else b)
meet a b = ground arith

last : (es : Sightings) (e : ℕ × Text) → Memᴰ e (es ++ e ∷ [])
last es e = Memᴰ.append_right es (Memᴰ.head refl)

module _ (n : ℕ) (es : Sightings) (k i : ℕ) (id : Text) (st : Links) (v : IsLinked n es k st) where
  abbrev more : Sightings
  more = es ++ (i, id) ∷ []

  -- A sighting of an identity that nobody owns.
  abbrev owning : Links
  owning = record st { id_owner = (id, i) ∷ st.id_owner }

  owner_of-owning :
      (other : Text)
      → owner_of other owning.id_owner
        ≡ (if same id other then some i else owner_of other st.id_owner)
  unfolding owner_of
  owner_of-owning other = refl

  owning-owned :
      (other : Text) (j : ℕ)
      → i < n
      → owner_of other owning.id_owner ≡ some j
      → (j < n) × Memᴰ (j, other) more
  owning-owned other j hi h = elim (Bool-cases (same id other)) [
    | inl eq ↦
        let e : id ≡ other = (same_iff id other).0 eq in
        let e' : i ≡ j = ground (arith, owner_of-owning other) in
        let pair : Path (ℕ × Text) (j, other) (i, id) = sym (ap₂ (λ a b. (a, b)) e' e) in
        (omega arith, Memᴰ.cast pair (last es (i, id)))
    | inr ne ↦
        let (inside, m) = v.owned other j (ground (arith, owner_of-owning other)) in
        (inside, Memᴰ.append_left ((i, id) ∷ []) m)
  ]

  owning-seen :
      (x : ℕ) (other : Text)
      → owner_of id st.id_owner ≡ none
      → Memᴰ (x, other) more
      → (j : ℕ) × (owner_of other owning.id_owner ≡ some j)
        × (climb st.parent k x ≡ climb st.parent k j)
  owning-seen x other nobody m = elim (Memᴰ.append_cases es m) [
    | inl old ↦
        let (j, own, up) = v.seen x other old in
        elim (Bool-cases (same id other)) [
          | inl eq ↦
              let e = (same_iff id other).0 eq in
              let clash : none ≡ some j = sym nobody ∙ ap (λ t. owner_of t st.id_owner) e ∙ own in
              absurd (cc)
          | inr ne ↦ (j, rw (owner_of-owning other, ne) own, up)
        ]
    | inr new ↦
        let e : Path (ℕ × Text) (x, other) (i, id) = Memᴰ.eq_of_singleton new in
        let eq = (same_iff id other).1 (sym (ap (λ s. s.1) e)) in
        (i, rw (owner_of-owning other, eq) refl, ap (λ s. climb st.parent k s.0) e)
  ]

  owning-IsLinked : i < n → owner_of id st.id_owner ≡ none → IsLinked n more k owning
  owning-IsLinked hi nobody = record {
    fit = v.fit;
    size = v.size;
    owned = λ other j h. owning-owned other j hi h;
    seen = λ x other m. owning-seen x other nobody m;
    sound = λ x. Linked-append ((i, id) ∷ []) (v.sound x);
  }

  -- A sighting of an identity that `j` owns.
  module _ (fuel j : ℕ) (hi : i < n) (enough : k < fuel)
      (owner : owner_of id st.id_owner ≡ some j) where
    joined : Joined st.parent k i j (union fuel st.parent i j)
    joined =
        union-Joined fuel k st.parent i j v.fit (rw v.size hi) (rw v.size (v.owned id j owner).0)
          enough

    abbrev joining : Links
    joining = record st { parent = joined.after }

    joining-seen :
        (x : ℕ) (other : Text)
        → Memᴰ (x, other) more
        → (l : ℕ) × (owner_of other st.id_owner ≡ some l)
          × (climb joined.after (suc k) x ≡ climb joined.after (suc k) l)
    joining-seen x other m = elim (Memᴰ.append_cases es m) [
      | inl old ↦
          let (l, own, up) = v.seen x other old in
          (l, own, joined.roots x ∙ rw up (sym (joined.roots l)))
      | inr new ↦
          let e : Path (ℕ × Text) (x, other) (i, id) = Memᴰ.eq_of_singleton new in
          let both : climb joined.after (suc k) i ≡ climb joined.after (suc k) j =
            joined.roots i
            ∙ meet (climb st.parent k i) (climb st.parent k j)
            ∙ sym (joined.roots j) in
          (j, rw (ap (λ s. s.1) e) owner, rw (ap (λ s. s.0) e) both)
    ]

    joining_sound : (x : ℕ) → Linked more x (climb joined.after (suc k) x)
    joining_sound x =
        rw (joined.roots x) (elim (Bool-cases (climb st.parent k i == climb st.parent k x)) [
          | inl meet ↦
              let e : climb st.parent k i ≡ climb st.parent k x = ground arith in
              let owned = Memᴰ.append_left ((i, id) ∷ []) (v.owned id j owner).1 in
              let i_to_j : Linked more i j = share id (last es (i, id)) owned in
              let i_to_x : Linked more i (climb st.parent k x) =
                subst (Linked more i) e (grown i) in
              rw meet (chain (grown x) (chain (flip i_to_x) (chain i_to_j (grown j))))
          | inr apart ↦ rw apart (grown x)
        ])
      where
        grown : (y : ℕ) → Linked more y (climb st.parent k y)
        grown y = Linked-append ((i, id) ∷ []) (v.sound y)

    joining-IsLinked : IsLinked n more (suc k) joining
    joining-IsLinked = record {
      fit = joined.fit;
      size = joined.size ∙ v.size;
      owned = λ other l h.
          let (inside, m) = v.owned other l h in (inside, Memᴰ.append_left ((i, id) ∷ []) m);
      seen = λ x other m. joining-seen x other m;
      sound = λ x. joining_sound x;
    }

    link_id-joining : link_id fuel i id st ≡ some joining
    unfolding link_id
    link_id-joining = rw (owner, joined.returns) refl

  -- One sighting.
  pub link_id-IsLinked :
      (fuel : ℕ)
      → i < n
      → k < fuel
      → (st' : Links) × (link_id fuel i id st ≡ some st') × IsLinked n more (suc k) st'
  link_id-IsLinked fuel hi enough = elim (Option-cases (owner_of id st.id_owner)) [
    | inl nobody ↦ (
      owning,
      unfold link_id in rw nobody refl,
      IsLinked-suc n more k owning (owning-IsLinked hi nobody),
    )
    | inr (j, owner) ↦ (
      joining fuel j hi enough owner,
      link_id-joining fuel j hi enough owner,
      joining-IsLinked fuel j hi enough owner,
    )
  ]
