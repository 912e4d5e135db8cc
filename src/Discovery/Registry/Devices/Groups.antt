-- ===== src/Discovery/Registry/Devices/Groups.antt =====
-- The groups are the classes of addresses that share a root.
use horizon_cast.Base.{
  ℕ, suc, ◌+◌, ◌≤◌, ◌<◌, ◌≡◌, ◌↔◌, refl, sym, ◌∙◌, Bool, true, false, some, List, [], ◌∷◌, ◌++◌,
  ◌==◌, if◌then◌else◌, ◌>>=◌, length, arith, Bool-cases, inl, inr, append_assoc, append-nil,
}
use horizon_cast.Base.Text.{Text}
use horizon_cast.Discovery.Registry.{IpAddr}
use horizon_cast.Discovery.Registry.UnionFind.{count_ids}
use horizon_cast.Discovery.Registry.UnionFind.Forest.{climb, IsFit}
use horizon_cast.Discovery.Registry.UnionFind.Find.{find-Found}
use horizon_cast.Discovery.Registry.UnionFind.Classes.{Linked}
use horizon_cast.Discovery.Registry.UnionFind.Correct.{sightings, root_of, links_iff_Linked}
use horizon_cast.Discovery.Registry.Devices.{DeviceGroups, push_group, group_all, groups_of}

-- The group of a root.
abbrev pub group_at : ℕ → DeviceGroups → List IpAddr
group_at r [] = []
group_at r ((s, g) ∷ gs) = let rest = group_at r gs in if s == r then g else rest

-- The addresses whose root is `r`, in order, where the first has the index `i`.
abbrev pub members : (ℕ → ℕ) → ℕ → ℕ → List IpAddr → List IpAddr
members root r i [] = []
members root r i (a ∷ bs) =
    let rest = members root r (i + 1) bs in if root i == r then a ∷ rest else rest

group_at-push_group :
    (r s : ℕ) (a : IpAddr) (gs : DeviceGroups)
    → group_at r (push_group s a gs) ≡ group_at r gs ++ (if s == r then a ∷ [] else [])
unfolding push_group
group_at-push_group r s a [] = refl
group_at-push_group r s a ((t, g) ∷ gs) = elim (Bool-cases (t == s)) [
  | inl here ↦ elim (Bool-cases (t == r)) [
    | inl mine ↦ let both : (s == r) ≡ true = ground arith in rw (here, mine, both) refl
    | inr apart ↦
        let both : (s == r) ≡ false = ground arith in
        rw (here, apart, both) (sym (append-nil (group_at r gs)))
  ]
  | inr other ↦
      rw (other, group_at-push_group r s a gs)
        (elim (Bool-cases (t == r)) [
          | inl mine ↦
              let apart : (s == r) ≡ false = ground arith in rw (mine, apart) (sym (append-nil g))
          | inr apart ↦ rw apart refl
        ])
]

place :
    (b : Bool) (a : IpAddr) (g rest : List IpAddr)
    → (g ++ (if b then a ∷ [] else [])) ++ rest ≡ g ++ (if b then a ∷ rest else rest)
place true a g rest = append_assoc g (a ∷ []) rest
place false a g rest = append_assoc g [] rest

group_all-members :
    (root : ℕ → ℕ) (fuel k : ℕ) (p : List ℕ) (i : ℕ) (addrs : List IpAddr) (gs : DeviceGroups)
    → IsFit p k
    → ((y : ℕ) → climb p k y ≡ root y)
    → i + length addrs ≤ length p
    → k < fuel
    → (gs' : DeviceGroups) × (group_all fuel p i addrs gs ≡ some gs')
      × ((r : ℕ) → group_at r gs' ≡ group_at r gs ++ members root r i addrs)
unfolding group_all
group_all-members root fuel k p i [] gs f roots inside enough =
    (gs, refl, λ r. sym (append-nil (group_at r gs)))
group_all-members root fuel k p i (a ∷ bs) gs f roots inside enough =
    let found = find-Found fuel k k p i f (omega arith) (f.forest i) enough in
    let (gs', went, same) =
      group_all-members root fuel k found.after (i + 1) bs (push_group (root i) a gs) found.fit
        (λ y. found.roots y ∙ roots y) (omega (arith, found.size)) enough in
    (
      gs',
      rw (found.returns, ◌>>=◌, roots i) went,
      λ r.
          same r
          ∙ rw (group_at-push_group r (root i) a gs)
              (place (root i == r) a (group_at r gs) (members root r (i + 1) bs)),
    )

-- The addresses are grouped without a panic: under some naming of the classes, by which two
-- addresses have one name exactly when a chain of shared identities links them, the group of a name
-- holds the addresses of that name in their order, and none else.
pub groups_of-members :
    (addrs : List IpAddr) (identities : List (List Text))
    → length addrs ≡ length identities
    → (gs : DeviceGroups) × (groups_of addrs identities ≡ some gs)
      × (root : ℕ → ℕ) × ((r : ℕ) → group_at r gs ≡ members root r 0 addrs)
      × ((x y : ℕ) → (root x ≡ root y) ↔ Linked (sightings 0 identities) x y)
unfolding groups_of
groups_of-members addrs identities size =
    let (st, went, n, fit, classes) = links_iff_Linked identities in
    let root = root_of identities st in
    let (gs, grouped, same) =
      group_all-members root (suc (count_ids identities)) (count_ids identities) st.parent 0 addrs
        [] fit (λ y. refl) (omega arith) (omega arith) in
    (gs, rw (went, ◌>>=◌) grouped, root, same, classes)
