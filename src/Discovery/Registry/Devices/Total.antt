-- ===== src/Discovery/Registry/Devices/Total.antt =====
-- The list of devices is made without a panic.
use horizon_cast.Base.{
  ℕ, suc, ◌+◌, ◌≡◌, refl, sym, subst, ap, ◌∙◌, Bool, some, List, [], ◌∷◌, ◌++◌, map, ◌==◌, ◌>>=◌,
  length, arith, Bool-cases, Option-cases, inl, inr, All, All-append,
}
use horizon_cast.Base.Text.{Text}
use horizon_cast.Discovery.Registry.{IpAddr, same_addr, Entry, Entries, DeviceRegistry, entry_at}
use horizon_cast.Discovery.Registry.Observe.{same_addr_iff}
use horizon_cast.Discovery.Registry.UnionFind.{find, count_ids, links}
use horizon_cast.Discovery.Registry.Devices.{
  Device, device_of, addr_before, insert_by, sort_by, sort_addrs, preferred, primary_of, entries_of,
  merge_group, DeviceGroups, push_group, group_all, groups_of, merge_groups, devices, device_before,
}
use horizon_cast.Discovery.Registry.Devices.Groups.{groups_of-members}

-- The registry has an entry for the address.
abbrev pub IsKnown : Entries → IpAddr → Type 0
IsKnown es a = (e : Entry) × (entry_at a es ≡ some e)

module _ {ℓ κ} {A : Type ℓ} (P : A → Type κ) (later : A → A → Bool) where
  insert_by-All : (x : A) (xs : List A) → P x → All P xs → All P (insert_by later x xs)
  unfolding insert_by
  insert_by-All x [] h hs = (h, tt)
  insert_by-All x (y ∷ ys) h hs = elim (Bool-cases (later x y)) [
    | inl behind ↦ rw behind (hs.0, insert_by-All x ys h hs.1)
    | inr here ↦ rw here (h, hs)
  ]

  sort_by-All : (xs : List A) → All P xs → All P (sort_by later xs)
  unfolding sort_by
  sort_by-All [] hs = tt
  sort_by-All (x ∷ xs) hs = insert_by-All x (sort_by later xs) hs.0 (sort_by-All xs hs.1)

entries_of_total :
    (es : Entries) (addrs : List IpAddr)
    → All (IsKnown es) addrs
    → (found : List Entry) × (entries_of es addrs ≡ some found) × (length addrs ≡ length found)
unfolding entries_of
entries_of_total es [] h = ([], refl, refl)
entries_of_total es (a ∷ bs) ((e, there), h) =
    let (found, went, size) = entries_of_total es bs h in
    (e ∷ found, rw (there, ◌>>=◌, went) refl, ap suc size)

primary_of-IsKnown :
    (es : Entries) (best : IpAddr) (addrs : List IpAddr)
    → IsKnown es best
    → All (IsKnown es) addrs
    → IsKnown es (primary_of best addrs)
unfolding primary_of
primary_of-IsKnown es best [] h hs = h
primary_of-IsKnown es best (a ∷ bs) h hs = elim (Bool-cases (preferred a best)) [
  | inl better ↦ rw better (primary_of-IsKnown es a bs hs.0 hs.1)
  | inr worse ↦ rw worse (primary_of-IsKnown es best bs h hs.1)
]

-- A group that is not empty and whose addresses are known.
abbrev pub IsGroup : Entries → ℕ × List IpAddr → Type 0
IsGroup es (r, []) = ⊥
IsGroup es (r, a ∷ bs) = IsKnown es a × All (IsKnown es) bs

pub merge_group_total :
    (show : IpAddr → Text) (es : Entries) (r : ℕ) (g : List IpAddr)
    → IsGroup es (r, g)
    → (d : Device) × (merge_group show es g ≡ some d)
unfolding merge_group
merge_group_total show es r [] h = absurd h
merge_group_total show es r (a ∷ bs) h =
    let (main, there) = primary_of-IsKnown es a bs h.0 h.1 in
    let (sorted, went, _) =
      entries_of_total es (sort_addrs (a ∷ bs))
        (sort_by-All (IsKnown es) (λ a b. addr_before b a) (a ∷ bs) h) in
    (device_of show (primary_of a bs) main sorted, rw (there, ◌>>=◌, went) refl)

merge_groups_total :
    (show : IpAddr → Text) (es : Entries) (gs : DeviceGroups)
    → All (IsGroup es) gs
    → (ds : List Device) × (merge_groups show es gs ≡ some ds)
unfolding merge_groups
merge_groups_total show es [] h = ([], refl)
merge_groups_total show es ((r, g) ∷ gs) h =
    let (d, went) = merge_group_total show es r g h.0 in
    let (ds, went') = merge_groups_total show es gs h.1 in (d ∷ ds, rw (went, ◌>>=◌, went') refl)

grown-IsGroup :
    (es : Entries) (r : ℕ) (g : List IpAddr) (a : IpAddr)
    → IsGroup es (r, g)
    → IsKnown es a
    → IsGroup es (r, g ++ a ∷ [])
grown-IsGroup es r [] a h k = absurd h
grown-IsGroup es r (b ∷ bs) a h k = (h.0, All-append (IsKnown es) bs (a ∷ []) h.1 (k, tt))

push_group-IsGroup :
    (es : Entries) (root : ℕ) (a : IpAddr) (gs : DeviceGroups)
    → IsKnown es a
    → All (IsGroup es) gs
    → All (IsGroup es) (push_group root a gs)
unfolding push_group
push_group-IsGroup es root a [] k h = ((k, tt), tt)
push_group-IsGroup es root a ((r, g) ∷ gs) k h = elim (Bool-cases (r == root)) [
  | inl here ↦ rw here (grown-IsGroup es r g a h.0 k, h.1)
  | inr other ↦ rw other (h.0, push_group-IsGroup es root a gs k h.1)
]

group_all-IsGroup :
    (es : Entries) (fuel : ℕ) (p : List ℕ) (i : ℕ) (addrs : List IpAddr) (gs gs' : DeviceGroups)
    → All (IsKnown es) addrs
    → All (IsGroup es) gs
    → group_all fuel p i addrs gs ≡ some gs'
    → All (IsGroup es) gs'
unfolding group_all
group_all-IsGroup es fuel p i [] gs gs' k h went = subst (All (IsGroup es)) (cc) h
group_all-IsGroup es fuel p i (a ∷ bs) gs gs' k h went = elim (Option-cases (find fuel p i)) [
  | inl bad ↦ absurd (ground (arith, bad))
  | inr ((q, root), found) ↦
      let went' : group_all fuel q (i + 1) bs (push_group root a gs) ≡ some gs' =
        rw (found, ◌>>=◌) at went in
      group_all-IsGroup es fuel q (i + 1) bs (push_group root a gs) gs' k.1
        (push_group-IsGroup es root a gs k.0 h) went'
]

groups_of-IsGroup :
    (es : Entries) (addrs : List IpAddr) (identities : List (List Text)) (gs : DeviceGroups)
    → All (IsKnown es) addrs
    → groups_of addrs identities ≡ some gs
    → All (IsGroup es) gs
groups_of-IsGroup es addrs identities gs k h = elim (Option-cases (links identities)) [
  | inl bad ↦ absurd (unfold groups_of in ground (arith, bad))
  | inr (st, went) ↦
      let grouped : group_all (suc (count_ids identities)) st.parent 0 addrs [] ≡ some gs =
        unfold groups_of in rw (went, ◌>>=◌) at h in
      group_all-IsGroup es (suc (count_ids identities)) st.parent 0 addrs [] gs k tt grouped
]

IsKnown-cons :
    (k : IpAddr) (e : Entry) (es : Entries) (a : IpAddr) → IsKnown es a → IsKnown ((k, e) ∷ es) a
IsKnown-cons k e es a (e', there) =
    unfold entry_at in
    elim (Bool-cases (same_addr k a)) [
      | inl here ↦ (e, rw here refl)
      | inr other ↦ (e', rw other there)
    ]

All-IsKnown-cons :
    (k : IpAddr) (e : Entry) (es : Entries) (addrs : List IpAddr)
    → All (IsKnown es) addrs
    → All (IsKnown ((k, e) ∷ es)) addrs
All-IsKnown-cons k e es [] h = tt
All-IsKnown-cons k e es (a ∷ bs) h = (IsKnown-cons k e es a h.0, All-IsKnown-cons k e es bs h.1)

-- Every key of the list has an entry.
keys-IsKnown : (es : Entries) → All (IsKnown es) (map (λ e. e.0) es)
keys-IsKnown [] = tt
keys-IsKnown ((k, e) ∷ es) = (
  (e, unfold entry_at in rw ((same_addr_iff k k).1 refl) refl),
  All-IsKnown-cons k e es (map (λ e. e.0) es) (keys-IsKnown es),
)

length-map_identities : (es : List Entry) → length (map (λ e. e.identities) es) ≡ length es
length-map_identities [] = refl
length-map_identities (e ∷ es) = ap suc (length-map_identities es)

-- Whatever the registry holds, its list of devices is made without a panic: every address has an
-- entry, the search for roots ends, and no group is empty.
pub devices_total :
    (show : IpAddr → Text) (r : DeviceRegistry) → (ds : List Device) × (devices show r ≡ some ds)
unfolding devices
devices_total show r =
    let addrs = sort_addrs (map (λ e. e.0) r.entries) in
    let known =
      sort_by-All (IsKnown r.entries) (λ a b. addr_before b a) (map (λ e. e.0) r.entries)
        (keys-IsKnown r.entries) in
    let (es, went, size) = entries_of_total r.entries addrs known in
    let identities = map (λ e. e.identities) es in
    let (gs, grouped, _, _, _) =
      groups_of-members addrs identities (size ∙ sym (length-map_identities es)) in
    let (ds, merged) =
      merge_groups_total show r.entries gs
        (groups_of-IsGroup r.entries addrs identities gs known grouped) in
    (sort_by (λ a b. device_before b a) ds, rw (went, ◌>>=◌, grouped, merged) refl)
