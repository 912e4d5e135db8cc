-- ===== src/Discovery/Registry/Devices.antt =====
-- `DeviceRegistry::devices` and `merge_group`: the grouping of addresses by their root, the device
-- of a group, and the order of the list. `show` is `IpAddr::to_string`; `none` is a panic.
pub mod Groups
pub mod Total
pub mod Primary
use mathlib.Core.Option.{get_or}
use horizon_cast.Base.{
  ℕ, suc, ◌+◌, ◌/◌, ◌^◌, bit_and, Bool, true, false, not, ◌&&◌, ◌||◌, Option, none, some, List, [],
  ◌∷◌, ◌++◌, map, ltb, leb, ◌==◌, if◌then◌else◌, ◌>>=◌, ◌>>◌,
}
use horizon_cast.Base.Text.{Text, text, same, is_empty}
use horizon_cast.Discovery.Registry.{
  Protocol, IpAddr, v4, v6, same_addr, before, Entry, Entries, DeviceRegistry, entry_at,
  merge_protocol, preference_rank,
}
use horizon_cast.Discovery.Registry.UnionFind.{find, count_ids, links}

pub record Device : Type 0 where
  pub id : Text
  pub name : Text
  pub address : IpAddr
  pub port : ℕ
  pub protocols : List Protocol
  pub dlna_control_url : Option Text
  pub dlna_location : Option Text

-- `address_rank`: loopback is 127.0.0.0/8 and ::1, link-local fe80::/10.
unfoldable pub address_rank : IpAddr → ℕ
address_rank (v4 n) = if n / 2 ^ 24 == 127 then 3 else 0
address_rank (v6 n) = if n == 1 then 3 else if bit_and (n / 2 ^ 112) 0xFFC0 == 0xFE80 then 2 else 1

-- `IpAddr::cmp`.
unfoldable pub addr_before : IpAddr → IpAddr → Bool
addr_before (v4 m) (v4 n) = ltb m n
addr_before (v4 m) (v6 n) = true
addr_before (v6 m) (v4 n) = false
addr_before (v6 m) (v6 n) = ltb m n

-- A stable sort, where `later x y` tells that `x` belongs behind `y`.
unfoldable pub insert_by {ℓ} : {A : Type ℓ} → (A → A → Bool) → A → List A → List A
insert_by later x [] = x ∷ []
insert_by later x (y ∷ ys) =
    let rest = insert_by later x ys in if later x y then y ∷ rest else x ∷ y ∷ ys

unfoldable pub sort_by {ℓ} : {A : Type ℓ} → (A → A → Bool) → List A → List A
sort_by later [] = []
sort_by later (x ∷ xs) = insert_by later x (sort_by later xs)

abbrev pub sort_addrs : List IpAddr → List IpAddr
sort_addrs = sort_by (λ a b. addr_before b a)

-- The comparison of `min_by` in `merge_group`.
abbrev pub preferred : IpAddr → IpAddr → Bool
preferred a b =
    ltb (address_rank a) (address_rank b) || address_rank a == address_rank b && addr_before a b

-- `min_by`: the first of the least.
unfoldable pub primary_of : IpAddr → List IpAddr → IpAddr
primary_of best [] = best
primary_of best (a ∷ bs) = primary_of (if preferred a best then a else best) bs

-- `&self.entries[addr]` of each address.
unfoldable pub entries_of : Entries → List IpAddr → Option (List Entry)
entries_of es [] = some []
entries_of es (a ∷ bs) = do e ← entry_at a es; rest ← entries_of es bs; some (e ∷ rest)

abbrev pub or_else {ℓ} : {A : Type ℓ} → Option A → Option A → Option A
or_else none later = later
or_else (some x) later = some x

unfoldable pub find_map {ℓ κ} : {A : Type ℓ} {B : Type κ} → (A → Option B) → List A → Option B
find_map f [] = none
find_map f (x ∷ xs) = or_else (f x) (find_map f xs)

abbrev pub non_empty : Option Text → Option Text
non_empty none = none
non_empty (some s) = if is_empty s then none else some s

-- The two loops that gather the protocols.
unfoldable pub add_protocols : List Protocol → List Protocol → List Protocol
add_protocols acc [] = acc
add_protocols acc (p ∷ ps) = add_protocols (merge_protocol acc p) ps

unfoldable pub all_protocols : List Protocol → List Entry → List Protocol
all_protocols acc [] = acc
all_protocols acc (e ∷ es) = all_protocols (add_protocols acc e.protocols) es

abbrev pub sort_protocols : List Protocol → List Protocol
sort_protocols = sort_by (λ p q. ltb (preference_rank q) (preference_rank p))

-- `min` of the identities.
unfoldable pub least : Option Text → List Text → Option Text
least best [] = best
least none (t ∷ ts) = least (some t) ts
least (some s) (t ∷ ts) = least (some (if before t s then t else s)) ts

unfoldable pub all_identities : List Entry → List Text
all_identities [] = []
all_identities (e ∷ es) = e.identities ++ all_identities es

-- The device, from the primary address with its entry and the entries of all addresses in order.
abbrev pub device_of : (IpAddr → Text) → IpAddr → Entry → List Entry → Device
device_of show primary main sorted = record {
  id = get_or (least none (all_identities sorted)) (show primary);
  name =
      get_or (find_map (λ e. non_empty e.name) sorted)
        (text "Unknown device (" ++ (show primary ++ text ")"));
  address = primary;
  port = main.port;
  protocols = sort_protocols (all_protocols [] sorted);
  dlna_control_url = find_map (λ e. e.dlna_control_url) sorted;
  dlna_location = find_map (λ e. e.dlna_location) sorted;
}

unfoldable pub merge_group : (IpAddr → Text) → Entries → List IpAddr → Option Device
merge_group show es [] = none
merge_group show es (a ∷ bs) = do
  main ← entry_at (primary_of a bs) es
  sorted ← entries_of es (sort_addrs (a ∷ bs))
  some (device_of show (primary_of a bs) main sorted)

abbrev pub DeviceGroups : Type 0
DeviceGroups = List (ℕ × List IpAddr)

-- `groups.entry(root).or_default().push(addr)`.
unfoldable pub push_group : ℕ → IpAddr → DeviceGroups → DeviceGroups
push_group root a [] = (root, a ∷ []) ∷ []
push_group root a ((r, g) ∷ gs) =
    let rest = push_group root a gs in if r == root then (r, g ++ a ∷ []) ∷ gs else (r, g) ∷ rest

-- The second loop of `devices`, from the address with index `i` on.
unfoldable pub group_all : ℕ → List ℕ → ℕ → List IpAddr → DeviceGroups → Option DeviceGroups
group_all fuel parent i [] gs = some gs
group_all fuel parent i (a ∷ bs) gs =
    find fuel parent i >>= λ found. group_all fuel found.0 (i + 1) bs (push_group found.1 a gs)

unfoldable pub groups_of : List IpAddr → List (List Text) → Option DeviceGroups
groups_of addrs identities =
    links identities >>= λ st. group_all (suc (count_ids identities)) st.parent 0 addrs []

unfoldable pub merge_groups : (IpAddr → Text) → Entries → DeviceGroups → Option (List Device)
merge_groups show es [] = some []
merge_groups show es ((r, g) ∷ gs) = do
  d ← merge_group show es g
  rest ← merge_groups show es gs
  some (d ∷ rest)

-- `protocols.first().map_or(u8::MAX, preference_rank)`.
abbrev pub best_rank : List Protocol → ℕ
best_rank [] = 255
best_rank (p ∷ _) = preference_rank p

-- The comparison of `sort_by`: `a` goes before `b`.
abbrev pub device_before : Device → Device → Bool
device_before a b =
    ltb (best_rank a.protocols) (best_rank b.protocols)
    || best_rank a.protocols == best_rank b.protocols
      && (before a.name b.name || same a.name b.name && addr_before a.address b.address)

unfoldable pub devices : (IpAddr → Text) → DeviceRegistry → Option (List Device)
devices show r = do
  let addrs = sort_addrs (map (λ e. e.0) r.entries)
  es ← entries_of r.entries addrs
  gs ← groups_of addrs (map (λ e. e.identities) es)
  ds ← merge_groups show r.entries gs
  some (sort_by (λ a b. device_before b a) ds)
