-- ===== src/Discovery/Registry.antt =====
-- The device registry, crates/hc-discovery/src/registry.rs, and the device types of
-- crates/hc-core/src/types.rs. A `HashMap` is an association list; a `BTreeSet<String>` is its
-- ascending list; a `Duration` is a number of nanoseconds.
pub mod UnionFind
pub mod Observe
pub mod History
pub mod Devices
pub mod Tests
use horizon_cast.Base.{
  ℕ, ◌-◌, ◌/◌, ◌^◌, ◌<◌, Bool, true, false, not, ◌&&◌, ◌||◌, Option, none, some, List, [], ◌∷◌,
  ◌++◌, map, ltb, leb, ◌==◌, if◌then◌else◌, length,
}
use horizon_cast.Base.Text.{Text, same, is_empty}

pub data Protocol : Type 0 where
  air_play_mirror air_play_video dlna miracast cast : Protocol

unfoldable pub same_protocol : Protocol → Protocol → Bool
same_protocol air_play_mirror air_play_mirror = true
same_protocol air_play_video air_play_video = true
same_protocol dlna dlna = true
same_protocol miracast miracast = true
same_protocol cast cast = true
same_protocol _ _ = false

-- An address is the number of its 32 or 128 bits.
pub data IpAddr : Type 0 where
  v4 v6 : ℕ → IpAddr

unfoldable pub same_addr : IpAddr → IpAddr → Bool
same_addr (v4 m) (v4 n) = m == n
same_addr (v6 m) (v6 n) = m == n
same_addr _ _ = false

-- `String::cmp` is lexicographic.
unfoldable pub before : Text → Text → Bool
before _ [] = false
before [] (_ ∷ _) = true
before (x ∷ xs) (y ∷ ys) = ltb x y || x == y && before xs ys

pub record Observation : Type 0 where
  pub address : IpAddr
  pub port : ℕ
  pub name : Option Text
  pub stable_id : Option Text
  pub protocol : Protocol
  pub dlna_control_url : Option Text
  pub dlna_location : Option Text

pub record Entry : Type 0 where
  pub name : Option Text
  pub identities : List Text
  pub port : ℕ
  pub protocols : List Protocol
  pub dlna_control_url : Option Text
  pub dlna_location : Option Text
  pub last_seen : ℕ

abbrev pub Entries : Type 0
Entries = List (IpAddr × Entry)

pub record DeviceRegistry : Type 0 where
  pub ttl : ℕ
  pub entries : Entries

-- `DeviceRegistry::new`.
abbrev pub new : ℕ → DeviceRegistry
new ttl = record { ttl = ttl; entries = [] }

-- `HashMap::get`.
unfoldable pub entry_at : IpAddr → Entries → Option Entry
entry_at a [] = none
entry_at a ((k, e) ∷ es) = let rest = entry_at a es in if same_addr k a then some e else rest

-- The entry that `or_insert_with` makes.
abbrev pub fresh_entry : ℕ → Entry
fresh_entry now = record {
  name = none;
  identities = [];
  port = 0;
  protocols = [];
  dlna_control_url = none;
  dlna_location = none;
  last_seen = now;
}

-- `entry.name.as_deref().is_none_or(str::is_empty)`.
abbrev pub is_blank : Option Text → Bool
is_blank none = true
is_blank (some s) = is_empty s

unfoldable pub merge_port : ℕ → ℕ → ℕ
merge_port old new = if old == 0 && not (new == 0) then new else old

unfoldable pub merge_name : Option Text → Option Text → Option Text
merge_name old none = old
merge_name old (some name) = if not (is_empty name) && is_blank old then some name else old

-- The first URL that is not empty.
unfoldable pub merge_url : Option Text → Option Text → Option Text
merge_url none (some url) = if is_empty url then none else some url
merge_url old _ = old

-- `BTreeSet::insert`.
unfoldable pub insert : Text → List Text → List Text
insert id [] = id ∷ []
insert id (x ∷ xs) =
    let rest = insert id xs in
    if same id x then x ∷ xs else if before id x then id ∷ x ∷ xs else x ∷ rest

unfoldable pub merge_identity : Option Text → List Text → List Text
merge_identity none ids = ids
merge_identity (some id) ids = if is_empty id then ids else insert id ids

unfoldable pub contains : List Protocol → Protocol → Bool
contains [] p = false
contains (q ∷ qs) p = same_protocol q p || contains qs p

unfoldable pub merge_protocol : List Protocol → Protocol → List Protocol
merge_protocol ps p = if contains ps p then ps else ps ++ p ∷ []

-- What `observe` does to the entry of the address.
unfoldable pub seen : Observation → ℕ → Entry → Entry
seen obs now e = record {
  name = merge_name e.name obs.name;
  identities = merge_identity obs.stable_id e.identities;
  port = merge_port e.port obs.port;
  protocols = merge_protocol e.protocols obs.protocol;
  dlna_control_url = merge_url e.dlna_control_url obs.dlna_control_url;
  dlna_location = merge_url e.dlna_location obs.dlna_location;
  last_seen = now;
}

-- `HashMap::entry`, `or_insert_with`, and the change of the entry in place.
unfoldable pub upsert : IpAddr → (Entry → Entry) → Entry → Entries → Entries
upsert a change fresh [] = (a, change fresh) ∷ []
upsert a change fresh ((k, e) ∷ es) =
    let rest = upsert a change fresh es in
    if same_addr k a then (k, change e) ∷ es else (k, e) ∷ rest

unfoldable pub observe : Observation → ℕ → DeviceRegistry → DeviceRegistry
observe obs now r = record r {
  entries = upsert obs.address (seen obs now) (fresh_entry now) r.entries;
}

-- `HashMap::retain` by the age of the entries.
unfoldable pub retain : ℕ → ℕ → Entries → Entries
retain ttl now [] = []
retain ttl now ((k, e) ∷ es) =
    let rest = retain ttl now es in if leb (now - e.last_seen) ttl then (k, e) ∷ rest else rest

unfoldable pub expire : ℕ → DeviceRegistry → DeviceRegistry
expire now r = record r { entries = retain r.ttl now r.entries }

abbrev pub len : DeviceRegistry → ℕ
len r = length r.entries

-- `DeviceRegistry::is_empty`.
abbrev pub has_none : DeviceRegistry → Bool
has_none r = len r == 0

abbrev pub preference_rank : Protocol → ℕ
preference_rank air_play_mirror = 0
preference_rank air_play_video = 1
preference_rank cast = 2
preference_rank miracast = 3
preference_rank dlna = 4

-- The calls of a scan, in order.
pub data Call : Type 0 where
  sighting : Observation → ℕ → Call
  cleanup : ℕ → Call

unfoldable pub run : DeviceRegistry → List Call → DeviceRegistry
run r [] = r
run r (sighting obs now ∷ calls) = run (observe obs now r) calls
run r (cleanup now ∷ calls) = run (expire now r) calls
