-- ===== src/Discovery/Registry/Tests.antt =====
-- A television that is seen at two addresses, and the theorems applied to it.
use mathlib.Core.List.{Memᴰ}
use horizon_cast.Base.{All, ℕ, ◌*◌, ◌^◌, ◌+◌, ◌≡◌, ◌↔◌, refl, none, some, List, [], ◌∷◌, length}
use horizon_cast.Base.Text.{Text, text}
use horizon_cast.Discovery.Registry.{
  IpAddr, v4, v6, same_addr, Observation, DeviceRegistry, dlna, air_play_mirror, entry_at,
  fresh_entry, seen, Call, sighting, cleanup, run,
}
use horizon_cast.Discovery.Registry.Observe.{IsMap}
use horizon_cast.Discovery.Registry.History.{life, run-life}
use horizon_cast.Discovery.Registry.UnionFind.{Links, links, count_ids}
use horizon_cast.Discovery.Registry.UnionFind.Forest.{IsFit}
use horizon_cast.Discovery.Registry.UnionFind.Classes.{Linked}
use horizon_cast.Discovery.Registry.Devices.{Device, DeviceGroups, groups_of, devices}
use horizon_cast.Discovery.Registry.Devices.Groups.{group_at, members, groups_of-members}
use horizon_cast.Discovery.Registry.Devices.Total.{devices_total, IsGroup, merge_group_total}
use horizon_cast.Discovery.Registry.Devices.Primary.{IsNoBetter, merge_group-IsNoBetter}
use horizon_cast.Discovery.Registry.UnionFind.Correct as Correct
use horizon_cast.Discovery.Registry.UnionFind.Correct.{root_of, links_iff_Linked}

-- 192.168.1.7.
abbrev tv : IpAddr
tv = v4 3_232_235_783

abbrev by_ssdp : Observation
by_ssdp = record {
  address = tv;
  port = 0;
  name = none;
  stable_id = some (text "uuid:tv");
  protocol = dlna;
  dlna_control_url = none;
  dlna_location = some (text "http://tv/");
}

abbrev by_mdns : Observation
by_mdns = record by_ssdp {
  port = 7000;
  name = some (text "TV");
  protocol = air_play_mirror;
  dlna_location = none;
}

abbrev known : DeviceRegistry
known = record { ttl = 30; entries = (tv, seen by_ssdp 5 (fresh_entry 5)) ∷ [] }

known-IsMap : IsMap known.entries
unfolding entry_at
known-IsMap = (refl, tt)

-- Addresses 0 and 2 share one identity, 2 and 3 another, and 1 has its own.
abbrev identities : List (List Text)
identities = (text "a" ∷ []) ∷ (text "b" ∷ []) ∷ (text "a" ∷ text "c" ∷ []) ∷ (text "c" ∷ []) ∷ []

links_iff_Linked_example :
    (st : Links) × (links identities ≡ some st)
    × (length st.parent ≡ length identities)
    × IsFit st.parent (count_ids identities)
    × ((x y : ℕ)
        → (root_of identities st x ≡ root_of identities st y)
          ↔ Linked (Correct.sightings 0 identities) x y)
links_iff_Linked_example = links_iff_Linked identities

abbrev calls : List Call
calls = sighting by_mdns 9 ∷ cleanup 20 ∷ cleanup 50 ∷ []

run-life_example :
    entry_at tv (run known calls).entries ≡ life 30 tv (entry_at tv known.entries) calls
run-life_example = run-life known calls tv known-IsMap

-- fe80::7, the same television by IPv6.
abbrev tv_v6 : IpAddr
tv_v6 = v6 (0xFE80 * 2 ^ 112 + 7)

abbrev show : IpAddr → Text
show _ = text "address"

abbrev both : DeviceRegistry
both = record known { entries = (tv_v6, seen by_mdns 6 (fresh_entry 6)) ∷ known.entries }

groups_of-members_example :
    (gs : DeviceGroups) × (groups_of (tv ∷ tv_v6 ∷ v4 1 ∷ v4 2 ∷ []) identities ≡ some gs)
    × (root : ℕ → ℕ) × ((r : ℕ) → group_at r gs ≡ members root r 0 (tv ∷ tv_v6 ∷ v4 1 ∷ v4 2 ∷ []))
    × ((x y : ℕ) → (root x ≡ root y) ↔ Linked (Correct.sightings 0 identities) x y)
groups_of-members_example = groups_of-members (tv ∷ tv_v6 ∷ v4 1 ∷ v4 2 ∷ []) identities refl

devices_total_example : (ds : List Device) × (devices show both ≡ some ds)
devices_total_example = devices_total show both

both-IsGroup : IsGroup both.entries (0, tv_v6 ∷ tv ∷ [])
unfolding entry_at same_addr
both-IsGroup =
    ((seen by_mdns 6 (fresh_entry 6), refl), ((seen by_ssdp 5 (fresh_entry 5), refl), tt))

abbrev both_device : Device
both_device = (merge_group_total show both.entries 0 (tv_v6 ∷ tv ∷ []) both-IsGroup).0

merge_group-IsNoBetter_example :
    Memᴰ both_device.address (tv_v6 ∷ tv ∷ [])
    × All (IsNoBetter both_device.address) (tv_v6 ∷ tv ∷ [])
merge_group-IsNoBetter_example =
    merge_group-IsNoBetter show both.entries (tv_v6 ∷ tv ∷ []) both_device
      (merge_group_total show both.entries 0 (tv_v6 ∷ tv ∷ []) both-IsGroup).1
