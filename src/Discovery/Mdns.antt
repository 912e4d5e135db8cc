-- ===== src/Discovery/Mdns.antt =====
-- mDNS discovery, crates/hc-discovery/src/mdns.rs: the label of an instance, and what a resolved
-- service tells the registry. The events come from the mDNS daemon, a third-party package.
pub mod Label
use mathlib.Core.List.{reverse}
use horizon_cast.Base.{ℕ, Option, none, some, List, [], ◌∷◌, ◌==◌, if◌then◌else◌, ◌>>=◌}
use horizon_cast.Base.Text.{Text, text, strip_prefix}
use horizon_cast.Discovery.Registry.{IpAddr, air_play_mirror, Observation, DeviceRegistry, observe}

abbrev pub airplay_service : Text
airplay_service = text "_airplay._tcp.local."

unfoldable pub drop_dots : Text → Text
drop_dots [] = []
drop_dots (c ∷ s) = let rest = drop_dots s in if c == b'.' then rest else c ∷ s

-- `trim_end_matches('.')` and `strip_suffix`.
abbrev pub trim_dots : Text → Text
trim_dots s = reverse (drop_dots (reverse s))

abbrev pub strip_suffix : Text → Text → Option Text
strip_suffix suffix s = strip_prefix (reverse suffix) (reverse s) >>= λ rest. some (reverse rest)

unfoldable pub instance_label : Text → Text → Text
instance_label fullname service = trim_dots (label (strip_suffix service fullname))
  where
    label : Option Text → Text
    label none = fullname
    label (some s) = trim_dots s

pub record Resolved : Type 0 where
  pub fullname : Text
  pub port : ℕ
  pub addresses : List IpAddr
  pub now : ℕ

abbrev pub service_sighting : Resolved → IpAddr → Observation
service_sighting info a = record {
  address = a;
  port = info.port;
  name = some (instance_label info.fullname airplay_service);
  stable_id = some info.fullname;
  protocol = air_play_mirror;
  dlna_control_url = none;
  dlna_location = none;
}

unfoldable pub observe_addresses : Resolved → List IpAddr → DeviceRegistry → DeviceRegistry
observe_addresses info [] r = r
observe_addresses info (a ∷ bs) r =
    observe_addresses info bs (observe (service_sighting info a) info.now r)

-- The loop of `browse_blocking`, over the services that are resolved in the window.
unfoldable pub browse : List Resolved → DeviceRegistry → DeviceRegistry
browse [] r = r
browse (info ∷ infos) r = browse infos (observe_addresses info info.addresses r)
