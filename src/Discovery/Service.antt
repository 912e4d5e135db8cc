-- ===== src/Discovery/Service.antt =====
-- The discovery service, crates/hc-discovery/src/service.rs: passes over one registry, each of which
-- expires what is stale and publishes the devices if they changed; and the one scan of
-- `discover_for`, crates/hc-discovery/src/lib.rs. What the two backends sight is given.
pub mod Published
use horizon_cast.Base.{
  ℕ, ◌*◌, Bool, true, false, ◌&&◌, Option, none, some, List, [], ◌∷◌, ◌==◌, if◌then◌else◌, ◌>>=◌,
}
use horizon_cast.Base.Text.{Text, same}
use horizon_cast.Discovery.Registry.{
  Protocol, same_protocol, same_addr, DeviceRegistry, Observation, observe, expire,
}
use horizon_cast.Discovery.Registry
use horizon_cast.Discovery.Registry.Devices.{Device, devices}
use horizon_cast.Net.Address.{show_addr}

-- `DEFAULT_TTL`, 15 seconds.
abbrev pub default_ttl : ℕ
default_ttl = 15 * 1_000_000_000

unfoldable pub same_protocols : List Protocol → List Protocol → Bool
same_protocols [] [] = true
same_protocols (p ∷ ps) (q ∷ qs) = same_protocol p q && same_protocols ps qs
same_protocols _ _ = false

abbrev pub same_option : Option Text → Option Text → Bool
same_option none none = true
same_option (some a) (some b) = same a b
same_option _ _ = false

-- `==` of devices.
unfoldable pub same_device : Device → Device → Bool
same_device d e =
    same d.id e.id
    && same d.name e.name
    && same_addr d.address e.address
    && d.port == e.port
    && same_protocols d.protocols e.protocols
    && same_option d.dlna_control_url e.dlna_control_url
    && same_option d.dlna_location e.dlna_location

unfoldable pub same_devices : List Device → List Device → Bool
same_devices [] [] = true
same_devices (d ∷ ds) (e ∷ es) = same_device d e && same_devices ds es
same_devices _ _ = false

-- The service: its registry, the list `last`, and what was sent to the subscribers, the latest
-- first.
pub record Service : Type 0 where
  pub registry : DeviceRegistry
  pub latest : List Device
  pub sent : List (List Device)

abbrev pub started : Service
started = record { registry = Registry.new default_ttl; latest = []; sent = [] }

-- What the backends saw, with the times.
abbrev pub Sightings : Type 0
Sightings = List (Observation × ℕ)

unfoldable pub observe_all : Sightings → DeviceRegistry → DeviceRegistry
observe_all [] r = r
observe_all ((obs, now) ∷ seen) r = observe_all seen (observe obs now r)

-- A pass: what was sighted in it, and the time at its end.
pub record Pass : Type 0 where
  pub sighted : Sightings
  pub ends : ℕ

unfoldable pub publish : DeviceRegistry → List Device → Service → Service
publish r snapshot s =
    if same_devices snapshot s.latest
    then record s { registry = r }
    else record { registry = r; latest = snapshot; sent = snapshot ∷ s.sent }

-- One round of `run`; a panic is none.
unfoldable pub pass : Pass → Service → Option Service
pass p s =
    let r = expire p.ends (observe_all p.sighted s.registry) in
    devices show_addr r >>= λ snapshot. some (publish r snapshot s)

unfoldable pub passes : List Pass → Service → Option Service
passes [] s = some s
passes (p ∷ ps) s = pass p s >>= λ s'. passes ps s'

-- `Discovery::current`.
abbrev pub current : Service → Option (List Device)
current s = devices show_addr s.registry

-- `discover_for`.
unfoldable pub discover_for : Sightings → Option (List Device)
discover_for sighted = devices show_addr (observe_all sighted (Registry.new default_ttl))
