-- ===== src/Discovery/Service/Published.antt =====
-- What the subscribers of the service see.
use horizon_cast.Base.{
  ◌≡◌, ◌≢◌, refl, sym, ◌∙◌, true, Option, none, some, List, [], ◌∷◌, arith, inl, inr, Bool-cases,
  ==_refl,
}
use horizon_cast.Base.Text.{Text, same}
use horizon_cast.Base.Text.Cut.{same_iff}
use horizon_cast.Discovery.Registry.{Protocol, same_protocol, DeviceRegistry, expire}
use horizon_cast.Discovery.Registry.Devices.{Device}
use horizon_cast.Discovery.Registry.Devices.Total.{devices_total}
use horizon_cast.Discovery.Registry.Observe.{same_addr_iff}
use horizon_cast.Discovery.Service.{
  same_protocols, same_option, same_device, same_devices, Service, Pass, observe_all, publish, pass,
  passes, current,
}
use horizon_cast.Net.Address.{show_addr}

same_protocol_sound : (p q : Protocol) → same_protocol p q ≡ true → p ≡ q
unfolding same_protocol
same_protocol_sound p q h = ground arith

same_protocols_sound : (ps qs : List Protocol) → same_protocols ps qs ≡ true → ps ≡ qs
unfolding same_protocols
same_protocols_sound [] [] h = refl
same_protocols_sound [] (q ∷ qs) h = cc
same_protocols_sound (p ∷ ps) [] h = cc
same_protocols_sound (p ∷ ps) (q ∷ qs) h =
    ground (arith, same_protocol_sound p q, same_protocols_sound ps qs)

same_option_sound : (a b : Option Text) → same_option a b ≡ true → a ≡ b
same_option_sound none none h = refl
same_option_sound none (some b) h = cc
same_option_sound (some a) none h = cc
same_option_sound (some a) (some b) h = ground (arith, same_iff a b)

same_device_sound : (d e : Device) → same_device d e ≡ true → d ≡ e
unfolding same_device
same_device_sound d e h = ground (
  arith,
  same_iff d.id e.id,
  same_iff d.name e.name,
  same_addr_iff d.address e.address,
  same_protocols_sound d.protocols e.protocols,
  same_option_sound d.dlna_control_url e.dlna_control_url,
  same_option_sound d.dlna_location e.dlna_location,
)

same_devices_sound : (ds es : List Device) → same_devices ds es ≡ true → ds ≡ es
unfolding same_devices
same_devices_sound [] [] h = refl
same_devices_sound [] (e ∷ es) h = cc
same_devices_sound (d ∷ ds) [] h = cc
same_devices_sound (d ∷ ds) (e ∷ es) h =
    ground (arith, same_device_sound d e, same_devices_sound ds es)

same_text_refl : (a : Text) → same a a ≡ true
same_text_refl a = (same_iff a a).1 refl

same_protocols_refl : (ps : List Protocol) → same_protocols ps ps ≡ true
unfolding same_protocols same_protocol
same_protocols_refl [] = refl
same_protocols_refl (p ∷ ps) = ground (arith, same_protocols_refl ps)

same_option_refl : (a : Option Text) → same_option a a ≡ true
same_option_refl none = refl
same_option_refl (some a) = same_text_refl a

same_devices_refl : (ds : List Device) → same_devices ds ds ≡ true
unfolding same_devices same_device
same_devices_refl [] = refl
same_devices_refl (d ∷ ds) =
    rw
      (
        same_text_refl d.id,
        same_text_refl d.name,
        (same_addr_iff d.address d.address).1 refl,
        ==_refl d.port,
        same_protocols_refl d.protocols,
        same_option_refl d.dlna_control_url,
        same_option_refl d.dlna_location,
        same_devices_refl ds,
      )
      refl

-- What a subscriber reads: the list that was sent last, or none.
abbrev pub seen_by : List (List Device) → List Device
seen_by [] = []
seen_by (ds ∷ earlier) = ds

-- Each list that was sent differs from the one before.
abbrev pub Changes : List (List Device) → Type 0
Changes [] = Unit
Changes (ds ∷ earlier) = (ds ≢ seen_by earlier) × Changes earlier

-- The list that the loop compares with is the one that the subscribers have.
pub record IsPublished (s : Service) : Type 0 where
  pub held : s.latest ≡ seen_by s.sent
  pub changes : Changes s.sent

publish-IsPublished :
    (r : DeviceRegistry) (ds : List Device) (s : Service)
    → IsPublished s
    → IsPublished (publish r ds s)
      × (seen_by (publish r ds s).sent ≡ ds)
      × ((publish r ds s).registry ≡ r)
unfolding publish
publish-IsPublished r ds s v = elim (Bool-cases (same_devices ds s.latest)) [
  | inl same ↦
      let equal = same_devices_sound ds s.latest same in
      rw same (record { held = v.held; changes = v.changes }, sym v.held ∙ sym equal, refl)
  | inr changed ↦
      let differs : ds ≢ seen_by s.sent = λ e.
        let same : same_devices ds s.latest ≡ true = rw (v.held, ← e) (same_devices_refl ds) in
        cc in
      rw changed (record { held = refl; changes = (differs, v.changes) }, refl, refl)
]

pass-IsPublished :
    (p : Pass) (s : Service)
    → IsPublished s
    → (s' : Service) × (pass p s ≡ some s') × IsPublished s' × (current s' ≡ some (seen_by s'.sent))
unfolding pass
pass-IsPublished p s v =
    let r = expire p.ends (observe_all p.sighted s.registry) in
    let (ds, listed) = devices_total show_addr r in
    let (v', seen, kept) = publish-IsPublished r ds s v in
    (publish r ds s, rw listed refl, v', rw (kept, seen) listed)

-- Whatever is sighted in the passes, none panics. After the last of them the subscribers have exactly
-- the devices that the registry holds, and no list was sent that equals the one before.
pub passes-IsPublished :
    (first : Pass) (ps : List Pass) (s : Service)
    → IsPublished s
    → (s' : Service) × (passes (first ∷ ps) s ≡ some s')
      × IsPublished s'
      × (current s' ≡ some (seen_by s'.sent))
unfolding passes
passes-IsPublished first [] s v =
    let (s1, passed, v1, now) = pass-IsPublished first s v in (s1, rw passed refl, v1, now)
passes-IsPublished first (p ∷ ps) s v =
    let (s1, passed, v1, now) = pass-IsPublished first s v in
    let (s2, rest, v2, now2) = passes-IsPublished p ps s1 v1 in (s2, rw passed rest, v2, now2)
