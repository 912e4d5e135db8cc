-- ===== src/Discovery/Registry/History.antt =====
-- What a whole scan makes of each address.
use horizon_cast.Base.{
  ℕ, ◌-◌, ◌≡◌, ◌⊎◌, refl, ap, ◌∙◌, true, Option, none, some, List, [], ◌∷◌, map, subst, leb,
  if◌then◌else◌, ◌>>=◌, arith, Bool-cases, inl, inr,
}
use mathlib.Core.Option.{get_or}
use horizon_cast.Base.Text.{Text}
use horizon_cast.Discovery.Registry.{
  IpAddr, same_addr, Observation, Entry, DeviceRegistry, new, entry_at, fresh_entry, is_blank,
  merge_name, merge_port, merge_url, seen, observe, expire, Call, sighting, cleanup, run,
}
use horizon_cast.Discovery.Registry.Observe.{
  same_addr_iff, IsMap, IsMap-observe, IsMap-expire, entry_at-observe, entry_at-expire,
}

-- The life of one address, by itself: each of its sightings is merged in, and a cleanup forgets it
-- when it is too old.
abbrev pub life : ℕ → IpAddr → Option Entry → List Call → Option Entry
life ttl a e [] = e
life ttl a e (sighting obs now ∷ calls) =
    life ttl a
      (if same_addr obs.address a then some (seen obs now (get_or e (fresh_entry now))) else e)
      calls
life ttl a e (cleanup now ∷ calls) =
    life ttl a (e >>= λ e. if leb (now - e.last_seen) ttl then some e else none) calls

touched :
    (obs : Observation) (now : ℕ) (r : DeviceRegistry) (a : IpAddr)
    → entry_at a (observe obs now r).entries ≡ (
        if same_addr obs.address a
        then some (seen obs now (get_or (entry_at a r.entries) (fresh_entry now)))
        else entry_at a r.entries)
touched obs now r a = elim (Bool-cases (same_addr obs.address a)) [
  | inl here ↦
      let e = (same_addr_iff obs.address a).0 here in
      entry_at-observe obs now r a
      ∙ rw here (ap (λ b. some (seen obs now (get_or (entry_at b r.entries) (fresh_entry now)))) e)
  | inr other ↦ entry_at-observe obs now r a ∙ rw other refl
]

-- After any calls, a registry with one entry per address holds for each address what the address's
-- own life makes of the entry: no address changes another one's.
pub run-life :
    (r : DeviceRegistry) (calls : List Call) (a : IpAddr)
    → IsMap r.entries
    → entry_at a (run r calls).entries ≡ life r.ttl a (entry_at a r.entries) calls
unfolding run
run-life r [] a h = refl
run-life r (sighting obs now ∷ calls) a h =
    run-life (observe obs now r) calls a (IsMap-observe obs now r h)
    ∙ unfold observe in ap (λ e. life r.ttl a e calls) (touched obs now r a)
run-life r (cleanup now ∷ calls) a h =
    run-life (expire now r) calls a (IsMap-expire now r h)
    ∙ unfold expire in ap (λ e. life r.ttl a e calls) (entry_at-expire now r a h)

-- What an entry keeps of an older one: a name that is not blank, a port, the URLs.
pub record Keeps (old new : Entry) : Type 0 where
  pub name : (is_blank old.name ≡ true) ⊎ (new.name ≡ old.name)
  pub port : (old.port ≡ 0) ⊎ (new.port ≡ old.port)
  pub control_url : (old.dlna_control_url ≡ none) ⊎ (new.dlna_control_url ≡ old.dlna_control_url)
  pub location : (old.dlna_location ≡ none) ⊎ (new.dlna_location ≡ old.dlna_location)

merge_name-keeps : (old new : Option Text) → (is_blank old ≡ true) ⊎ (merge_name old new ≡ old)
unfolding merge_name
merge_name-keeps old none = inr refl
merge_name-keeps old (some name) = elim (Bool-cases (is_blank old)) [
  | inl blank ↦ inl blank
  | inr named ↦ inr (rw named (ground arith))
]

merge_port-keeps : (old new : ℕ) → (old ≡ 0) ⊎ (merge_port old new ≡ old)
unfolding merge_port
merge_port-keeps old new = ground arith

merge_url-keeps : (old new : Option Text) → (old ≡ none) ⊎ (merge_url old new ≡ old)
unfolding merge_url
merge_url-keeps none new = inl refl
merge_url-keeps (some url) none = inr refl
merge_url-keeps (some url) (some _) = inr refl

seen-Keeps : (obs : Observation) (now : ℕ) (e : Entry) → Keeps e (seen obs now e)
unfolding seen
seen-Keeps obs now e = record {
  name = merge_name-keeps e.name obs.name;
  port = merge_port-keeps e.port obs.port;
  control_url = merge_url-keeps e.dlna_control_url obs.dlna_control_url;
  location = merge_url-keeps e.dlna_location obs.dlna_location;
}

kept_trans {ℓ κ} :
    {A : Type ℓ} (P : A → Type κ) {a b c : A} → P a ⊎ (b ≡ a) → P b ⊎ (c ≡ b) → P a ⊎ (c ≡ a)
kept_trans P (inl h) _ = inl h
kept_trans P (inr e) (inl h) = inl (subst P e h)
kept_trans P (inr e) (inr e') = inr (e' ∙ e)

pub Keeps-trans : (a b c : Entry) → Keeps a b → Keeps b c → Keeps a c
Keeps-trans a b c h g = record {
  name = kept_trans (λ s. is_blank s ≡ true) h.name g.name;
  port = kept_trans (λ p. p ≡ 0) h.port g.port;
  control_url = kept_trans (λ u. u ≡ none) h.control_url g.control_url;
  location = kept_trans (λ u. u ≡ none) h.location g.location;
}

abbrev pub sightings : List (Observation × ℕ) → List Call
sightings = map (λ s. sighting s.0 s.1)

touched-Keeps :
    (obs : Observation) (now : ℕ) (r : DeviceRegistry) (a : IpAddr) (e : Entry)
    → entry_at a r.entries ≡ some e
    → (e' : Entry) × (entry_at a (observe obs now r).entries ≡ some e') × Keeps e e'
touched-Keeps obs now r a e there = elim (Bool-cases (same_addr obs.address a)) [
  | inl here ↦ (seen obs now e, touched obs now r a ∙ rw (here, there) refl, seen-Keeps obs now e)
  | inr other ↦ (
    e,
    touched obs now r a ∙ rw other there,
    record { name = inr refl; port = inr refl; control_url = inr refl; location = inr refl },
  )
]

-- Whatever is sighted and in whatever order, an address that the registry knows stays known, and
-- keeps its name if that is not blank, its port if that is not 0, and the URLs that it has.
pub run-Keeps :
    (r : DeviceRegistry) (obs : List (Observation × ℕ)) (a : IpAddr) (e : Entry)
    → entry_at a r.entries ≡ some e
    → (e' : Entry) × (entry_at a (run r (sightings obs)).entries ≡ some e') × Keeps e e'
unfolding run
run-Keeps r [] a e there = (
  e,
  there,
  record { name = inr refl; port = inr refl; control_url = inr refl; location = inr refl },
)
run-Keeps r ((o, now) ∷ obs) a e there =
    let (e', there', k) = touched-Keeps o now r a e there in
    let (e'', there'', k') = run-Keeps (observe o now r) obs a e' there' in
    (e'', there'', Keeps-trans e e' e'' k k')
