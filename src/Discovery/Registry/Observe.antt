-- ===== src/Discovery/Registry/Observe.antt =====
-- What a sighting and an expiry do to each address.
use horizon_cast.Base.{
  ℕ, ◌+◌, ◌-◌, ◌≤◌, ◌≡◌, ◌↔◌, refl, sym, ap, ◌∙◌, true, false, none, some, [], ◌∷◌, leb, ==_iff,
  if◌then◌else◌, ◌>>=◌, arith, Bool-cases, inl, inr,
}
use mathlib.Core.Option.{get_or}
use horizon_cast.Discovery.Registry.{
  IpAddr, v4, v6, same_addr, Observation, Entry, Entries, DeviceRegistry, entry_at, fresh_entry,
  seen, upsert, observe, retain, expire,
}

pub same_addr_iff : (a b : IpAddr) → (same_addr a b ≡ true) ↔ (a ≡ b)
unfolding same_addr
same_addr_iff (v4 m) (v4 n) = (λ h. ap v4 ((==_iff m n).0 h), λ e. (==_iff m n).1 (cc))
same_addr_iff (v6 m) (v6 n) = (λ h. ap v6 ((==_iff m n).0 h), λ e. (==_iff m n).1 (cc))
same_addr_iff (v4 m) (v6 n) = ground arith
same_addr_iff (v6 m) (v4 n) = ground arith

same_addr_sym : (a b : IpAddr) → same_addr a b ≡ same_addr b a
unfolding same_addr
same_addr_sym (v4 m) (v4 n) = ground arith
same_addr_sym (v6 m) (v6 n) = ground arith
same_addr_sym (v4 m) (v6 n) = refl
same_addr_sym (v6 m) (v4 n) = refl

same_addr_refl : (a : IpAddr) → same_addr a a ≡ true
same_addr_refl a = (same_addr_iff a a).1 refl

-- Two addresses that are the same as a third.
same_addr_both :
    (k a b : IpAddr) → same_addr k b ≡ true → same_addr a b ≡ true → same_addr k a ≡ true
same_addr_both k a b h g =
    (same_addr_iff k a).1 ((same_addr_iff k b).0 h ∙ sym ((same_addr_iff a b).0 g))

entry_at-upsert :
    (a : IpAddr) (change : Entry → Entry) (fresh : Entry) (es : Entries) (b : IpAddr)
    → entry_at b (upsert a change fresh es)
      ≡ (if same_addr a b then some (change (get_or (entry_at a es) fresh)) else entry_at b es)
unfolding entry_at upsert
entry_at-upsert a change fresh [] b = refl
entry_at-upsert a change fresh ((k, e) ∷ es) b = elim (Bool-cases (same_addr k a)) [
  | inl here ↦
      let e' = ap (λ k. same_addr k b) ((same_addr_iff k a).0 here) in rw (here, e') (ground arith)
  | inr other ↦
      rw (other, entry_at-upsert a change fresh es b)
        (elim (Bool-cases (same_addr k b)) [
          | inl first ↦ elim (Bool-cases (same_addr a b)) [
            | inl second ↦ absurd (ground (arith, same_addr_both k a b first second))
            | inr apart ↦ rw (first, apart) refl
          ]
          | inr apart ↦ rw apart refl
        ])
]

-- The keys are distinct.
abbrev pub IsMap : Entries → Type 0
IsMap [] = Unit {0}
IsMap ((k, e) ∷ es) = (entry_at k es ≡ none) × IsMap es

entry_at-retain :
    (ttl now : ℕ) (es : Entries) (a : IpAddr)
    → IsMap es
    → entry_at a (retain ttl now es)
      ≡ (entry_at a es >>= λ e. if leb (now - e.last_seen) ttl then some e else none)
unfolding entry_at retain
entry_at-retain ttl now [] a h = refl
entry_at-retain ttl now ((k, e) ∷ es) a h = elim (Bool-cases (leb (now - e.last_seen) ttl)) [
  | inl kept ↦
      rw (kept, entry_at-retain ttl now es a h.1)
        (elim (Bool-cases (same_addr k a)) [
          | inl here ↦ rw (here, ◌>>=◌, kept) refl
          | inr other ↦ rw other refl
        ])
  | inr dropped ↦
      rw (dropped, entry_at-retain ttl now es a h.1)
        (elim (Bool-cases (same_addr k a)) [
          | inl here ↦
              let gone : entry_at a es ≡ none =
                ap (λ k. entry_at k es) (sym ((same_addr_iff k a).0 here)) ∙ h.0 in
              rw (here, gone, ◌>>=◌, dropped) refl
          | inr other ↦ rw other refl
        ])
]

IsMap-upsert :
    (a : IpAddr) (change : Entry → Entry) (fresh : Entry) (es : Entries)
    → IsMap es
    → IsMap (upsert a change fresh es)
unfolding upsert
IsMap-upsert a change fresh [] h = (unfold entry_at in refl, tt)
IsMap-upsert a change fresh ((k, e) ∷ es) h = elim (Bool-cases (same_addr k a)) [
  | inl here ↦ rw here h
  | inr other ↦
      let apart : same_addr a k ≡ false = same_addr_sym a k ∙ other in
      rw other
        (rw (entry_at-upsert a change fresh es k, apart) h.0, IsMap-upsert a change fresh es h.1)
]

retain-none :
    (ttl now : ℕ) (es : Entries) (a : IpAddr)
    → IsMap es
    → entry_at a es ≡ none
    → entry_at a (retain ttl now es) ≡ none
retain-none ttl now es a h gone = entry_at-retain ttl now es a h ∙ rw (gone, ◌>>=◌) refl

IsMap-retain : (ttl now : ℕ) (es : Entries) → IsMap es → IsMap (retain ttl now es)
unfolding retain
IsMap-retain ttl now [] h = tt
IsMap-retain ttl now ((k, e) ∷ es) h = elim (Bool-cases (leb (now - e.last_seen) ttl)) [
  | inl kept ↦ rw kept (retain-none ttl now es k h.1 h.0, IsMap-retain ttl now es h.1)
  | inr dropped ↦ rw dropped (IsMap-retain ttl now es h.1)
]

-- A sighting changes the entry of its address alone, which it makes if there is none.
pub entry_at-observe :
    (obs : Observation) (now : ℕ) (r : DeviceRegistry) (a : IpAddr)
    → entry_at a (observe obs now r).entries ≡ (
        if same_addr obs.address a
        then some (seen obs now (get_or (entry_at obs.address r.entries) (fresh_entry now)))
        else entry_at a r.entries)
unfolding observe
entry_at-observe obs now r a =
    entry_at-upsert obs.address (seen obs now) (fresh_entry now) r.entries a

-- An expiry keeps exactly the entries that are no older than the registry allows.
pub entry_at-expire :
    (now : ℕ) (r : DeviceRegistry) (a : IpAddr)
    → IsMap r.entries
    → entry_at a (expire now r).entries
      ≡ (entry_at a r.entries >>= λ e. if leb (now - e.last_seen) r.ttl then some e else none)
unfolding expire
entry_at-expire now r a h = entry_at-retain r.ttl now r.entries a h

-- A device that was just seen stays for the whole time that the registry allows.
pub expire-observe :
    (obs : Observation) (now later : ℕ) (r : DeviceRegistry)
    → IsMap r.entries
    → later ≤ now + r.ttl
    → entry_at obs.address (expire later (observe obs now r)).entries
      ≡ entry_at obs.address (observe obs now r).entries
expire-observe obs now later r h soon =
    let w : IsMap (observe obs now r).entries =
      unfold observe in IsMap-upsert obs.address (seen obs now) (fresh_entry now) r.entries h in
    let entry = seen obs now (get_or (entry_at obs.address r.entries) (fresh_entry now)) in
    let found : entry_at obs.address (observe obs now r).entries ≡ some entry =
      entry_at-observe obs now r obs.address ∙ rw (same_addr_refl obs.address) refl in
    entry_at-expire later (observe obs now r) obs.address w
    ∙ rw found (unfold seen in unfold observe in ground arith)

pub IsMap-observe :
    (obs : Observation) (now : ℕ) (r : DeviceRegistry)
    → IsMap r.entries
    → IsMap (observe obs now r).entries
unfolding observe
IsMap-observe obs now r h = IsMap-upsert obs.address (seen obs now) (fresh_entry now) r.entries h

pub IsMap-expire : (now : ℕ) (r : DeviceRegistry) → IsMap r.entries → IsMap (expire now r).entries
unfolding expire
IsMap-expire now r h = IsMap-retain r.ttl now r.entries h
