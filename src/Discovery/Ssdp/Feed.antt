-- ===== src/Discovery/Ssdp/Feed.antt =====
-- What a search tells the registry.
use horizon_cast.Base.{
  ℕ, ◌≡◌, refl, ap, ◌∙◌, some, List, [], ◌∷◌, if◌then◌else◌, Bool-cases, inl, inr,
}
use horizon_cast.Discovery.Registry.{
  IpAddr, Observation, Entry, DeviceRegistry, entry_at, observe, run,
}
use horizon_cast.Discovery.Registry.History.{sightings, Keeps, Keeps-trans, run-Keeps}
use horizon_cast.Discovery.Ssdp.{
  parse_ssdp_response, is_media_renderer, Datagram, response_sighting, Search, on_response, receive,
  Fetched, description_sighting, tells_something, enrich,
}

-- The sightings that the datagrams are: those of renderers, at their senders.
abbrev pub heard : List Datagram → List (Observation × ℕ)
heard [] = []
heard (d ∷ ds) =
    let rest = heard ds in
    let r = parse_ssdp_response d.raw in
    if is_media_renderer r then (response_sighting d.src r, d.now) ∷ rest else rest

-- The sightings that the descriptions are: those with a name or a control URL.
abbrev pub told : List Fetched → List (Observation × ℕ)
told [] = []
told (f ∷ fs) =
    let rest = told fs in if tells_something f then (description_sighting f, f.now) ∷ rest else rest

receive-run :
    (ds : List Datagram) (s : Search)
    → (receive ds s).registry ≡ run s.registry (sightings (heard ds))
unfolding receive run
receive-run [] s = refl
receive-run (d ∷ ds) s =
    receive-run ds (on_response d (parse_ssdp_response d.raw) s)
    ∙ elim (Bool-cases (is_media_renderer (parse_ssdp_response d.raw))) [
      | inl renderer ↦ rw renderer refl
      | inr other ↦ rw other refl
    ]

enrich-run : (fs : List Fetched) (r : DeviceRegistry) → enrich fs r ≡ run r (sightings (told fs))
unfolding enrich run
enrich-run [] r = refl
enrich-run (f ∷ fs) r = elim (Bool-cases (tells_something f)) [
  | inl something ↦ rw something (enrich-run fs (observe (description_sighting f) f.now r))
  | inr nothing ↦ rw nothing (enrich-run fs r)
]

-- A whole search does nothing to the registry but sight renderers that answered and descriptions
-- that tell a name or a control URL: an address that was known stays known and keeps its name, its
-- port and its URLs.
pub enrich-receive-Keeps :
    (ds : List Datagram) (fs : List Fetched) (s : Search) (a : IpAddr) (e : Entry)
    → entry_at a s.registry.entries ≡ some e
    → (e' : Entry) × (entry_at a (enrich fs (receive ds s).registry).entries ≡ some e')
      × (enrich fs (receive ds s).registry
          ≡ run (run s.registry (sightings (heard ds))) (sightings (told fs)))
      × Keeps e e'
enrich-receive-Keeps ds fs s a e there =
    let same =
      enrich-run fs (receive ds s).registry
      ∙ ap (λ r. run r (sightings (told fs))) (receive-run ds s) in
    let (e', there', k) = run-Keeps s.registry (heard ds) a e there in
    let (e'', there'', k') =
      run-Keeps (run s.registry (sightings (heard ds))) (told fs) a e' there' in
    (e'', ap (λ r. entry_at a r.entries) same ∙ there'', same, Keeps-trans e e' e'' k k')
