-- ===== src/Net/World.antt =====
-- The world outside the process: what was done to it so far, how it answers, and calls that fail.
use horizon_cast.Base.{ℕ, Bool, List, ◌∷◌}
use horizon_cast.Base.Words.{Bytes}
use horizon_cast.Base.Text.{Text}
use horizon_cast.Core.{Error, Result, ok, err}
use horizon_cast.Discovery.Registry.{IpAddr}
use horizon_cast.Upnp.{XmlEvent}

-- An effect on the network: a SOAP request to a URL, or the fetch of a description, that is tried,
-- also when no HTTP client can be made for it; a server that starts or is told to stop; a chunk for
-- the clients of a live stream; and the task of the capture loop, with its rates.
pub data Effect : Type 0 where
  posted : (url action_header body : Text) → Effect
  fetched : (url : Text) → Effect
  file_served file_stopped live_served live_stopped : (url : Text) → Effect
  published : (url : Text) → Bytes → Effect
  capture_spawned : (fps bitrate_kbps : ℕ) → Effect

-- What was done, the latest first.
abbrev pub Trace : Type 0
Trace = List Effect

-- How the probe of the local address goes.
pub data Probe : Type 0 where
  probe_bind_failed probe_connect_failed probe_addr_failed : Text → Probe
  routed : IpAddr → Probe

-- How a listener on an ephemeral port starts.
pub data Listen : Type 0 where
  bind_failed addr_failed : Text → Listen
  listening : ℕ → Listen

-- How a SOAP request ends: with a status, its text, and the body.
pub data Reply : Type 0 where
  no_client unreachable unreadable : Text → Reply
  replied : ℕ → Text → Text → Reply

-- How a fetch ends: with the events that the XML reader makes of the document.
pub data Fetch : Type 0 where
  fetch_no_client fetch_unreachable fetch_unreadable : Text → Fetch
  document : List XmlEvent → Fetch

-- The answers may depend on all that was done before.
pub record Environment : Type 0 where
  pub probe : Trace → IpAddr → IpAddr → Probe
  pub try_exists : Trace → Text → Bool
  pub listen : Trace → Listen
  pub reply : Trace → Text → Text → Text → Reply
  pub fetch : Trace → Text → Fetch

-- A call that may fail; its effects stay in either case.
abbrev pub Action : Type 0 → Type 0
Action A = Trace → Result A × Trace

module _ {A : Type 0} where
  abbrev pub pure : A → Action A
  pure a tr = (ok a, tr)

  abbrev pub raise : Error → Action A
  raise e tr = (err e, tr)

  abbrev pub of_result : Result A → Action A
  of_result r tr = (r, tr)

  -- `if let Err(e) = … { cleanup; return Err(e) }`.
  abbrev pub or_cleanup : Action A → (Trace → Trace) → Action A
  or_cleanup m cleanup tr =
      let (r, tr') = m tr in elim r [ ok a ↦ (ok a, tr') | err e ↦ (err e, cleanup tr') ]

infixl 5 ◌>>=◌ ◌>>◌
abbrev pub ◌>>=◌ : {A B : Type 0} → Action A → (A → Action B) → Action B
◌>>=◌ m f tr = let (r, tr') = m tr in elim r [ ok a ↦ f a tr' | err e ↦ (err e, tr') ]

abbrev pub ◌>>◌ : {A B : Type 0} → Action A → Action B → Action B
m >> k = m >>= λ _. k

abbrev pub emit : Effect → Action (Unit {0})
emit e tr = (ok tt, e ∷ tr)
