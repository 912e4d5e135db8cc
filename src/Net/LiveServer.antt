-- ===== src/Net/LiveServer.antt =====
-- `LiveStream` of crates/hc-net/src/live_stream.rs: how it starts, its URL, the chunks it is given,
-- its answer to a request, and how it stops.
use horizon_cast.Core.{Error, ok, err, Result-cases}
use horizon_cast.Base.{◌≡◌, refl, ◌⊎◌, inl, inr, ℕ, Bool, [], ◌∷◌, ◌++◌, if◌then◌else◌}
use horizon_cast.Base.Words.{Bytes}
use horizon_cast.Base.Text.{Text, text}
use horizon_cast.Discovery.Registry.{IpAddr}
use horizon_cast.MediaServer.{Headers}
use horizon_cast.Upnp.{dlna_live_features}
use horizon_cast.Net.Listener.{bound, server_url}
use horizon_cast.Net.World.{
  Action, Environment, Trace, live_served, live_stopped, published, ◌>>=◌, ◌>>◌, of_result, pure,
  emit,
}

pub record LiveStream : Type 0 where
  pub url : Text
  pub content_type : Text

unfoldable pub live_at : IpAddr → ℕ → Text → Text → LiveStream
live_at local_ip port content_type ext = record {
  url = server_url local_ip port (text "live." ++ ext);
  content_type = content_type;
}

-- `LiveStream::start`.
unfoldable pub start : Environment → IpAddr → Text → Text → Action LiveStream
start env local_ip content_type ext tr =
    (of_result (bound (text "live") (env.listen tr)) >>= λ port.
    let live = live_at local_ip port content_type ext in emit (live_served live.url) >> pure live)
      tr

-- `LiveStream::publish`.
unfoldable pub publish : LiveStream → Bytes → Trace → Trace
publish live chunk tr = published live.url chunk ∷ tr

-- `LiveStream::stop`.
unfoldable pub stop : LiveStream → Trace → Trace
stop live tr = live_stopped live.url ∷ tr

-- The headers of `serve`; `wants_features` is the presence of `getcontentfeatures.dlna.org`.
unfoldable pub serve_headers : Text → Bool → Headers
serve_headers content_type wants_features =
    let out =
      (text "content-type", content_type)
      ∷ (text "accept-ranges", text "none")
      ∷ (text "transfermode.dlna.org", text "Streaming")
      ∷ [] in
    if wants_features
    then out ++ (text "contentfeatures.dlna.org", dlna_live_features) ∷ []
    else out

-- How a live server starts, or does not.
pub start_cases :
    (env : Environment) (ip : IpAddr) (content_type ext : Text) (tr : Trace)
    → ((e : Error) × (start env ip content_type ext tr ≡ (err e, tr)))
      ⊎ ((port : ℕ) × (start env ip content_type ext tr ≡ (
        ok (live_at ip port content_type ext),
        live_served (live_at ip port content_type ext).url ∷ tr,
      )))
unfolding start
start_cases env ip content_type ext tr = elim (Result-cases (bound (text "live") (env.listen tr))) [
  | inl (port, e) ↦ inr (port, rw e refl)
  | inr (e, refused) ↦ inl (e, rw refused refl)
]
