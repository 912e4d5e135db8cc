-- ===== src/Net/FileServer.antt =====
-- `MediaServer` of crates/hc-net/src/media_server.rs: how it starts, its URL, and how it stops.
use mathlib.Core.Option.{get_or}
use horizon_cast.Base.{◌≡◌, refl, ◌⊎◌, inl, inr, Bool-cases, ℕ, ◌∷◌, ◌++◌, if◌then◌else◌}
use horizon_cast.Base.Text.{Text, text, to_ascii_lowercase}
use horizon_cast.Core.{Error, ok, Result-cases, err, sink_error}
use horizon_cast.Discovery.Registry.{IpAddr}
use horizon_cast.MediaServer.{content_type_for}
use horizon_cast.Net.Listener.{bound, server_url}
use horizon_cast.Net.Path.{extension}
use horizon_cast.Net.World.{
  Action, Environment, Trace, file_served, file_stopped, ◌>>=◌, ◌>>◌, of_result, pure, emit,
}

-- The handle and the state of the server.
pub record MediaServer : Type 0 where
  pub url : Text
  pub path : Text
  pub content_type : Text

unfoldable pub media_name : Text → Text
media_name media = text "media." ++ to_ascii_lowercase (get_or (extension media) (text "bin"))

unfoldable pub served_at : Text → IpAddr → ℕ → MediaServer
served_at media local_ip port = record {
  url = server_url local_ip port (media_name media);
  path = media;
  content_type = content_type_for (extension media);
}

-- `MediaServer::start`.
unfoldable pub start : Environment → Text → IpAddr → Action MediaServer
start env media local_ip tr =
    let serve : Action MediaServer = (λ tr'.
      (of_result (bound (text "media") (env.listen tr')) >>= λ port.
      let server = served_at media local_ip port in emit (file_served server.url) >> pure server)
        tr') in
    if env.try_exists tr media
    then serve tr
    else (err (sink_error (text "media file not found: " ++ media)), tr)

-- `MediaServer::stop`.
unfoldable pub stop : MediaServer → Trace → Trace
stop server tr = file_stopped server.url ∷ tr

-- How a local server starts, or does not.
pub start_cases :
    (env : Environment) (media : Text) (ip : IpAddr) (tr : Trace)
    → ((e : Error) × (start env media ip tr ≡ (err e, tr)))
      ⊎ ((port : ℕ) × (start env media ip tr
            ≡ (ok (served_at media ip port), file_served (served_at media ip port).url ∷ tr)))
unfolding start
start_cases env media ip tr = elim (Bool-cases (env.try_exists tr media)) [
  | inl there ↦ elim (Result-cases (bound (text "media") (env.listen tr))) [
    | inl (port, e) ↦ inr (port, rw (there, e) refl)
    | inr (e, refused) ↦ inl (e, rw (there, refused) refl)
  ]
  | inr missing ↦ inl (sink_error (text "media file not found: " ++ media), rw missing refl)
]
