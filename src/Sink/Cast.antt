-- ===== src/Sink/Cast.antt =====
-- A media cast: what the renderer is told, and that no failure leaves a server behind.
use horizon_cast.Base.{
  ◌≡◌, refl, sym, subst, ap, ◌∙◌, Option, none, some, List, ◌∷◌, inl, inr, ◌⊎◌, arith,
}
use horizon_cast.Base.Text.{Text, text}
use horizon_cast.Core.{Error, Result, ok, err, Result-cases}
use horizon_cast.Discovery.Registry.{IpAddr}
use horizon_cast.MediaServer.{content_type_for}
use horizon_cast.Net.Path.{extension}
use horizon_cast.Net.FileServer
use horizon_cast.Net.FileServer.{MediaServer, served_at}
use horizon_cast.Net.Http.{local_ip_for, send_soap_action, soap_result, probed, unspecified}
use horizon_cast.Net.World.{Effect, Environment, Trace, posted, file_served}
use horizon_cast.Sink.{
  MediaCastSession, set_and_play, start_playback, mime_for_url, stop_server, cast_file, cast_url,
  stop_cast,
}
use horizon_cast.Sink.Servers.{running, remove, remove_head}
use horizon_cast.Upnp.{
  soap_action_header, build_set_av_transport_uri, build_play, build_stop, didl_lite_video,
}

abbrev pub sets : Text → Text → Effect
sets control_url set_body =
    posted control_url (soap_action_header (text "SetAVTransportURI")) set_body

-- The request to load a video, and the request to play it.
abbrev pub loads : Text → Text → Text → Text → Effect
loads control_url title uri mime =
    sets control_url (build_set_av_transport_uri uri (didl_lite_video title uri mime))

abbrev pub plays : Text → Effect
plays control_url = posted control_url (soap_action_header (text "Play")) build_play

abbrev pub stops : Text → Effect
stops control_url = posted control_url (soap_action_header (text "Stop")) build_stop

-- How a cast of a file that began at `tr` ends.
abbrev pub CastEnds : Text → Text → Text → Trace → Result MediaCastSession × Trace → Type 0
CastEnds control_url media title tr (ok s, tr') =
    (server : MediaServer) × (s
      ≡ record { control_url = control_url; media_url = server.url; server = some server })
    × (server.path ≡ media)
    × (tr'
        ≡ plays control_url
          ∷ loads control_url title server.url server.content_type
          ∷ file_served server.url
          ∷ tr)
CastEnds control_url media title tr (err e, tr') = running tr' ≡ running tr

-- How the two requests end: both are accepted, or one fails, which leaves the servers as they are.
pub set_and_play_cases :
    (env : Environment) (control_url set_body : Text) (tr : Trace)
    → (set_and_play env control_url set_body tr
        ≡ (ok tt, plays control_url ∷ sets control_url set_body ∷ tr))
      ⊎ ((e : Error) × (tr' : Trace) × (set_and_play env control_url set_body tr ≡ (err e, tr'))
          × (running tr' ≡ running tr))
unfolding set_and_play send_soap_action
set_and_play_cases env control_url set_body tr =
    let set_reply = env.reply tr control_url (text "SetAVTransportURI") set_body in
    let tr1 = sets control_url set_body ∷ tr in
    let play_reply = env.reply tr1 control_url (text "Play") build_play in
    elim (Result-cases (soap_result (text "SetAVTransportURI") set_reply)) [
      | inl (a, set) ↦ elim (Result-cases (soap_result (text "Play") play_reply)) [
        | inl (b, play) ↦ inl (ground arith)
        | inr (e, refused) ↦ inr (e, plays control_url ∷ tr1, ground arith, unfold running in refl)
      ]
      | inr (e, refused) ↦ inr (e, tr1, ground arith, unfold running in refl)
    ]

-- However a cast of a local file ends: if it succeeds, then exactly these were done: a server was
-- started for the file, and the renderer was told to load its URL, as the type that the server
-- sends, and to play; the session has that server. If it fails, then the servers that run are those
-- that ran before.
pub cast_file_ends :
    (env : Environment) (control_url : Text) (device_addr : IpAddr) (media title : Text)
    (tr : Trace)
    → CastEnds control_url media title tr (cast_file env control_url device_addr media title tr)
unfolding cast_file start_playback local_ip_for
cast_file_ends env control_url device_addr media title tr =
    elim (Result-cases (probed (env.probe tr (unspecified device_addr) device_addr))) [
      | inr (e, refused) ↦ ground arith
      | inl (ip, found) ↦ elim (FileServer.start_cases env media ip tr) [
        | inl (e, refused) ↦ ground arith
        | inr (port, started) ↦
            let server = served_at media ip port in
            let at_path : server.path ≡ media = unfold served_at in refl in
            let at_type : content_type_for (extension media) ≡ server.content_type =
              unfold served_at in refl in
            let didl = didl_lite_video title server.url server.content_type in
            elim (set_and_play_cases env control_url (build_set_av_transport_uri server.url didl)
              (file_served server.url ∷ tr)) [
                | inl all ↦
                    let session : MediaCastSession = record {
                      control_url = control_url;
                      media_url = server.url;
                      server = some server;
                    } in
                    let tr' =
                      plays control_url
                      ∷ loads control_url title server.url server.content_type
                      ∷ file_served server.url
                      ∷ tr in
                    let runs : cast_file env control_url device_addr media title tr
                        ≡ (ok session, tr') =
                      ground arith in
                    subst (CastEnds control_url media title tr) (sym runs)
                      (server, refl, at_path, refl)
                | inr (e, tr', failed, kept) ↦
                    unfold running FileServer.stop in
                    ground (arith, remove_head server.url (running tr))
              ]
      ]
    ]

-- The servers that run while a session is held, over those that ran before it.
unfoldable pub IsHeld : MediaCastSession → List Text → Trace → Type 0
IsHeld s before tr =
    running tr ≡ elim s.server [ none ↦ before | some server ↦ server.url ∷ before ]

-- A cast of a file that succeeds holds its server, and one that fails holds none.
abbrev pub Leaves : List Text → Result MediaCastSession × Trace → Type 0
Leaves before (ok s, tr') = IsHeld s before tr'
Leaves before (err e, tr') = running tr' ≡ before

CastEnds-Leaves :
    (control_url media title : Text) (tr : Trace) (end : Result MediaCastSession × Trace)
    → CastEnds control_url media title tr end
    → Leaves (running tr) end
unfolding IsHeld running
CastEnds-Leaves control_url media title tr (ok s, tr') (server, same_session, at_path, did) =
    rw (same_session, did) refl
CastEnds-Leaves control_url media title tr (err e, tr') kept = kept

pub cast_file-Leaves :
    (env : Environment) (control_url : Text) (device_addr : IpAddr) (media title : Text)
    (tr : Trace)
    → Leaves (running tr) (cast_file env control_url device_addr media title tr)
cast_file-Leaves env control_url device_addr media title tr =
    CastEnds-Leaves control_url media title tr _
      (cast_file_ends env control_url device_addr media title tr)

-- How a cast of a URL that began at `tr` ends.
abbrev pub UrlCastEnds : Text → Text → Text → Trace → Result MediaCastSession × Trace → Type 0
UrlCastEnds control_url url title tr (ok s, tr') =
    (s ≡ record { control_url = control_url; media_url = url; server = none })
    × (tr' ≡ plays control_url ∷ loads control_url title url (mime_for_url url) ∷ tr)
UrlCastEnds control_url url title tr (err e, tr') = running tr' ≡ running tr

pub cast_url_ends :
    (env : Environment) (control_url url title : Text) (tr : Trace)
    → UrlCastEnds control_url url title tr (cast_url env control_url url title tr)
unfolding cast_url start_playback
cast_url_ends env control_url url title tr =
    let didl = didl_lite_video title url (mime_for_url url) in
    elim (set_and_play_cases env control_url (build_set_av_transport_uri url didl) tr) [
      | inl all ↦ ground arith
      | inr (e, tr', failed, kept) ↦ ground arith
    ]

pub cast_url-Leaves :
    (env : Environment) (control_url url title : Text) (tr : Trace)
    → Leaves (running tr) (cast_url env control_url url title tr)
unfolding IsHeld running
cast_url-Leaves env control_url url title tr =
    ground (arith, cast_url_ends env control_url url title tr)

-- What stopping the server leaves of the running ones.
abbrev without : Option MediaServer → List Text → List Text
without none us = us
without (some server) us = remove server.url us

without_held :
    (server : Option MediaServer) (before : List Text)
    → without server (elim server [ none ↦ before | some held ↦ held.url ∷ before ]) ≡ before
without_held none before = refl
without_held (some server) before = remove_head server.url before

running-stop_server :
    (server : Option MediaServer) (tr : Trace)
    → running (stop_server server tr) ≡ without server (running tr)
unfolding running FileServer.stop
running-stop_server none tr = refl
running-stop_server (some server) tr = refl

-- Whatever the renderer answers, stopping a session tells it to stop, and then stops the server
-- that the session holds, if any, and no other.
pub stop_cast_ends :
    (env : Environment) (s : MediaCastSession) (before : List Text) (tr : Trace)
    → IsHeld s before tr
    → ((stop_cast env s tr).1 ≡ stop_server s.server (stops s.control_url ∷ tr))
      × (running (stop_cast env s tr).1 ≡ before)
unfolding stop_cast send_soap_action IsHeld
stop_cast_ends env s before tr held =
    let told = stops s.control_url ∷ tr in
    let same : running told ≡ running tr = unfold running in refl in
    (
      refl,
      running-stop_server s.server told
          ∙ ap (without s.server) (same ∙ held)
          ∙ without_held s.server before,
    )
