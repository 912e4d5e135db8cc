-- ===== src/Sink.antt =====
-- The DLNA sinks, crates/hc-sink/src/dlna.rs: a media cast, and a live mirror. A session's calls
-- are actions on the world; a push that makes the muxer panic is `none`.
pub mod Servers
pub mod Tests
pub mod Cast
pub mod Mirror
use mathlib.Core.Option
use horizon_cast.Base.{ℕ, Bool, Option, none, some}
use horizon_cast.Base.Words.{Bytes}
use horizon_cast.Base.Text.{Text, text, first_part}
use horizon_cast.Core.{Result, ok, err}
use horizon_cast.Discovery.Registry.{IpAddr}
use horizon_cast.MediaServer.{content_type_for}
use horizon_cast.MpegTs.Muxer.{MpegTsMuxer}
use horizon_cast.MpegTs.Muxer
use horizon_cast.Net.FileServer
use horizon_cast.Net.FileServer.{MediaServer}
use horizon_cast.Net.Http.{local_ip_for, fetch_description, send_soap_action}
use horizon_cast.Net.LiveServer
use horizon_cast.Net.LiveServer.{LiveStream}
use horizon_cast.Net.Path.{extension}
use horizon_cast.Net.World.{Action, Environment, Trace, pure, or_cleanup, ◌>>=◌, ◌>>◌}
use horizon_cast.Upnp.{
  parse_device_description, resolve_url, didl_lite_video, didl_lite_live_video,
  build_set_av_transport_uri, build_play, build_stop,
}

pub record MediaCastSession : Type 0 where
  pub control_url : Text
  pub media_url : Text
  pub server : Option MediaServer

-- `map(|_| ())`.
abbrev pub forget : Result Text → Result (Unit {0})
forget (ok _) = ok tt
forget (err e) = err e

abbrev pub stop_server : Option MediaServer → Trace → Trace
stop_server none tr = tr
stop_server (some server) tr = FileServer.stop server tr

-- `MediaCastSession::stop`.
unfoldable pub stop_cast : Environment → MediaCastSession → Action (Unit {0})
stop_cast env s tr =
    let (result, tr') = send_soap_action env s.control_url (text "Stop") build_stop tr in
    (forget result, stop_server s.server tr')

-- `SetAVTransportURI`, then `Play`.
unfoldable pub set_and_play : Environment → Text → Text → Action (Unit {0})
set_and_play env control_url set_body = do
  send_soap_action env control_url (text "SetAVTransportURI") set_body
  send_soap_action env control_url (text "Play") build_play
  pure tt

unfoldable pub start_playback : Environment → Text → Text → Text → Text → Action (Unit {0})
start_playback env control_url media_url title mime =
    let didl = didl_lite_video title media_url mime in
    set_and_play env control_url (build_set_av_transport_uri media_url didl)

unfoldable pub cast_file : Environment → Text → IpAddr → Text → Text → Action MediaCastSession
cast_file env control_url device_addr media title = do
  local_ip ← local_ip_for env device_addr
  server ← FileServer.start env media local_ip
  let mime = content_type_for (extension media)
  or_cleanup (start_playback env control_url server.url title mime) (FileServer.stop server)
  pure (record { control_url = control_url; media_url = server.url; server = some server })

-- `mime_for_url`.
unfoldable pub mime_for_url : Text → Text
mime_for_url url = content_type_for (extension (first_part b'#' (first_part b'?' url)))

unfoldable pub cast_url : Environment → Text → Text → Text → Action MediaCastSession
cast_url env control_url url title = do
  start_playback env control_url url title (mime_for_url url)
  pure (record { control_url = control_url; media_url = url; server = none })

unfoldable pub resolve_control_url : Environment → Text → Action (Option Text)
resolve_control_url env location = do
  xml ← fetch_description env location
  pure (Option.bind (parse_device_description xml).av_transport_control_url (resolve_url location))

pub record LiveMirrorSession : Type 0 where
  pub control_url : Text
  pub live : LiveStream
  pub muxer : MpegTsMuxer

-- `LiveMirrorSession::start`.
unfoldable pub start_mirror : Environment → Text → IpAddr → Text → Action LiveMirrorSession
start_mirror env control_url device_addr title = do
  local_ip ← local_ip_for env device_addr
  live ← LiveServer.start env local_ip (text "video/mp2t") (text "ts")
  let didl = didl_lite_live_video title live.url (text "video/mp2t")
  let set_body = build_set_av_transport_uri live.url didl
  or_cleanup (send_soap_action env control_url (text "SetAVTransportURI") set_body)
      (LiveServer.stop live)
  or_cleanup (send_soap_action env control_url (text "Play") build_play) (LiveServer.stop live)
  pure (record { control_url = control_url; live = live; muxer = Muxer.new })

-- What the muxer made of a unit goes to the live stream.
abbrev pub streamed :
    LiveMirrorSession → Trace → Option (MpegTsMuxer × Bytes) → Option (LiveMirrorSession × Trace)
streamed s tr none = none
streamed s tr (some (m, ts)) = some (record s { muxer = m }, LiveServer.publish s.live ts tr)

-- `LiveMirrorSession::push_access_unit`.
unfoldable pub push_access_unit :
    Bytes → ℕ → Bool → LiveMirrorSession → Trace → Option (LiveMirrorSession × Trace)
push_access_unit annexb pts keyframe s tr =
    streamed s tr (Muxer.push_access_unit annexb pts keyframe s.muxer)

-- `LiveMirrorSession::push_audio_access_unit`.
unfoldable pub push_audio_access_unit :
    Bytes → ℕ → LiveMirrorSession → Trace → Option (LiveMirrorSession × Trace)
push_audio_access_unit adts pts s tr = streamed s tr (Muxer.push_audio_access_unit adts pts s.muxer)

-- `LiveMirrorSession::stop`.
unfoldable pub stop_mirror : Environment → LiveMirrorSession → Action (Unit {0})
stop_mirror env s tr =
    let (result, tr') = send_soap_action env s.control_url (text "Stop") build_stop tr in
    (forget result, LiveServer.stop s.live tr')
