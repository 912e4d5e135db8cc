-- ===== src/Sink/Mirror.antt =====
-- A live mirror: how it starts and stops, and what the renderer gets of the units that are pushed.
use horizon_cast.Base.{
  ◌≡◌, refl, sym, subst, ap, ◌∙◌, Option, some, List, [], ◌∷◌, ◌++◌, inl, inr, arith, if◌then◌else◌,
  ◌>>=◌, append_assoc, append-nil, Option-cases,
}
use horizon_cast.Base.Words.{Bytes}
use horizon_cast.Base.Text.{Text, text, same}
use horizon_cast.Base.Text.Cut.{same_iff}
use horizon_cast.Core.{Result, ok, err, Result-cases}
use horizon_cast.Discovery.Registry.{IpAddr}
use horizon_cast.Encode.{EncodedFrame}
use horizon_cast.MpegTs.Muxer
use horizon_cast.MpegTs.Muxer.{MpegTsMuxer}
use horizon_cast.MpegTs.Muxer.Received.{push_all, IsReceived, push_all-IsReceived}
use horizon_cast.MpegTs.Muxer.Tables.{IsValid}
use horizon_cast.Net.Http.{local_ip_for, send_soap_action, soap_result, probed, unspecified}
use horizon_cast.Net.LiveServer
use horizon_cast.Net.LiveServer.{LiveStream, live_at}
use horizon_cast.Net.World.{Environment, Trace, live_served, live_stopped, published}
use horizon_cast.Sink.{LiveMirrorSession, push_access_unit, start_mirror, stop_mirror}
use horizon_cast.Sink.Cast.{plays, sets, stops}
use horizon_cast.Sink.Servers.{running, remove, remove_head}
use horizon_cast.Upnp.{build_set_av_transport_uri, build_play, didl_lite_live_video}

-- The units that a pump takes from the encoder, one by one.
unfoldable pub push_units :
    List EncodedFrame → LiveMirrorSession → Trace → Option (LiveMirrorSession × Trace)
push_units [] s tr = some (s, tr)
push_units (u ∷ us) s tr =
    push_access_unit u.annexb u.pts u.keyframe s tr >>= λ (s', tr'). push_units us s' tr'

-- All that was published to the clients of a live stream, in order.
unfoldable pub stream : Text → Trace → Bytes
stream url [] = []
stream url (published u chunk ∷ tr) =
    let before = stream url tr in if same url u then before ++ chunk else before
stream url (_ ∷ tr) = stream url tr

-- How a mirror that began at `tr` ends its start.
abbrev pub MirrorEnds : Text → Text → Trace → Result LiveMirrorSession × Trace → Type 0
MirrorEnds control_url title tr (ok s, tr') =
    (s.control_url ≡ control_url)
    × (s.muxer ≡ Muxer.new)
    × (tr'
        ≡ plays control_url
          ∷ sets control_url (
              build_set_av_transport_uri s.live.url
                (didl_lite_live_video title s.live.url s.live.content_type))
          ∷ live_served s.live.url
          ∷ tr)
MirrorEnds control_url title tr (err e, tr') = running tr' ≡ running tr

-- However the start of a mirror ends: if it succeeds, then exactly these were done: a live server
-- was started, and the renderer was told to load its URL, as the type that the server sends, and to
-- play; the session has that server and a fresh muxer. If it fails, then the servers that run are
-- those that ran before.
pub start_mirror_ends :
    (env : Environment) (control_url : Text) (device_addr : IpAddr) (title : Text) (tr : Trace)
    → MirrorEnds control_url title tr (start_mirror env control_url device_addr title tr)
unfolding start_mirror local_ip_for send_soap_action
start_mirror_ends env control_url device_addr title tr =
    elim (Result-cases (probed (env.probe tr (unspecified device_addr) device_addr))) [
      | inr (e, refused) ↦ ground arith
      | inl (ip, found) ↦ elim (LiveServer.start_cases env ip (text "video/mp2t") (text "ts") tr) [
        | inl (e, refused) ↦ ground arith
        | inr (port, started) ↦
            let live = live_at ip port (text "video/mp2t") (text "ts") in
            let set_body =
              build_set_av_transport_uri live.url
                (didl_lite_live_video title live.url (text "video/mp2t")) in
            let tr1 = live_served live.url ∷ tr in
            let tr2 = sets control_url set_body ∷ tr1 in
            let set_reply = env.reply tr1 control_url (text "SetAVTransportURI") set_body in
            let play_reply = env.reply tr2 control_url (text "Play") build_play in
            let emptied = remove_head live.url (running tr) in
            elim (Result-cases (soap_result (text "SetAVTransportURI") set_reply)) [
              | inr (e, refused) ↦ unfold running LiveServer.stop in ground (arith, emptied)
              | inl (a, set) ↦ elim (Result-cases (soap_result (text "Play") play_reply)) [
                | inr (e, refused) ↦ unfold running LiveServer.stop in ground (arith, emptied)
                | inl (b, play) ↦
                    let session : LiveMirrorSession = record {
                      control_url = control_url;
                      live = live;
                      muxer = Muxer.new;
                    } in
                    let runs : start_mirror env control_url device_addr title tr
                        ≡ (ok session, plays control_url ∷ tr2) =
                      ground arith in
                    subst (MirrorEnds control_url title tr) (sym runs)
                      (refl, refl, unfold live_at in refl)
              ]
            ]
      ]
    ]

-- Pushing is muxing, and publishing what comes of it.
push_units-push_all :
    (us : List EncodedFrame) (s : LiveMirrorSession) (tr : Trace) (m : MpegTsMuxer) (bytes : Bytes)
    → push_all us s.muxer ≡ some (m, bytes)
    → (tr' : Trace) × (push_units us s tr ≡ some (record s { muxer = m }, tr'))
      × (stream s.live.url tr' ≡ stream s.live.url tr ++ bytes)
      × (running tr' ≡ running tr)
unfolding push_units push_access_unit push_all stream running LiveServer.publish
push_units-push_all [] s tr m bytes e =
    let nothing : bytes ≡ [] = cc in
    (tr, ground arith, rw nothing (sym (append-nil (stream s.live.url tr))), refl)
push_units-push_all (u ∷ us) s tr m bytes e =
    elim (Option-cases (Muxer.push_access_unit u.annexb u.pts u.keyframe s.muxer)) [
      | inl panic ↦ absurd (ground arith)
      | inr ((m1, sent), e1) ↦ elim (Option-cases (push_all us m1)) [
        | inl panic ↦ absurd (ground arith)
        | inr ((m2, more), e2) ↦
            let (tr', pushed, got, kept) =
              push_units-push_all us (record s { muxer = m1 }) (published s.live.url sent ∷ tr) m2
                more e2 in
            let cut : (m ≡ m2) × (bytes ≡ sent ++ more) = ground arith in
            (
              tr',
              ground arith,
              ground (
                arith,
                same_iff s.live.url s.live.url,
                append_assoc (stream s.live.url tr) sent more,
              ),
              kept,
            )
      ]
    ]

-- From counters of four bits, pushing units never fails and changes no server. The clients of the
-- stream are sent a transport stream from which a receiver reads the units, as `IsReceived` says.
pub push_units_streams :
    (us : List EncodedFrame) (s : LiveMirrorSession) (tr : Trace)
    → IsValid s.muxer
    → (sent : IsReceived us s.muxer (push_all us s.muxer)) × (tr' : Trace) × (push_units us s tr
        ≡ some (record s { muxer = sent.after }, tr'))
      × (stream s.live.url tr' ≡ stream s.live.url tr ++ sent.bytes)
      × (running tr' ≡ running tr)
push_units_streams us s tr v =
    let sent = push_all-IsReceived us s.muxer v in
    let (tr', pushed, got, kept) = push_units-push_all us s tr sent.after sent.bytes sent.returns in
    (sent, tr', pushed, got, kept)

-- The servers that run while a mirror is held, over those that ran before it.
unfoldable pub IsLive : LiveMirrorSession → List Text → Trace → Type 0
IsLive s before tr = (running tr ≡ s.live.url ∷ before) × IsValid s.muxer

-- A mirror that starts holds its server, with counters of four bits, and one that fails holds none.
abbrev pub LeavesLive : List Text → Result LiveMirrorSession × Trace → Type 0
LeavesLive before (ok s, tr') = IsLive s before tr'
LeavesLive before (err e, tr') = running tr' ≡ before

MirrorEnds-LeavesLive :
    (control_url title : Text) (tr : Trace) (end : Result LiveMirrorSession × Trace)
    → MirrorEnds control_url title tr end
    → LeavesLive (running tr) end
unfolding IsLive running
MirrorEnds-LeavesLive control_url title tr (ok s, tr') (told, new, did) =
    (rw did refl, rw new (omega arith))
MirrorEnds-LeavesLive control_url title tr (err e, tr') kept = kept

pub start_mirror-LeavesLive :
    (env : Environment) (control_url : Text) (device_addr : IpAddr) (title : Text) (tr : Trace)
    → LeavesLive (running tr) (start_mirror env control_url device_addr title tr)
start_mirror-LeavesLive env control_url device_addr title tr =
    MirrorEnds-LeavesLive control_url title tr _
      (start_mirror_ends env control_url device_addr title tr)

pub push_units-IsLive :
    (us : List EncodedFrame) (s : LiveMirrorSession) (before : List Text) (tr : Trace)
    → IsLive s before tr
    → (s' : LiveMirrorSession) × (tr' : Trace) × (push_units us s tr ≡ some (s', tr'))
      × (s'.live ≡ s.live)
      × IsLive s' before tr'
unfolding IsLive
push_units-IsLive us s before tr (run, v) =
    let (sent, tr', pushed, got, kept) = push_units_streams us s tr v in
    (record s { muxer = sent.after }, tr', pushed, refl, (kept ∙ run, sent.valid))

-- Whatever the renderer answers, stopping a mirror tells it to stop, and then stops the live server
-- of the mirror, and no other.
pub stop_mirror_ends :
    (env : Environment) (s : LiveMirrorSession) (before : List Text) (tr : Trace)
    → running tr ≡ s.live.url ∷ before
    → ((stop_mirror env s tr).1 ≡ live_stopped s.live.url ∷ stops s.control_url ∷ tr)
      × (running (stop_mirror env s tr).1 ≡ before)
unfolding stop_mirror send_soap_action LiveServer.stop running
stop_mirror_ends env s before tr run =
    (refl, ap (remove s.live.url) run ∙ remove_head s.live.url before)
