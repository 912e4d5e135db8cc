-- ===== src/Sink/Tests.antt =====
-- A renderer that accepts all, one that refuses to play, and the theorems applied to them.
use horizon_cast.Base.{◌≡◌, true, false, some, List, [], ◌∷◌, ◌++◌, if◌then◌else◌, arith}
use horizon_cast.Base.Text.{Text, text, same}
use horizon_cast.Discovery.Registry.{IpAddr, v4}
use horizon_cast.Encode.{EncodedFrame}
use horizon_cast.MpegTs.Muxer.Received.{push_all, IsReceived}
use horizon_cast.MpegTs.Muxer
use horizon_cast.Net.World.{
  Environment, Trace, routed, listening, Reply, replied, unreachable, document, live_served,
}
use horizon_cast.Sink.{LiveMirrorSession, cast_file, start_mirror}
use horizon_cast.Sink.Cast.{CastEnds, cast_file_ends}
use horizon_cast.Sink.Mirror.{MirrorEnds, start_mirror_ends, push_units, push_units_streams, stream}
use horizon_cast.Sink.Servers.{running}

abbrev answers_all : Text → Reply
answers_all action = replied 200 (text "200 OK") []

abbrev refuses_play : Text → Reply
refuses_play action =
    if same action (text "Play") then unreachable (text "timed out") else answers_all action

abbrev network : (Text → Reply) → Environment
network answer = record {
  probe = λ tr unspecified target. routed (v4 0xC0A80002);
  try_exists = λ tr path. true;
  listen = λ tr. listening 8080;
  reply = λ tr url action body. answer action;
  fetch = λ tr url. document [];
}

abbrev control : Text
control = text "http://192.168.0.9/ctl"

abbrev renderer : IpAddr
renderer = v4 0xC0A80009

cast_file_ends_example :
    CastEnds control
      (text "/films/one.mp4")
      (text "One")
      []
      (cast_file (network refuses_play) control renderer (text "/films/one.mp4") (text "One") [])
cast_file_ends_example =
    cast_file_ends (network refuses_play) control renderer (text "/films/one.mp4") (text "One") []

start_mirror_ends_example :
    MirrorEnds control
      (text "HorizonCast")
      []
      (start_mirror (network answers_all) control renderer (text "HorizonCast") [])
start_mirror_ends_example =
    start_mirror_ends (network answers_all) control renderer (text "HorizonCast") []

abbrev live_session : LiveMirrorSession
live_session = record {
  control_url = control;
  live = record { url = text "http://192.168.0.2:8080/live.ts"; content_type = text "video/mp2t" };
  muxer = Muxer.new;
}

abbrev two_units : List EncodedFrame
two_units =
    record { annexb = 0 ∷ 0 ∷ 0 ∷ 1 ∷ 0x65 ∷ []; pts = 0; keyframe = true }
    ∷ record { annexb = 0 ∷ 0 ∷ 0 ∷ 1 ∷ 0x41 ∷ []; pts = 3_000; keyframe = false }
    ∷ []

abbrev serving : Trace
serving = live_served live_session.live.url ∷ []

push_units_streams_example :
    (sent : IsReceived two_units Muxer.new (push_all two_units Muxer.new)) × (tr' : Trace)
    × (push_units two_units live_session serving
        ≡ some (record live_session { muxer = sent.after }, tr'))
    × (stream live_session.live.url tr' ≡ stream live_session.live.url serving ++ sent.bytes)
    × (running tr' ≡ running serving)
push_units_streams_example = push_units_streams two_units live_session serving (omega arith)
