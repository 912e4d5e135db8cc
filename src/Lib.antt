-- ===== src/Lib.antt =====
-- HorizonCast sends video to the screens of a home network. This library is about the Rust crates
-- under crates/.
--
-- The parts. hc-core has the session's state machine, the errors, and the clock that turns capture
-- times into presentation times. hc-capture gives the frames of the screen, which hc-encode turns
-- into access units. hc-net has the MPEG-TS muxer, which cuts the units with their times into
-- transport packets, the two HTTP servers that a renderer fetches a file or a live stream from, the
-- codec of the AirPlay control channel, and the documents and calls of UPnP. hc-discovery keeps a
-- registry of the devices that announce themselves, which the SSDP and mDNS backends feed, and
-- publishes it. hc-sink casts a file, a URL or the screen to a DLNA renderer by means of these, and
-- hc-cli and hc-app are the two programs that a user starts.
--
-- Files.
--   Base                shared names, tests, lists, bits, machine words, and texts as lists of code
--                       points with the functions of `str` that the code calls
--   MpegTs              crates/hc-net/src/mpegts.rs: Wire has `ts_header`, `build_pes`,
--                       `encode_timestamp` and `encode_pcr`, Crc `crc32_mpeg`, Psi `pat_section` and
--                       `pmt_section`, Muxer the struct `MpegTsMuxer` and its methods; Demux is a
--                       receiver written from ISO 13818-1, not from the code
--   Session             crates/hc-core/src/session.rs: `SessionState::next`
--   Clock               crates/hc-core/src/clock.rs: `PtsClock`
--   MediaServer         crates/hc-net/src/media_server.rs: `serve`, `parse_range`,
--                       `range_is_unsatisfiable` and `content_type_for`
--   Discovery.Registry  crates/hc-discovery/src/registry.rs: `DeviceRegistry`, its `observe` and
--                       `expire`; UnionFind has `find` and the loop of `devices` that links addresses,
--                       Devices the rest of `devices`, and `merge_group`
--   Discovery.Ssdp      crates/hc-discovery/src/ssdp.rs: `parse_ssdp_response`, and the loop of `search`
--                       with `enrich_names` over what the network gives
--   Discovery.Mdns      crates/hc-discovery/src/mdns.rs: `instance_label`, and the loop of
--                       `browse_blocking` over the services that are resolved
--   Rtsp                crates/hc-net/src/rtsp.rs: `RtspRequest`, `RtspResponse::parse` and
--                       `RtspConnection::request`
--   Upnp                crates/hc-net/src/upnp.rs: `parse_device_description` over the events of the
--                       XML reader, `resolve_url`, `xml_escape`, and the DIDL and SOAP documents
--   Discovery.Service   crates/hc-discovery/src/service.rs: the passes of `run`; and `discover_for` of
--                       crates/hc-discovery/src/lib.rs
--   Core                crates/hc-core/src/error.rs: `Error` and `Result`
--   Capture             crates/hc-capture/src: the frames of frame.rs; Convert has `bgra_to_nv12` of
--                       convert.rs, Backend `ScapCapture` of scap_backend.rs and the stub of lib.rs
--   Encode              crates/hc-encode/src: the interface of lib.rs; Annexb has `sample_to_encoded`
--                       of macos.rs, VideoToolbox the rest of it, Foundation what mediafoundation.rs
--                       computes itself
--   Net                 World is the network with its answers; Http has `local_ip_for` of
--                       crates/hc-net/src/addr.rs and the calls of upnp.rs, FileServer and LiveServer
--                       the servers of media_server.rs and live_stream.rs, Listener the URL that both
--                       make, Address and Path what the standard library says of those
--   Sink                crates/hc-sink/src/dlna.rs: all of it
--   Pipeline            `capture_encode_loop` of crates/hc-cli/src/main.rs, which is also the one of
--                       crates/hc-app/src/main.rs
--   App                 crates/hc-app/src/main.rs: App has the background loop's commands, Events the
--                       callbacks of the window and the turns of both
--   Cli                 crates/hc-cli/src/main.rs: `find_device`, `media_title`, `run_cast`, `run_mirror`
--
-- How code becomes definitions. A method of a struct takes the struct and returns it. Integers
-- are natural numbers; where the code casts or shifts, the remainder by the power of 2 is written
-- out. A panic is `none`, or a value of its own where the code also returns an `Option`. A loop
-- recurs on fuel: the packet loop of `write_payload` takes a byte of the payload in each round,
-- so one more than the payload's length is enough, and the theorems about it say that it returns.
-- The search of `find` takes as many rounds as the tree is deep, and each of the identities makes
-- a tree one deeper at most, so one more than their number is enough.
--
-- A call to the network is a function of the trace, the list of all effects that were made so far,
-- latest first; it returns its result and the longer trace. How the network answers is a function
-- of the trace too, and nothing is assumed of it. Threads and tasks are sequences of turns: a run of
-- the application is a list of clicks, commands, updates, units and ends of captures in any order,
-- and what a mirror's pump still does between the stop signal and its end is given by the world. A
-- turn runs to its end before the next begins, and what it does to the window is seen at once. The
-- capture is the list of the frames that it gives, the encoder any machine with its interface, and
-- the channel between them takes some number of units before its receiver is dropped. The loops of
-- Annexb take four bytes in each round, so the buffer's length is fuel enough.
-- The loop of `h264_parameter_sets` takes a set in each round, so the number of sets is enough.
--
-- A server counts as stopped when it is told to stop. That the web framework then waits for the
-- clients that are still connected is modelled for the mirror of the command line only, where what
-- the end waits for is given; the application and a cast are taken to wait no longer.
--
-- Not modelled: the sockets, tasks and files of the servers, the accept loop and the broadcast
-- channel of the live stream, the set-up of the encoders and of the capture in the operating
-- system, the toolkit of the window, the argument parser, and most of what the command line prints.
-- `connect` of rtsp.rs opens a socket; bplist.rs calls the plist library; the traits of
-- crates/hc-core/src/traits.rs have no implementation. What the file system gives to `serve`, and
-- what a stream gives to `request`, are arguments of the model. Paths are those of Unix.
pub mod Base
pub mod Core
pub mod Capture
pub mod Encode
pub mod MpegTs
pub mod Session
pub mod Clock
pub mod MediaServer
pub mod Discovery
pub mod Rtsp
pub mod Upnp
pub mod Net
pub mod Sink
pub mod Pipeline
pub mod App
pub mod Cli
