-- ===== src/Discovery/Ssdp.antt =====
-- SSDP discovery, crates/hc-discovery/src/ssdp.rs: responses, and what the search loop and the
-- enrichment tell the registry. A datagram is its sender, its text and the time; the clock only
-- moves between them.
pub mod Feed
use mathlib.Core.Option.{get_or}
use mathlib.Core.List.{reverse}
use horizon_cast.Base.{
  ℕ, Bool, true, false, not, ◌&&◌, ◌||◌, Option, none, some, List, [], ◌∷◌, ◌++◌, ◌==◌,
  if◌then◌else◌, ◌>>=◌,
}
use horizon_cast.Base.Text.{
  Text, text, same, is_empty, is_some, to_ascii_lowercase, split_once, first_part, trim, parse_u16,
}
use horizon_cast.Upnp.{
  XmlEvent, DeviceDescription, cut_at, contains, resolve_url, parse_device_description,
}
use horizon_cast.Discovery.Registry.{IpAddr, same_addr, dlna, Observation, DeviceRegistry, observe}

abbrev pub search_target : Text
search_target = text "urn:schemas-upnp-org:device:MediaRenderer:1"

abbrev pub msearch_packet : Text
msearch_packet =
    text
      "M-SEARCH * HTTP/1.1\r\nHOST: 239.255.255.250:1900\r\nMAN: \"ssdp:discover\"\r\nMX: 2\r\nST: "
    ++ (search_target ++ text "\r\n\r\n")

pub record SsdpResponse : Type 0 where
  pub location : Option Text
  pub usn : Option Text
  pub server : Option Text
  pub st : Option Text

abbrev pub no_response : SsdpResponse
no_response = record { location = none; usn = none; server = none; st = none }

abbrev onto_line : ℕ → List Text → List Text
onto_line c [] = (c ∷ []) ∷ []
onto_line c (line ∷ rest) = (c ∷ line) ∷ rest

-- `str::lines`: a line ends with a line feed, and a carriage return before it is cut off.
unfoldable pub lines : Text → List Text
lines [] = []
lines (c ∷ []) = if c == 10 then [] ∷ [] else (c ∷ []) ∷ []
lines (c ∷ d ∷ s) = elim (c == 10) [
  | true ↦ [] ∷ lines (d ∷ s)
  | false ↦ elim (c == 13 && d == 10) [ true ↦ [] ∷ lines s | false ↦ onto_line c (lines (d ∷ s)) ]
]

-- One header; a later one of the same name replaces it.
unfoldable pub set_header : Text → Text → SsdpResponse → SsdpResponse
set_header key value r =
    if same key (text "location")
    then record r { location = some value }
    else if same key (text "usn")
    then record r { usn = some value }
    else if same key (text "server")
    then record r { server = some value }
    else if same key (text "st") || same key (text "nt")
    then record r { st = some value }
    else r

abbrev on_header : Option (Text × Text) → SsdpResponse → SsdpResponse
on_header none r = r
on_header (some (key, value)) r =
    if is_empty (trim value) then r else set_header (to_ascii_lowercase (trim key)) (trim value) r

unfoldable pub read_lines : List Text → SsdpResponse → SsdpResponse
read_lines [] r = r
read_lines (line ∷ rest) r = read_lines rest (on_header (split_once b':' line) r)

unfoldable pub parse_ssdp_response : Text → SsdpResponse
parse_ssdp_response raw = read_lines (lines raw) no_response

abbrev names_renderer : Option Text → Bool
names_renderer none = false
names_renderer (some v) = contains (to_ascii_lowercase v) (text "mediarenderer")

unfoldable pub is_media_renderer : SsdpResponse → Bool
is_media_renderer r = names_renderer r.st || names_renderer r.usn

-- `split("://").nth(1)`: what is between the first place and the second.
abbrev pub second_piece : Option (Text × Text) → Option Text
second_piece none = none
second_piece (some (_, after)) = some (up_to (cut_at (text "://") after))
  where
    up_to : Option (Text × Text) → Text
    up_to none = after
    up_to (some (piece, _)) = piece

-- `rsplit_once`.
abbrev pub rsplit_once : ℕ → Text → Option (Text × Text)
rsplit_once sep s =
    split_once sep (reverse s) >>= λ (back, front). some (reverse front, reverse back)

unfoldable pub port_from_location : Text → Option ℕ
port_from_location location = second_piece (cut_at (text "://") location) >>= λ after_scheme.
    rsplit_once b':' (first_part b'/' after_scheme) >>= λ (_, port). parse_u16 port

pub record Datagram : Type 0 where
  pub src : IpAddr
  pub raw : Text
  pub now : ℕ

abbrev pub Renderers : Type 0
Renderers = List (IpAddr × Option Text)

-- `renderers.entry(addr).or_insert(location)`.
unfoldable pub or_insert : IpAddr → Option Text → Renderers → Renderers
or_insert a location [] = (a, location) ∷ []
or_insert a location ((k, l) ∷ rest) =
    let later = or_insert a location rest in if same_addr k a then (k, l) ∷ rest else (k, l) ∷ later

-- The sighting that a renderer's response is.
abbrev pub response_sighting : IpAddr → SsdpResponse → Observation
response_sighting src r = record {
  address = src;
  port = get_or (r.location >>= port_from_location) 0;
  name = none;
  stable_id = r.usn;
  protocol = dlna;
  dlna_control_url = none;
  dlna_location = r.location;
}

pub record Search : Type 0 where
  pub registry : DeviceRegistry
  pub renderers : Renderers

-- What a response does, if it is a renderer's.
abbrev pub on_response : Datagram → SsdpResponse → Search → Search
on_response d r s =
    if is_media_renderer r
    then record {
      registry = observe (response_sighting d.src r) d.now s.registry;
      renderers = or_insert d.src r.location s.renderers;
    }
    else s

-- The receive loop of `search`, over the datagrams of the window.
unfoldable pub receive : List Datagram → Search → Search
receive [] s = s
receive (d ∷ ds) s = receive ds (on_response d (parse_ssdp_response d.raw) s)

-- A fetched description of a renderer: its address, the location it was fetched from, and the time.
pub record Fetched : Type 0 where
  pub address : IpAddr
  pub location : Text
  pub xml : List XmlEvent
  pub now : ℕ

abbrev pub control_url_of : Fetched → Option Text
control_url_of f =
    (parse_device_description f.xml).av_transport_control_url >>= resolve_url f.location

abbrev pub description_sighting : Fetched → Observation
description_sighting f = record {
  address = f.address;
  port = 0;
  name = (parse_device_description f.xml).friendly_name;
  stable_id = none;
  protocol = dlna;
  dlna_control_url = control_url_of f;
  dlna_location = none;
}

abbrev pub tells_something : Fetched → Bool
tells_something f =
    is_some (parse_device_description f.xml).friendly_name || is_some (control_url_of f)

-- The tasks of `enrich_names` whose fetch succeeds, in the order in which they get the registry.
unfoldable pub enrich : List Fetched → DeviceRegistry → DeviceRegistry
enrich [] r = r
enrich (f ∷ fs) r =
    enrich fs (if tells_something f then observe (description_sighting f) f.now r else r)
