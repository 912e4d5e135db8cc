-- ===== src/Discovery/Tests.antt =====
-- Responses and names off the network, and the theorems applied to them.
use horizon_cast.Discovery.Service.{Service, Pass, passes, started, current}
use horizon_cast.Discovery.Service.Published.{IsPublished, seen_by, passes-IsPublished}
use horizon_cast.Base.{◌≡◌, refl, true, none, some, List, [], ◌∷◌}
use horizon_cast.Base.Text.{
  Text, text, same, trim, split_once, first_part, strip_prefix, to_ascii_lowercase_char,
  parse_unsigned,
}
use horizon_cast.Upnp.{cut_at, contains, start, end, chars}
use horizon_cast.Discovery.Registry.{
  IpAddr, v4, dlna, Observation, Entry, entry_at, same_addr, fresh_entry, seen, run,
}
use horizon_cast.Discovery.Registry.History.{sightings, Keeps}
use horizon_cast.Discovery.Ssdp.{
  msearch_packet, is_media_renderer, parse_ssdp_response, lines, read_lines, set_header,
  port_from_location, Datagram, Search, receive, Fetched, enrich,
}
use horizon_cast.Discovery.Ssdp.Feed.{heard, told, enrich-receive-Keeps}
use horizon_cast.Discovery.Mdns.{drop_dots}

abbrev answer : Text
answer =
    text
      "HTTP/1.1 200 OK\r\nLOCATION: http://10.0.0.2:9197/d.xml\r\nusn: uuid:tv\r\nST: urn:MediaRenderer:1\r\n\r\n"

answer_parses : parse_ssdp_response answer ≡ record {
  location = some (text "http://10.0.0.2:9197/d.xml");
  usn = some (text "uuid:tv");
  server = none;
  st = some (text "urn:MediaRenderer:1");
}
unfolding parse_ssdp_response lines read_lines set_header split_once trim same
    to_ascii_lowercase_char
answer_parses = refl

a_port : port_from_location (text "http://[::1]:9197/desc.xml") ≡ some 9197
unfolding port_from_location cut_at strip_prefix split_once first_part parse_unsigned
a_port = refl

-- A search that comes back to its sender names the target, and so reads as a renderer's response.
own_search : is_media_renderer (parse_ssdp_response msearch_packet) ≡ true
unfolding is_media_renderer parse_ssdp_response lines read_lines set_header split_once trim same
    to_ascii_lowercase_char contains cut_at strip_prefix
own_search = refl

abbrev tv : IpAddr
tv = v4 167_772_162

abbrev heard_before : Observation
heard_before = record {
  address = tv;
  port = 7000;
  name = some (text "TV");
  stable_id = none;
  protocol = dlna;
  dlna_control_url = none;
  dlna_location = none;
}

abbrev entry : Entry
entry = seen heard_before 1 (fresh_entry 1)

abbrev searching : Search
searching = record { registry = record { ttl = 30; entries = (tv, entry) ∷ [] }; renderers = [] }

abbrev datagrams : List Datagram
datagrams = record { src = tv; raw = answer; now = 2 } ∷ []

abbrev fetched : List Fetched
fetched =
    record {
      address = tv;
      location = text "http://10.0.0.2:9197/d.xml";
      xml =
          start (text "friendlyName")
          ∷ chars (some (text "Lounge"))
          ∷ end (text "friendlyName")
          ∷ [];
      now = 3;
    }
    ∷ []

known_before : entry_at tv searching.registry.entries ≡ some entry
unfolding entry_at same_addr
known_before = refl

enrich-receive-Keeps_example :
    (e' : Entry) × (entry_at tv (enrich fetched (receive datagrams searching).registry).entries
      ≡ some e')
    × (enrich fetched (receive datagrams searching).registry
        ≡ run (run searching.registry (sightings (heard datagrams))) (sightings (told fetched)))
    × Keeps entry e'
enrich-receive-Keeps_example =
    enrich-receive-Keeps datagrams fetched searching tv entry known_before

no_dots_end : drop_dots (text "mooR gniviL") ≡ text "mooR gniviL"
unfolding drop_dots
no_dots_end = refl

abbrev sighted_tv : Observation
sighted_tv = record {
  address = v4 7;
  port = 80;
  name = some (text "TV");
  stable_id = none;
  protocol = dlna;
  dlna_control_url = none;
  dlna_location = none;
}

-- A pass that sights a device, and one 20 seconds later that sights none.
abbrev first_pass : Pass
first_pass = record { sighted = (sighted_tv, 1) ∷ []; ends = 3_000_000_000 }

abbrev empty_pass : Pass
empty_pass = record { sighted = []; ends = 23_000_000_000 }

passes-IsPublished_example :
    (s : Service) × (passes (first_pass ∷ empty_pass ∷ []) started ≡ some s)
    × IsPublished s
    × (current s ≡ some (seen_by s.sent))
passes-IsPublished_example =
    passes-IsPublished first_pass (empty_pass ∷ []) started (record { held = refl; changes = tt })
