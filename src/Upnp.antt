-- ===== src/Upnp.antt =====
-- UPnP control, crates/hc-net/src/upnp.rs: the fields of a device description, the URL of its
-- service, and the SOAP and DIDL documents. The description is given as the events that the XML
-- reader makes of it.
pub mod Documents
pub mod Describe
pub mod Tests
use horizon_cast.Base.{
  ℕ, Bool, true, false, not, ◌&&◌, ◌||◌, Option, none, some, List, [], ◌∷◌, ◌++◌, ◌==◌,
  if◌then◌else◌, ◌>>=◌,
}
use horizon_cast.Base.Text.{
  Text, text, same, is_empty, is_some, strip_prefix, starts_with, first_part, trim,
}
use horizon_cast.MediaServer.{dlna_content_features}

abbrev pub av_transport : Text
av_transport = text "urn:schemas-upnp-org:service:AVTransport:1"

-- `DLNA_LIVE_FEATURES` of live_stream.rs.
abbrev pub dlna_live_features : Text
dlna_live_features =
    text "DLNA.ORG_OP=00;DLNA.ORG_CI=0;DLNA.ORG_FLAGS=0D500000000000000000000000000000"

-- The text before the first place of the needle and behind it, as `str::find` cuts it.
unfoldable pub cut_at : Text → Text → Option (Text × Text)
cut_at needle [] = none
cut_at needle (c ∷ s) =
    choose (strip_prefix needle (c ∷ s)) (cut_at needle s >>= λ (l, r). some (c ∷ l, r))
  where
    choose : Option Text → Option (Text × Text) → Option (Text × Text)
    choose none later = later
    choose (some rest) later = some ([], rest)

unfoldable pub contains : Text → Text → Bool
contains s needle = is_some (cut_at needle s)

pub record DeviceDescription : Type 0 where
  pub friendly_name : Option Text
  pub av_transport_control_url : Option Text

pub data Field : Type 0 where
  no_field friendly service_type control_url : Field

-- What the reader gives: the local name of a tag, a text (none if its content is bad), or another
-- event. The list ends where the reader does, at the end of the document or at an error.
pub data XmlEvent : Type 0 where
  start end : Text → XmlEvent
  chars : Option Text → XmlEvent
  other : XmlEvent

-- The variables of the loop.
pub record Scan : Type 0 where
  pub desc : DeviceDescription
  pub field : Field
  pub in_service : Bool
  pub svc_type : Text
  pub svc_ctrl : Text

abbrev pub scan_start : Scan
scan_start = record {
  desc = record { friendly_name = none; av_transport_control_url = none };
  field = no_field;
  in_service = false;
  svc_type = [];
  svc_ctrl = [];
}

unfoldable pub on_start : Text → Scan → Scan
on_start name s =
    if same name (text "service")
    then record s { in_service = true; svc_type = []; svc_ctrl = [] }
    else if same name (text "friendlyName")
    then record s { field = friendly }
    else if same name (text "serviceType") && s.in_service
    then record s { field = service_type }
    else if same name (text "controlURL") && s.in_service
    then record s { field = control_url }
    else s

-- The first name that is not blank.
abbrev pub first_name : Option Text → Text → Option Text
first_name none txt = if is_empty (trim txt) then none else some (trim txt)
first_name (some name) txt = some name

abbrev pub on_field : Field → Text → Scan → Scan
on_field no_field txt s = s
on_field friendly txt s = record s {
  desc = record s.desc { friendly_name = first_name s.desc.friendly_name txt };
}
on_field service_type txt s = record s { svc_type = s.svc_type ++ trim txt }
on_field control_url txt s = record s { svc_ctrl = s.svc_ctrl ++ trim txt }

unfoldable pub on_text : Option Text → Scan → Scan
on_text none s = s
on_text (some txt) s = on_field s.field txt s

-- The URL of the first AVTransport service that has one.
unfoldable pub first_url : Option Text → Bool → Text → Text → Option Text
first_url none in_service svc_type svc_ctrl =
    if in_service && contains svc_type (text "AVTransport") && not (is_empty svc_ctrl)
    then some svc_ctrl
    else none
first_url (some url) in_service svc_type svc_ctrl = some url

unfoldable pub on_end : Text → Scan → Scan
on_end name s =
    if same name (text "service")
    then record s {
      desc = record s.desc {
        av_transport_control_url =
            first_url s.desc.av_transport_control_url s.in_service s.svc_type s.svc_ctrl;
      };
      in_service = false;
    }
    else if same name (text "friendlyName")
        || same name (text "serviceType")
        || same name (text "controlURL")
    then record s { field = no_field }
    else s

abbrev pub on_event : XmlEvent → Scan → Scan
on_event (start name) s = on_start name s
on_event (end name) s = on_end name s
on_event (chars txt) s = on_text txt s
on_event other s = s

unfoldable pub scan : List XmlEvent → Scan → Scan
scan [] s = s
scan (e ∷ es) s = scan es (on_event e s)

unfoldable pub parse_device_description : List XmlEvent → DeviceDescription
parse_device_description es = (scan es scan_start).desc

unfoldable pub resolve_url : Text → Text → Option Text
resolve_url location url =
    if starts_with (text "http://") url || starts_with (text "https://") url
    then some url
    else (cut_at (text "://") location >>= λ (scheme, after).
        let base = scheme ++ (text "://" ++ first_part b'/' after) in
        some (if starts_with (text "/") url then base ++ url else base ++ (b'/' ∷ url)))

unfoldable pub escape_char : ℕ → Text
escape_char c =
    if c == b'&'
    then text "&amp;"
    else if c == b'<'
    then text "&lt;"
    else if c == b'>'
    then text "&gt;"
    else if c == b'"'
    then text "&quot;"
    else if c == b'\''
    then text "&apos;"
    else c ∷ []

unfoldable pub xml_escape : Text → Text
xml_escape [] = []
xml_escape (c ∷ s) = escape_char c ++ xml_escape s

unfoldable pub didl_with_protocol_info : Text → Text → Text → Text
didl_with_protocol_info title uri protocol_info =
    text
      "<DIDL-Lite xmlns=\"urn:schemas-upnp-org:metadata-1-0/DIDL-Lite/\" xmlns:dc=\"http://purl.org/dc/elements/1.1/\" xmlns:upnp=\"urn:schemas-upnp-org:metadata-1-0/upnp/\"><item id=\"0\" parentID=\"-1\" restricted=\"1\"><dc:title>"
    ++ (xml_escape title
        ++ (text "</dc:title><upnp:class>object.item.videoItem</upnp:class><res protocolInfo=\""
            ++ (xml_escape protocol_info
                ++ (text "\">" ++ (xml_escape uri ++ text "</res></item></DIDL-Lite>")))))

abbrev pub protocol_info : Text → Text → Text
protocol_info mime features = text "http-get:*:" ++ (mime ++ (b':' ∷ features))

abbrev pub didl_lite_video : Text → Text → Text → Text
didl_lite_video title uri mime =
    didl_with_protocol_info title uri (protocol_info mime dlna_content_features)

abbrev pub didl_lite_live_video : Text → Text → Text → Text
didl_lite_live_video title uri mime =
    didl_with_protocol_info title uri (protocol_info mime dlna_live_features)

unfoldable pub soap_envelope : Text → Text → Text
soap_envelope action inner =
    text
      "<?xml version=\"1.0\" encoding=\"utf-8\"?><s:Envelope xmlns:s=\"http://schemas.xmlsoap.org/soap/envelope/\" s:encodingStyle=\"http://schemas.xmlsoap.org/soap/encoding/\"><s:Body><u:"
    ++ (action
        ++ (text " xmlns:u=\""
            ++ (av_transport
                ++ (text "\">"
                    ++ (inner ++ (text "</u:" ++ (action ++ text "></s:Body></s:Envelope>")))))))

unfoldable pub build_set_av_transport_uri : Text → Text → Text
build_set_av_transport_uri uri didl_metadata = soap_envelope (text "SetAVTransportURI") (
    text "<InstanceID>0</InstanceID><CurrentURI>"
    ++ (xml_escape uri
        ++ (text "</CurrentURI><CurrentURIMetaData>"
            ++ (xml_escape didl_metadata ++ text "</CurrentURIMetaData>"))))

abbrev pub build_play : Text
build_play = soap_envelope (text "Play") (text "<InstanceID>0</InstanceID><Speed>1</Speed>")

abbrev pub build_stop : Text
build_stop = soap_envelope (text "Stop") (text "<InstanceID>0</InstanceID>")

abbrev pub soap_action_header : Text → Text
soap_action_header action = b'"' ∷ (av_transport ++ (b'#' ∷ (action ++ text "\"")))
