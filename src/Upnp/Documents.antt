-- ===== src/Upnp/Documents.antt =====
-- The documents, read back: what an XML reader finds in the elements.
use horizon_cast.Base.{
  ℕ, zero, suc, ◌≤◌, ◌≡◌, refl, ap, ◌∙◌, true, false, Option, none, some, [], ◌∷◌, ◌++◌, ◌==◌,
  ◌>>=◌, length, arith, All-append, length-append, append_assoc,
}
use horizon_cast.Base.Text.{Text, text, strip_prefix, first_part}
use horizon_cast.Base.Text.Cut.{Lacks}
use horizon_cast.Upnp.{
  escape_char, xml_escape, didl_with_protocol_info, soap_envelope, build_set_av_transport_uri,
}

abbrev or_else : Option Text → Option Text → Option Text
or_else none later = later
or_else (some s) later = some s

-- The text behind the first place of the needle.
behind : Text → Text → Option Text
behind needle [] = none
behind needle (c ∷ s) = or_else (strip_prefix needle (c ∷ s)) (behind needle s)

abbrev read_as : ℕ → Option Text → Option (ℕ × Text) → Option (ℕ × Text)
read_as c none later = later
read_as c (some rest) later = some (c, rest)

-- The entities of XML, behind their ampersand.
abbrev entity : Text → Option (ℕ × Text)
entity s = read_as b'&' (strip_prefix (text "amp;") s) (
    read_as b'<' (strip_prefix (text "lt;") s) (
      read_as b'>' (strip_prefix (text "gt;") s) (
        read_as b'"' (strip_prefix (text "quot;") s)
          (read_as b'\'' (strip_prefix (text "apos;") s) none))))

abbrev push : ℕ → Option Text → Option Text
push c rest = rest >>= λ s. some (c ∷ s)

-- Character data, or the value of an attribute, with its entities read. A bare delimiter is an
-- error, and a text has no more characters than its length.
unescape : ℕ → Text → Option Text
unescape fuel [] = some []
unescape zero (c ∷ s) = none
unescape (suc fuel) (c ∷ s) = elim (c == b'&') [
  | true ↦ entity s >>= λ (x, rest). push x (unescape fuel rest)
  | false ↦ elim (c == b'<') [ true ↦ none | false ↦ push c (unescape fuel s) ]
]

-- The content of the first element of the name, which has no attributes and no children.
pub read_element : Text → Text → Option Text
read_element tag doc = behind (b'<' ∷ (tag ++ text ">")) doc >>= λ rest.
    let content = first_part b'<' rest in unescape (length content) content

escape_char-Lacks : (c : ℕ) → Lacks b'<' (escape_char c)
unfolding escape_char
escape_char-Lacks c = ground arith

xml_escape-Lacks : (s : Text) → Lacks b'<' (xml_escape s)
unfolding xml_escape
xml_escape-Lacks [] = tt
xml_escape-Lacks (c ∷ s) =
    All-append _ (escape_char c) (xml_escape s) (escape_char-Lacks c) (xml_escape-Lacks s)

unescape-escape_char :
    (fuel c : ℕ) (rest : Text)
    → unescape (suc fuel) (escape_char c ++ rest) ≡ push c (unescape fuel rest)
unfolding unescape escape_char strip_prefix
unescape-escape_char fuel c rest = ground arith

unescape-xml_escape :
    (s : Text) (fuel : ℕ) → length s ≤ fuel → unescape fuel (xml_escape s) ≡ some s
unfolding xml_escape
unescape-xml_escape [] fuel h = unfold unescape in refl
unescape-xml_escape (c ∷ s) zero h = absurd (omega arith)
unescape-xml_escape (c ∷ s) (suc fuel) h =
    rw (unescape-escape_char fuel c (xml_escape s), unescape-xml_escape s fuel (omega arith)) refl

escape_char-length : (c : ℕ) → 1 ≤ length (escape_char c)
unfolding escape_char
escape_char-length c = ground arith

length-xml_escape : (s : Text) → length s ≤ length (xml_escape s)
unfolding xml_escape
length-xml_escape [] = omega arith
length-xml_escape (c ∷ s) =
    omega (
      arith,
      length-append (escape_char c) (xml_escape s),
      escape_char-length c,
      length-xml_escape s,
    )

first_part-append : (e rest : Text) → Lacks b'<' e → first_part b'<' (e ++ b'<' ∷ rest) ≡ e
unfolding first_part
first_part-append [] rest h = ground arith
first_part-append (c ∷ e) rest h = ground (arith, first_part-append e rest h.1)

behind_skip :
    (needle e rest : Text)
    → Lacks b'<' e
    → behind (b'<' ∷ needle) (e ++ rest) ≡ behind (b'<' ∷ needle) rest
unfolding behind strip_prefix
behind_skip needle [] rest h = refl
behind_skip needle (c ∷ e) rest h =
    let apart : (b'<' == c) ≡ false = ground arith in rw apart (behind_skip needle e rest h.1)

-- An element whose content is an escaped text gives that text.
read_element_escaped :
    (tag doc v rest : Text)
    → behind (b'<' ∷ (tag ++ text ">")) doc ≡ some (xml_escape v ++ b'<' ∷ rest)
    → read_element tag doc ≡ some v
unfolding read_element
read_element_escaped tag doc v rest h =
    rw (h, ◌>>=◌, first_part-append (xml_escape v) rest (xml_escape-Lacks v))
      (unescape-xml_escape v (length (xml_escape v)) (length-xml_escape v))

abbrev ending : Text
ending = text "</u:SetAVTransportURI></s:Body></s:Envelope>"

module _ (uri didl : Text) where
  abbrev escaped_uri : Text
  escaped_uri = xml_escape uri

  abbrev metadata : Text
  metadata = xml_escape didl ++ text "</CurrentURIMetaData>"

  abbrev between : Text
  between = text "</CurrentURI><CurrentURIMetaData>" ++ metadata

  uri_behind :
      behind (text "<CurrentURI>") (build_set_av_transport_uri uri didl)
      ≡ some (escaped_uri ++ (between ++ ending))
  unfolding behind strip_prefix build_set_av_transport_uri soap_envelope
  uri_behind = ap some (append_assoc escaped_uri between ending)

  metadata_behind :
      behind (text "<CurrentURIMetaData>") (build_set_av_transport_uri uri didl)
      ≡ some (xml_escape didl ++ (text "</CurrentURIMetaData>" ++ ending))
  unfolding behind strip_prefix build_set_av_transport_uri soap_envelope
  metadata_behind =
      ap (behind (text "<CurrentURIMetaData>")) (append_assoc escaped_uri between ending)
      ∙ behind_skip (text "CurrentURIMetaData>") escaped_uri (between ++ ending)
          (xml_escape-Lacks uri)
      ∙ ap some (append_assoc (xml_escape didl) (text "</CurrentURIMetaData>") ending)

  -- A renderer reads from the request to load a medium the very URI and the very metadata, whatever
  -- markup they contain.
  pub read_element-build_set_av_transport_uri :
      (read_element (text "CurrentURI") (build_set_av_transport_uri uri didl) ≡ some uri)
      × (read_element (text "CurrentURIMetaData") (build_set_av_transport_uri uri didl) ≡ some didl)
  read_element-build_set_av_transport_uri = (
    read_element_escaped (text "CurrentURI") (build_set_av_transport_uri uri didl) uri
        (text "/CurrentURI><CurrentURIMetaData>" ++ (metadata ++ ending)) uri_behind,
    read_element_escaped (text "CurrentURIMetaData") (build_set_av_transport_uri uri didl) didl
        (text "/CurrentURIMetaData>" ++ ending) metadata_behind,
  )

-- The title of an item is read back from its DIDL document, whatever markup it contains.
pub read_element-didl_with_protocol_info :
    (title uri protocol_info : Text)
    → read_element (text "dc:title") (didl_with_protocol_info title uri protocol_info) ≡ some title
read_element-didl_with_protocol_info title uri protocol_info =
    let after =
      text "/dc:title><upnp:class>object.item.videoItem</upnp:class><res protocolInfo=\""
      ++ (xml_escape protocol_info
          ++ (text "\">" ++ (xml_escape uri ++ text "</res></item></DIDL-Lite>"))) in
    let found : behind (text "<dc:title>") (didl_with_protocol_info title uri protocol_info)
        ≡ some (xml_escape title ++ b'<' ∷ after) =
      unfold behind in unfold strip_prefix in unfold didl_with_protocol_info in refl in
    read_element_escaped (text "dc:title") (didl_with_protocol_info title uri protocol_info) title
      after found
