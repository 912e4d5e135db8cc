-- ===== src/Upnp/Describe.antt =====
-- The scan of a description: the device's name, and the first AVTransport service with a URL. The
-- events are those of any document whose elements of interest hold text only: others stand anywhere
-- between them, and each may be cut into several texts.
use horizon_cast.Base.{
  ◌≡◌, refl, ap, ap₂, ◌∙◌, sym, Bool, true, false, not, ◌&&◌, Option, none, some, List, [], ◌∷◌,
  ◌++◌, All, append_assoc, append-nil, if◌then◌else◌, arith, Bool-cases, inl, inr,
}
use horizon_cast.Base.Text.{Text, text, same, is_empty, trim}
use horizon_cast.Upnp.{
  contains, DeviceDescription, XmlEvent, start, end, chars, other, Field, no_field, friendly,
  service_type, control_url, Scan, on_start, on_text, on_end, on_event, first_name, first_url, scan,
  parse_device_description,
}

-- What stands in an element: texts, and what the reader gives between them, as for a reference.
abbrev pub Pieces : Type 0
Pieces = List (Option Text)

abbrev piece_event : Option Text → XmlEvent
piece_event none = other
piece_event (some t) = chars (some t)

abbrev pub piece_events : Pieces → List XmlEvent → List XmlEvent
piece_events [] rest = rest
piece_events (p ∷ ps) rest = piece_event p ∷ piece_events ps rest

abbrev pub element : Text → Pieces → List XmlEvent → List XmlEvent
element name ps rest = start name ∷ piece_events ps (end name ∷ rest)

-- A part of a `service`, and a part of the document outside of services.
pub data Child : Type 0 where
  type_of url_of_service : Pieces → Child
  noise : XmlEvent → Child

pub data Item : Type 0 where
  named : Pieces → Item
  service : List Child → Item
  outside : XmlEvent → Item

abbrev pub child_events : List Child → List XmlEvent → List XmlEvent
child_events [] rest = rest
child_events (type_of ps ∷ cs) rest = element (text "serviceType") ps (child_events cs rest)
child_events (url_of_service ps ∷ cs) rest = element (text "controlURL") ps (child_events cs rest)
child_events (noise e ∷ cs) rest = e ∷ child_events cs rest

abbrev pub item_events : List Item → List XmlEvent
item_events [] = []
item_events (named ps ∷ is) = element (text "friendlyName") ps (item_events is)
item_events (service cs ∷ is) =
    start (text "service") ∷ child_events cs (end (text "service") ∷ item_events is)
item_events (outside e ∷ is) = e ∷ item_events is

-- What may stand outside of the names and services: all but their starts, so also a type or a URL.
abbrev pub IsOutside : XmlEvent → Type 0
IsOutside (start name) =
    (same name (text "service") ≡ false) × (same name (text "friendlyName") ≡ false)
IsOutside _ = Unit {0}

-- What may stand in a service beside its types and URLs.
abbrev pub IsNoise : XmlEvent → Type 0
IsNoise (start name) =
    (same name (text "service") ≡ false)
    × (same name (text "friendlyName") ≡ false)
    × (same name (text "serviceType") ≡ false)
    × (same name (text "controlURL") ≡ false)
IsNoise (end name) = same name (text "service") ≡ false
IsNoise _ = Unit {0}

abbrev pub IsChild : Child → Type 0
IsChild (noise e) = IsNoise e
IsChild _ = Unit {0}

abbrev pub IsItem : Item → Type 0
IsItem (service cs) = All IsChild cs
IsItem (outside e) = IsOutside e
IsItem (named ps) = Unit {0}

-- The texts of the pieces, each without surrounding blanks, one behind the other.
abbrev pub joined : Pieces → Text
joined [] = []
joined (none ∷ ps) = joined ps
joined (some t ∷ ps) = trim t ++ joined ps

abbrev pub or_else : Option Text → Option Text → Option Text
or_else none later = later
or_else (some t) later = some t

-- The first piece that is not blank.
abbrev pub first_piece : Pieces → Option Text
first_piece [] = none
first_piece (none ∷ ps) = first_piece ps
first_piece (some t ∷ ps) = if is_empty (trim t) then first_piece ps else some (trim t)

abbrev pub name_of : List Item → Option Text
name_of [] = none
name_of (named ps ∷ is) = or_else (first_piece ps) (name_of is)
name_of (_ ∷ is) = name_of is

-- The type and the URL of a service.
abbrev pub type_text : List Child → Text
type_text [] = []
type_text (type_of ps ∷ cs) = joined ps ++ type_text cs
type_text (_ ∷ cs) = type_text cs

abbrev pub url_text : List Child → Text
url_text [] = []
url_text (url_of_service ps ∷ cs) = joined ps ++ url_text cs
url_text (_ ∷ cs) = url_text cs

-- The URL of a service that is an AVTransport and has one.
abbrev pub service_url : List Child → Option Text
service_url cs =
    if contains (type_text cs) (text "AVTransport") && not (is_empty (url_text cs))
    then some (url_text cs)
    else none

abbrev pub url_of : List Item → Option Text
url_of [] = none
url_of (service cs ∷ is) = or_else (service_url cs) (url_of is)
url_of (_ ∷ is) = url_of is

-- The variables of the loop in a field, inside or outside of a service.
abbrev at : Field → Bool → Option Text → Option Text → Text → Text → Scan
at field inside name url ty ctrl = record {
  desc = record { friendly_name = name; av_transport_control_url = url };
  field = field;
  in_service = inside;
  svc_type = ty;
  svc_ctrl = ctrl;
}

first_url_outside : (url : Option Text) (ty ctrl : Text) → first_url url false ty ctrl ≡ url
unfolding first_url
first_url_outside none ty ctrl = refl
first_url_outside (some u) ty ctrl = refl

module _ (name url : Option Text) (ty ctrl : Text) where
  on_event-IsOutside :
      (e : XmlEvent)
      → IsOutside e
      → on_event e (at no_field false name url ty ctrl) ≡ at no_field false name url ty ctrl
  unfolding on_start on_text on_end
  on_event-IsOutside (start n) h = ground arith
  on_event-IsOutside (end n) h = let kept = first_url_outside url ty ctrl in ground (arith, kept)
  on_event-IsOutside (chars none) h = refl
  on_event-IsOutside (chars (some t)) h = refl
  on_event-IsOutside other h = refl

  on_event-IsNoise :
      (e : XmlEvent)
      → IsNoise e
      → on_event e (at no_field true name url ty ctrl) ≡ at no_field true name url ty ctrl
  unfolding on_start on_text on_end
  on_event-IsNoise (start n) (h1, h2, h3, h4) = ground arith
  on_event-IsNoise (end n) h = ground arith
  on_event-IsNoise (chars none) h = refl
  on_event-IsNoise (chars (some t)) h = refl
  on_event-IsNoise other h = refl

or_none : (u : Option Text) → u ≡ or_else u none
or_none none = refl
or_none (some u) = refl

or_else_assoc : (a b c : Option Text) → or_else (or_else a b) c ≡ or_else a (or_else b c)
or_else_assoc none b c = refl
or_else_assoc (some a) b c = refl

first_name_or :
    (name : Option Text) (t : Text) (ps : Pieces)
    → or_else (first_name name t) (first_piece ps) ≡ or_else name (first_piece (some t ∷ ps))
first_name_or none t ps = elim (Bool-cases (is_empty (trim t))) [
  | inl blank ↦ rw blank refl
  | inr shown ↦ rw shown refl
]
first_name_or (some name) t ps = refl

-- The pieces of a name, of a type, and of a URL.
scan_name :
    (ps : Pieces) (rest : List XmlEvent) (inside : Bool) (name url : Option Text) (ty ctrl : Text)
    → scan (piece_events ps rest) (at friendly inside name url ty ctrl)
      ≡ scan rest (at friendly inside (or_else name (first_piece ps)) url ty ctrl)
unfolding scan on_text
scan_name [] rest inside name url ty ctrl =
    ap (λ (n : Option Text). scan rest (at friendly inside n url ty ctrl)) (or_none name)
scan_name (none ∷ ps) rest inside name url ty ctrl = scan_name ps rest inside name url ty ctrl
scan_name (some t ∷ ps) rest inside name url ty ctrl =
    scan_name ps rest inside (first_name name t) url ty ctrl
    ∙ ap (λ (n : Option Text). scan rest (at friendly inside n url ty ctrl))
        (first_name_or name t ps)

scan_type :
    (ps : Pieces) (rest : List XmlEvent) (name url : Option Text) (ty ctrl : Text)
    → scan (piece_events ps rest) (at service_type true name url ty ctrl)
      ≡ scan rest (at service_type true name url (ty ++ joined ps) ctrl)
unfolding scan on_text
scan_type [] rest name url ty ctrl =
    ap (λ (t : Text). scan rest (at service_type true name url t ctrl)) (sym (append-nil ty))
scan_type (none ∷ ps) rest name url ty ctrl = scan_type ps rest name url ty ctrl
scan_type (some t ∷ ps) rest name url ty ctrl =
    scan_type ps rest name url (ty ++ trim t) ctrl
    ∙ ap (λ (u : Text). scan rest (at service_type true name url u ctrl))
        (append_assoc ty (trim t) (joined ps))

scan_url :
    (ps : Pieces) (rest : List XmlEvent) (name url : Option Text) (ty ctrl : Text)
    → scan (piece_events ps rest) (at control_url true name url ty ctrl)
      ≡ scan rest (at control_url true name url ty (ctrl ++ joined ps))
unfolding scan on_text
scan_url [] rest name url ty ctrl =
    ap (λ (t : Text). scan rest (at control_url true name url ty t)) (sym (append-nil ctrl))
scan_url (none ∷ ps) rest name url ty ctrl = scan_url ps rest name url ty ctrl
scan_url (some t ∷ ps) rest name url ty ctrl =
    scan_url ps rest name url ty (ctrl ++ trim t)
    ∙ ap (λ (u : Text). scan rest (at control_url true name url ty u))
        (append_assoc ctrl (trim t) (joined ps))

-- The parts of a service add to its type and its URL.
scan_children :
    (cs : List Child) (rest : List XmlEvent) (name url : Option Text) (ty ctrl : Text)
    → All IsChild cs
    → scan (child_events cs rest) (at no_field true name url ty ctrl)
      ≡ scan rest (at no_field true name url (ty ++ type_text cs) (ctrl ++ url_text cs))
unfolding scan on_start on_end same
scan_children [] rest name url ty ctrl h =
    ap₂ (λ (t u : Text). scan rest (at no_field true name url t u)) (sym (append-nil ty))
      (sym (append-nil ctrl))
scan_children (type_of ps ∷ cs) rest name url ty ctrl (h, hs) =
    scan_type ps (end (text "serviceType") ∷ child_events cs rest) name url ty ctrl
    ∙ scan_children cs rest name url (ty ++ joined ps) ctrl hs
    ∙ ap (λ (t : Text). scan rest (at no_field true name url t (ctrl ++ url_text cs)))
        (append_assoc ty (joined ps) (type_text cs))
scan_children (url_of_service ps ∷ cs) rest name url ty ctrl (h, hs) =
    scan_url ps (end (text "controlURL") ∷ child_events cs rest) name url ty ctrl
    ∙ scan_children cs rest name url ty (ctrl ++ joined ps) hs
    ∙ ap (λ (u : Text). scan rest (at no_field true name url (ty ++ type_text cs) u))
        (append_assoc ctrl (joined ps) (url_text cs))
scan_children (noise e ∷ cs) rest name url ty ctrl (h, hs) =
    ap (scan (child_events cs rest)) (on_event-IsNoise name url ty ctrl e h)
    ∙ scan_children cs rest name url ty ctrl hs

first_url_or :
    (url : Option Text) (cs : List Child) (later : Option Text)
    → or_else (first_url url true (type_text cs) (url_text cs)) later
      ≡ or_else url (or_else (service_url cs) later)
unfolding first_url
first_url_or none cs later = refl
first_url_or (some u) cs later = refl

abbrev described : Option Text → Option Text → DeviceDescription
described name url = record { friendly_name = name; av_transport_control_url = url }

scan_items :
    (is : List Item) (name url : Option Text) (ty ctrl : Text)
    → All IsItem is
    → (scan (item_events is) (at no_field false name url ty ctrl)).desc
      ≡ described (or_else name (name_of is)) (or_else url (url_of is))
unfolding scan on_start on_end same
scan_items [] name url ty ctrl h = ap₂ described (or_none name) (or_none url)
scan_items (named ps ∷ is) name url ty ctrl (h, hs) =
    ap (λ (t : Scan). t.desc)
      (scan_name ps (end (text "friendlyName") ∷ item_events is) false name url ty ctrl)
    ∙ scan_items is (or_else name (first_piece ps)) url ty ctrl hs
    ∙ ap (λ (n : Option Text). described n (or_else url (url_of is)))
        (or_else_assoc name (first_piece ps) (name_of is))
scan_items (service cs ∷ is) name url ty ctrl (h, hs) =
    ap (λ (t : Scan). t.desc)
      (scan_children cs (end (text "service") ∷ item_events is) name url [] [] h)
    ∙ scan_items is name (first_url url true (type_text cs) (url_text cs)) (type_text cs)
        (url_text cs) hs
    ∙ ap (described (or_else name (name_of is))) (first_url_or url cs (url_of is))
scan_items (outside e ∷ is) name url ty ctrl (h, hs) =
    ap (λ (s : Scan). (scan (item_events is) s).desc) (on_event-IsOutside name url ty ctrl e h)
    ∙ scan_items is name url ty ctrl hs

-- A description whose names, types and URLs hold texts only, and whose services are not nested, is
-- scanned to the first text of its names that is not blank, and to the URL of the first service that
-- is an AVTransport and has one. The texts of a type or a URL are joined, each without surrounding
-- blanks. All other elements may stand between these, also a type or a URL outside of any service,
-- which counts for nothing.
pub parse_device_description-services :
    (is : List Item)
    → All IsItem is
    → parse_device_description (item_events is)
      ≡ record { friendly_name = name_of is; av_transport_control_url = url_of is }
unfolding parse_device_description
parse_device_description-services is h = scan_items is none none [] [] h
