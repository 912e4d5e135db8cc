-- ===== src/Upnp/Tests.antt =====
-- Documents with markup in their fields, and the theorems applied to them.
use horizon_cast.Base.{All, ◌≡◌, refl, none, some, List, [], ◌∷◌}
use horizon_cast.Base.Text.{text, same, trim, strip_prefix, first_part}
use horizon_cast.Upnp.{
  start, parse_device_description, resolve_url, cut_at, contains, build_set_av_transport_uri,
}
use horizon_cast.Upnp.Documents.{read_element, read_element-build_set_av_transport_uri}
use horizon_cast.Upnp.Describe.{
  Item, named, service, outside, type_of, url_of_service, noise, IsItem, item_events, name_of,
  url_of, parse_device_description-services,
}

a_relative_url :
    resolve_url (text "http://10.0.0.2:80/dd.xml") (text "/ctl")
    ≡ some (text "http://10.0.0.2:80/ctl")
unfolding resolve_url cut_at strip_prefix first_part
a_relative_url = refl

read_element-build_set_av_transport_uri_example :
    (read_element
        (text "CurrentURI")
        (build_set_av_transport_uri (text "http://a/?b&c") (text "<x/>"))
      ≡ some (text "http://a/?b&c"))
    × (read_element
          (text "CurrentURIMetaData")
          (build_set_av_transport_uri (text "http://a/?b&c") (text "<x/>"))
        ≡ some (text "<x/>"))
read_element-build_set_av_transport_uri_example =
    read_element-build_set_av_transport_uri (text "http://a/?b&c") (text "<x/>")

-- A name that a reference cuts, a service that is no AVTransport, one with a cut URL, and a type
-- outside of the services.
abbrev description : List Item
description =
    outside (start (text "root"))
    ∷ outside (start (text "serviceType"))
    ∷ named (some (text " Bob ") ∷ none ∷ some (text " Co") ∷ [])
    ∷ service (
        type_of (some (text "RenderingControl:1") ∷ [])
        ∷ url_of_service (some (text "/rc") ∷ [])
        ∷ [])
    ∷ service (
        noise (start (text "serviceId"))
        ∷ url_of_service (some (text " /avt?a ") ∷ none ∷ some (text "b") ∷ [])
        ∷ type_of (some (text "AVTransport:1") ∷ [])
        ∷ [])
    ∷ []

description-IsItem : All IsItem description
unfolding same
description-IsItem = (
  (refl, refl),
  ((refl, refl), (tt, ((tt, (tt, tt)), (((refl, refl, refl, refl), (tt, (tt, tt))), tt)))),
)

-- What stands behind a reference is lost to the name, and the reference itself to the URL.
a_cut_name :
    (name_of description ≡ some (text "Bob")) × (url_of description ≡ some (text "/avt?ab"))
unfolding contains cut_at strip_prefix trim
a_cut_name = (refl, refl)

parse_device_description-services_example :
    parse_device_description (item_events description)
    ≡ record { friendly_name = name_of description; av_transport_control_url = url_of description }
parse_device_description-services_example =
    parse_device_description-services description description-IsItem
