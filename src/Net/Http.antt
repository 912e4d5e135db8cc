-- ===== src/Net/Http.antt =====
-- The calls of a renderer: `local_ip_for` of crates/hc-net/src/addr.rs, and `fetch_description` and
-- `send_soap_action` of crates/hc-net/src/upnp.rs.
use horizon_cast.Base.{ℕ, Bool, ◌&&◌, List, ◌∷◌, ◌++◌, leb, if◌then◌else◌}
use horizon_cast.Base.Text.{Text, text}
use horizon_cast.Core.{Result, ok, err, sink_error, device_unreachable, protocol_error, other_error}
use horizon_cast.Discovery.Registry.{IpAddr, v4, v6}
use horizon_cast.Upnp.{XmlEvent, soap_action_header}
use horizon_cast.Net.World.{
  Action, Environment, Probe, probe_bind_failed, probe_connect_failed, probe_addr_failed, routed,
  Reply, no_client, unreachable, unreadable, replied, Fetch, fetch_no_client, fetch_unreachable,
  fetch_unreadable, document, posted, fetched,
}

-- The unspecified address of the target's family.
abbrev pub unspecified : IpAddr → IpAddr
unspecified (v4 _) = v4 0
unspecified (v6 _) = v6 0

abbrev pub probed : Probe → Result IpAddr
probed (probe_bind_failed e) = err (sink_error (text "local-ip probe bind failed: " ++ e))
probed (probe_connect_failed e) = err (sink_error (text "local-ip probe connect failed: " ++ e))
probed (probe_addr_failed e) = err (sink_error (text "local-ip probe addr failed: " ++ e))
probed (routed ip) = ok ip

-- `local_ip_for`.
unfoldable pub local_ip_for : Environment → IpAddr → Action IpAddr
local_ip_for env target tr = (probed (env.probe tr (unspecified target) target), tr)

abbrev pub fetch_result : Fetch → Result (List XmlEvent)
fetch_result (fetch_no_client e) = err (other_error e)
fetch_result (fetch_unreachable e) = err (device_unreachable e)
fetch_result (fetch_unreadable e) = err (protocol_error (text "reading description: " ++ e))
fetch_result (document es) = ok es

-- `fetch_description`.
unfoldable pub fetch_description : Environment → Text → Action (List XmlEvent)
fetch_description env url tr = (fetch_result (env.fetch tr url), fetched url ∷ tr)

-- `StatusCode::is_success`.
abbrev pub is_success : ℕ → Bool
is_success status = leb 200 status && leb status 299

abbrev pub soap_result : Text → Reply → Result Text
soap_result action (no_client e) = err (other_error e)
soap_result action (unreachable e) = err (device_unreachable e)
soap_result action (unreadable e) = err (protocol_error (text "reading SOAP response: " ++ e))
soap_result action (replied status shown body) =
    if is_success status
    then ok body
    else err (sink_error (action ++ (text " failed: HTTP " ++ (shown ++ (text ": " ++ body)))))

-- `send_soap_action`.
unfoldable pub send_soap_action : Environment → Text → Text → Text → Action Text
send_soap_action env control_url action body tr = (
  soap_result action (env.reply tr control_url action body),
  posted control_url (soap_action_header action) body ∷ tr,
)
