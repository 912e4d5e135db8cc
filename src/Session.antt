-- ===== src/Session.antt =====
-- The state machine of a cast session, crates/hc-core/src/session.rs.
pub mod Diagram
pub mod History
pub mod Tests
use horizon_cast.Base.{Option, none, some, List, [], ◌∷◌, ◌>>=◌}

pub data ErrorReason : Type 0 where
  permission_denied device_unreachable protocol_failed network_changed : ErrorReason

pub data SessionState : Type 0 where
  idle discovering device_selected negotiating connecting streaming : SessionState
  degraded reconnecting stopping : SessionState
  error : ErrorReason → SessionState

pub data Event : Type 0 where
  start_discovery device_chosen begin_negotiate caps_negotiated connected congested : Event
  recovered connection_lost stop stopped : Event
  failed : ErrorReason → Event

-- `SessionState::next`; the arms stand in the source's order.
unfoldable pub next : SessionState → Event → Option SessionState
next idle start_discovery = some discovering
next discovering device_chosen = some device_selected
next device_selected begin_negotiate = some negotiating
next negotiating caps_negotiated = some connecting
next connecting connected = some streaming
next reconnecting connected = some streaming
next streaming congested = some degraded
next degraded recovered = some streaming
next streaming connection_lost = some reconnecting
next degraded connection_lost = some reconnecting
next stopping stopped = some idle
next idle stop = none
next _ stop = some stopping
next _ (failed reason) = some (error reason)
next _ _ = none

-- The states that a caller goes through: it stops at the first event that is refused.
unfoldable pub drive : SessionState → List Event → Option SessionState
drive s [] = some s
drive s (e ∷ es) = next s e >>= λ t. drive t es
