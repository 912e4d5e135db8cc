-- ===== src/Session/Diagram.antt =====
-- The transitions of `next` as a relation, for inductions over runs.
use horizon_cast.Base.{◌≡◌, ◌≢◌, refl, subst, ◌↔◌, some}
use horizon_cast.Session.{
  ErrorReason, SessionState, Event, next, idle, discovering, device_selected, negotiating,
  connecting, streaming, degraded, reconnecting, stopping, error, start_discovery, device_chosen,
  begin_negotiate, caps_negotiated, connected, congested, recovered, connection_lost, stop, stopped,
  failed,
}

-- The edges: the path to a stream, congestion and loss, and the two ways out.
pub data Step : SessionState → Event → SessionState → Type 0 where
  discover : Step idle start_discovery discovering
  choose : Step discovering device_chosen device_selected
  negotiate : Step device_selected begin_negotiate negotiating
  agree : Step negotiating caps_negotiated connecting
  connect : Step connecting connected streaming
  reconnect : Step reconnecting connected streaming
  degrade : Step streaming congested degraded
  recover : Step degraded recovered streaming
  lose : Step streaming connection_lost reconnecting
  lose_degraded : Step degraded connection_lost reconnecting
  finish : Step stopping stopped idle
  halt : {s : SessionState} → s ≢ idle → Step s stop stopping
  fail : {s : SessionState} {r : ErrorReason} → Step s (failed r) (error r)

Step-next : {s : SessionState} {e : Event} {t : SessionState} → Step s e t → next s e ≡ some t
unfolding next
Step-next discover = refl
Step-next choose = refl
Step-next negotiate = refl
Step-next agree = refl
Step-next connect = refl
Step-next reconnect = refl
Step-next degrade = refl
Step-next recover = refl
Step-next lose = refl
Step-next lose_degraded = refl
Step-next finish = refl
Step-next (halt {s} h) = not_idle s h
  where
    not_idle : (s : SessionState) → s ≢ idle → next s stop ≡ some stopping
    not_idle idle h = absurd (h refl)
    not_idle _ h = refl
Step-next (fail {s}) = any s
  where
    any : {r : ErrorReason} (s : SessionState) → next s (failed r) ≡ some (error r)
    any idle = refl
    any _ = refl

onto :
    {s : SessionState} {e : Event} {t u : SessionState} → some u ≡ some t → Step s e u → Step s e t
onto {s} {e} h st = subst (Step s e) (cc) st

next-Step : (s : SessionState) (e : Event) (t : SessionState) → next s e ≡ some t → Step s e t
unfolding next
next-Step idle start_discovery t h = onto h discover
next-Step discovering device_chosen t h = onto h choose
next-Step device_selected begin_negotiate t h = onto h negotiate
next-Step negotiating caps_negotiated t h = onto h agree
next-Step connecting connected t h = onto h connect
next-Step reconnecting connected t h = onto h reconnect
next-Step streaming congested t h = onto h degrade
next-Step degraded recovered t h = onto h recover
next-Step streaming connection_lost t h = onto h lose
next-Step degraded connection_lost t h = onto h lose_degraded
next-Step stopping stopped t h = onto h finish
next-Step idle stop t h = cc
next-Step _ stop t h = onto h (halt (λ e. cc))
next-Step _ (failed reason) t h = onto h fail
next-Step _ _ t h = cc

-- `next` goes where the relation does.
pub next_iff_Step :
    (s : SessionState) (e : Event) (t : SessionState) → (next s e ≡ some t) ↔ Step s e t
next_iff_Step s e t = (next-Step s e t, Step-next)
