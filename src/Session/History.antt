-- ===== src/Session/History.antt =====
-- What must have happened before a session is in a state.
use horizon_cast.Base.{
  ◌≡◌, ◌≢◌, refl, subst, some, arith, List, [], ◌∷◌, ◌++◌, Option-cases, inl, inr, append_assoc,
  append-nil,
}
use horizon_cast.Session.{
  SessionState, Event, next, drive, idle, discovering, device_selected, negotiating, connecting,
  streaming, degraded, reconnecting, stopping, error, start_discovery, device_chosen,
  begin_negotiate, caps_negotiated, connected, congested, recovered, connection_lost, stop, stopped,
  failed,
}
use horizon_cast.Session.Diagram.{
  Step, discover, choose, negotiate, agree, connect, reconnect, degrade, recover, lose,
  lose_degraded, finish, halt, fail, next_iff_Step,
}

-- The first list can be had from the second by leaving events out.
pub data Within : List Event → List Event → Type 0 where
  nil : Within [] []
  skip : {es fs : List Event} (f : Event) → Within es fs → Within es (f ∷ fs)
  keep : {es fs : List Event} (e : Event) → Within es fs → Within (e ∷ es) (e ∷ fs)

abbrev pub to_stream : List Event
to_stream = start_discovery ∷ device_chosen ∷ begin_negotiate ∷ caps_negotiated ∷ connected ∷ []

-- The events that lead to a state, the later ones of a detour left out.
abbrev pub needs : SessionState → List Event
needs idle = []
needs discovering = start_discovery ∷ []
needs device_selected = start_discovery ∷ device_chosen ∷ []
needs negotiating = start_discovery ∷ device_chosen ∷ begin_negotiate ∷ []
needs connecting = start_discovery ∷ device_chosen ∷ begin_negotiate ∷ caps_negotiated ∷ []
needs streaming = to_stream
needs degraded = to_stream ++ congested ∷ []
needs reconnecting = to_stream ++ connection_lost ∷ []
needs stopping = stop ∷ []
needs (error reason) = failed reason ∷ []

Within-nil : (es : List Event) → Within [] es
Within-nil [] = nil
Within-nil (e ∷ es) = skip e (Within-nil es)

Within-refl : (es : List Event) → Within es es
Within-refl [] = nil
Within-refl (e ∷ es) = keep e (Within-refl es)

Within-trans : {es fs gs : List Event} → Within fs gs → Within es fs → Within es gs
Within-trans nil p = p
Within-trans (skip g q) p = skip g (Within-trans q p)
Within-trans (keep g q) (skip _ p) = skip g (Within-trans q p)
Within-trans (keep g q) (keep _ p) = keep g (Within-trans q p)

Within-append :
    {es fs : List Event} (e : Event) → Within es fs → Within (es ++ e ∷ []) (fs ++ e ∷ [])
Within-append e nil = keep e nil
Within-append e (skip f p) = skip f (Within-append e p)
Within-append e (keep f p) = keep f (Within-append e p)

Within-prefix : (es : List Event) (e : Event) → Within es (es ++ e ∷ [])
Within-prefix [] e = skip e nil
Within-prefix (f ∷ es) e = keep f (Within-prefix es e)

Within-last : (es : List Event) (e : Event) → Within (e ∷ []) (es ++ e ∷ [])
Within-last [] e = keep e nil
Within-last (f ∷ es) e = skip f (Within-last es e)

Step-needs :
    {s : SessionState} {e : Event} {t : SessionState}
    → Step s e t
    → Within (needs t) (needs s ++ e ∷ [])
Step-needs discover = Within-refl _
Step-needs choose = Within-refl _
Step-needs negotiate = Within-refl _
Step-needs agree = Within-refl _
Step-needs connect = Within-refl _
Step-needs reconnect =
    Within-trans (Within-prefix _ connected) (Within-prefix to_stream connection_lost)
Step-needs degrade = Within-refl _
Step-needs recover = Within-trans (Within-prefix _ recovered) (Within-prefix to_stream congested)
Step-needs lose = Within-refl _
Step-needs lose_degraded = Within-append connection_lost (Within-prefix to_stream congested)
Step-needs finish = Within-nil _
Step-needs (halt {s} h) = Within-last (needs s) stop
Step-needs (fail {s} {r}) = Within-last (needs s) (failed r)

drive-Within :
    (es before : List Event) (s t : SessionState)
    → Within (needs s) before
    → drive s es ≡ some t
    → Within (needs t) (before ++ es)
drive-Within [] before s t w h =
    let e : s ≡ t = unfold drive in ground arith in
    rw append-nil (subst (λ u. Within (needs u) before) e w)
drive-Within (e ∷ es) before s t w h = elim (Option-cases (next s e)) [
  | inl refused ↦ absurd (unfold drive in ground arith)
  | inr (u, went) ↦
      let step = (next_iff_Step s e u).0 went in
      rw (← append_assoc before (e ∷ []) es) (
        drive-Within es (before ++ e ∷ []) u t (Within-trans (Within-append e w) (Step-needs step))
          (unfold drive in ground arith))
]

-- A session that was driven from idle to a state has been given, in order and perhaps among others,
-- the events that the state needs: a stream needs discovery, a chosen device, negotiation, agreed
-- capabilities and a connection; a stop or an error state needs that event.
pub drive-needs :
    (es : List Event) (t : SessionState) → drive idle es ≡ some t → Within (needs t) es
drive-needs es t h = drive-Within es [] idle t nil h

-- From every state but idle, two events bring the session back to idle.
pub drive-stop : (s : SessionState) → s ≢ idle → drive s (stop ∷ stopped ∷ []) ≡ some idle
unfolding drive next
drive-stop idle h = absurd (h refl)
drive-stop _ h = refl
