-- ===== src/Web/Sessions/Leaving.antt =====
-- When a session leaves the map.
use cpp_client_rabbit_mq.Common.{
  ◌≡◌, refl, sym, ap, ◌∙◌, true, Bytes, some, none, bytes_eq, Bool-cases, inl, inr, arith,
}
use cpp_client_rabbit_mq.Web.Session.{Session, Place}
use cpp_client_rabbit_mq.Web.Session.Reachable.{is_finished}
use cpp_client_rabbit_mq.Web.Sessions.{
  Exchange, empty_exchange, session_of, terminated, ◌⟹◌, subscribes, unsubscribes, unsubscribed,
  stops, asks, joins, clears, works, ◌⟹*◌,
}
use cpp_client_rabbit_mq.Web.Sessions.Kept.{
  is_done, session_of-set_session, session_of-remove, session_of-same,
}
use cpp_client_rabbit_mq.Web.Sessions.Tidy.{IsTidy, relies_on, reachable-IsTidy}

is_finished-finished : (p : Place) → is_finished p ≡ true → p ≡ Place.finished
is_finished-finished Place.idle h = cc
is_finished-finished Place.testing h = cc
is_finished-finished Place.connecting h = cc
is_finished-finished Place.finished h = refl
is_finished-finished (Place.receiving b) h = cc
is_finished-finished (Place.reading b) h = cc

step-leaves :
    {w v : Exchange} (j : Bytes) (s : Session)
    → IsTidy w
    → w ⟹ v
    → session_of j w.sessions ≡ some s
    → session_of j v.sessions ≡ none
    → s.place ≡ Place.finished
step-leaves j s h (subscribes k w p q) here gone = ground (arith, here, gone)
step-leaves j s h (unsubscribes k t w p q) here gone =
    cc (here, gone, session_of-set_session k j (terminated t) w.sessions)
step-leaves j s h (unsubscribed k t w p q e) here gone = elim (Bool-cases (bytes_eq k j)) [
  | inl same ↦ cc (here, session_of-same k t t w.sessions q j same, e)
  | inr other ↦ cc (here, gone, other, session_of-remove k j w.sessions)
]
step-leaves j s h (stops w p) here gone = cc (here, gone)
step-leaves j s h (asks k ks t w p q) here gone =
    cc (here, gone, session_of-set_session k j (terminated t) w.sessions)
step-leaves j s h (joins k ks t w p q e) here gone = cc (here, gone)
step-leaves j s h (clears w p) here gone =
    is_finished-finished s.place (sym (ap is_done here) ∙ (relies_on p h j).1 refl)
step-leaves j s h (works k t u w q e r) here gone =
    cc (here, gone, session_of-set_session k j u w.sessions)

-- A session leaves the map, whether it is unsubscribed or `stop` clears the map, only when its thread
-- has ended: no worker is left without its session, in whatever order the threads have run.
pub leaves-IsFinished :
    {w v : Exchange} (j : Bytes) (s : Session)
    → empty_exchange ⟹* w
    → w ⟹ v
    → session_of j w.sessions ≡ some s
    → session_of j v.sessions ≡ none
    → s.place ≡ Place.finished
leaves-IsFinished j s r e here gone = step-leaves j s (reachable-IsTidy r) e here gone
