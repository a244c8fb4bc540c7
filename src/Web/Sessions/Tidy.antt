-- ===== src/Web/Sessions/Tidy.antt =====
-- The invariant of the exchange with its sessions.
use mathlib.Core.Path.{subst}
use cpp_client_rabbit_mq.Common.{
  ◌≡◌, refl, true, false, Bytes, List, ◌∷◌, some, bytes_eq, Bool-cases, inl, inr, arith,
}
use cpp_client_rabbit_mq.Web.Exchange.{has_symbol}
use cpp_client_rabbit_mq.Web.Session.{Session, Place}
use cpp_client_rabbit_mq.Web.Sessions.{
  Task, ready, unsubscribing, stopping, joining, Sessions, Exchange, empty_exchange, session_of,
  terminated, ◌⟹◌, subscribes, unsubscribes, unsubscribed, stops, asks, joins, clears, works, ◌⟹*◌,
  stays, goes_on,
}
use cpp_client_rabbit_mq.Web.Sessions.Kept.{
  is_there, is_asked, is_done, is_started, Follows, work-Follows, session_of-remove,
  has_symbol-symbols_of, session_of-same, set_session_at, set_session-Keeps, Keeps,
}

-- What the calling thread relies on: the session that it waits for was told to end; while `stop`
-- runs, the symbols that are left have sessions, and all other sessions have ended.
abbrev pub Remain : List Bytes → Sessions → Type 0
Remain symbols ss =
    (j : Bytes)
    → (has_symbol j symbols ≡ true → is_there (session_of j ss) ≡ true)
      × (has_symbol j symbols ≡ false → is_done (session_of j ss) ≡ true)

abbrev pub IsDue : Task → Sessions → Type 0
IsDue ready ss = Unit {0}
IsDue (unsubscribing k) ss = is_asked (session_of k ss) ≡ true
IsDue (stopping ks) ss = Remain ks ss
IsDue (joining k ks) ss = (is_asked (session_of k ss) ≡ true) × Remain (k ∷ ks) ss

-- Each session was started, and the calling thread may rely on what it does.
pub record IsTidy (w : Exchange) : Type 0 where
  pub started : (j : Bytes) → is_started (session_of j w.sessions) ≡ true
  pub due : IsDue w.task w.sessions

-- The session that is told to end, and the others.
terminated-Follows : (s : Session) → Follows s (terminated s)
terminated-Follows s = ground arith

Remain-Keeps :
    (ks : List Bytes) (ss ss' : Sessions)
    → ((j : Bytes) → Keeps (session_of j ss) (session_of j ss'))
    → Remain ks ss
    → Remain ks ss'
Remain-Keeps ks ss ss' h r j = ground (arith, h j, r j)

IsDue-Keeps :
    (task : Task) (ss ss' : Sessions)
    → ((j : Bytes) → Keeps (session_of j ss) (session_of j ss'))
    → IsDue task ss
    → IsDue task ss'
IsDue-Keeps ready ss ss' h d = tt
IsDue-Keeps (unsubscribing k) ss ss' h d = (h k).2 d
IsDue-Keeps (stopping ks) ss ss' h d = Remain-Keeps ks ss ss' h d
IsDue-Keeps (joining k ks) ss ss' h (d, r) = ((h k).2 d, Remain-Keeps (k ∷ ks) ss ss' h r)

-- The session of the first symbol has ended.
Remain-tail :
    (k : Bytes) (ks : List Bytes) (s : Session) (ss : Sessions)
    → session_of k ss ≡ some s
    → s.place ≡ Place.finished
    → Remain (k ∷ ks) ss
    → Remain ks ss
Remain-tail k ks s ss found ended r j = elim (Bool-cases (bytes_eq k j)) [
  | inl e ↦ rw (session_of-same k s s ss found j e, ended) (λ _. refl, λ _. refl)
  | inr e ↦ ground (arith, r j, e)
]

pub relies_on : {w : Exchange} {task : Task} → w.task ≡ task → IsTidy w → IsDue task w.sessions
relies_on {w} p h = subst (λ task. IsDue task w.sessions) p h.due

pub step-IsTidy : {w v : Exchange} → w ⟹ v → IsTidy w → IsTidy v
step-IsTidy (subscribes k w p q) h = record {
  started = λ j. ground (arith, h.started j);
  due = rw p tt;
}
step-IsTidy (unsubscribes k s w p q) h =
    let keeps = set_session-Keeps k s (terminated s) w.sessions q (terminated-Follows s) in
    record {
      started = λ j. (keeps j).0 (h.started j);
      due = rw (set_session_at k s (terminated s) w.sessions q) refl;
    }
step-IsTidy (unsubscribed k s w p q e) h = record {
  started = λ j. ground (arith, h.started j, session_of-remove k j w.sessions);
  due = tt;
}
step-IsTidy (stops w p) h = record {
  started = h.started;
  due = λ j. ground (arith, has_symbol-symbols_of j w.sessions);
}
step-IsTidy (asks k ks s w p q) h =
    let keeps = set_session-Keeps k s (terminated s) w.sessions q (terminated-Follows s) in
    record {
      started = λ j. (keeps j).0 (h.started j);
      due = (
        rw (set_session_at k s (terminated s) w.sessions q) refl,
        Remain-Keeps (k ∷ ks) w.sessions _ keeps (relies_on p h),
      );
    }
step-IsTidy (joins k ks s w p q e) h = record {
  started = h.started;
  due = Remain-tail k ks s w.sessions q e (relies_on p h).1;
}
step-IsTidy (clears w p) h = record { started = λ j. refl; due = tt }
step-IsTidy (works k s t w q e r) h =
    let keeps = set_session-Keeps k s t w.sessions q (work-Follows e r) in
    record {
      started = λ j. (keeps j).0 (h.started j);
      due = IsDue-Keeps w.task w.sessions _ keeps h.due;
    }

-- Whatever the calling thread and the workers do, and in whatever order: each session in the map was
-- started, the calling thread waits only for a session that is there and was told to end, and while
-- `stop` runs, the symbols that are left have sessions and all other sessions have ended.
pub reachable-IsTidy : {w : Exchange} → empty_exchange ⟹* w → IsTidy w
reachable-IsTidy (stays _) = record { started = λ j. refl; due = tt }
reachable-IsTidy (goes_on r e) = step-IsTidy e (reachable-IsTidy r)
