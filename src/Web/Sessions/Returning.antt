-- ===== src/Web/Sessions/Returning.antt =====
-- The calling thread comes back from every operation.
use cpp_client_rabbit_mq.Common.{
  ◌≡◌, ◌≢◌, refl, sym, ap, ◌∙◌, Bool, true, false, Bytes, List, [], ◌∷◌, some, Option-cases,
  bytes_eq_refl, inl, inr,
}
use cpp_client_rabbit_mq.Web.Session.{Session, Place}
use cpp_client_rabbit_mq.Web.Session.Reachable.{
  Works, rests, then_works, terminate-CanFinish, is_smooth, is_smooth-is_work,
}
use cpp_client_rabbit_mq.Web.Sessions.{
  Task, ready, unsubscribing, stopping, joining, Exchange, empty_exchange, session_of, set_session,
  ◌⟹◌, subscribes, unsubscribes, unsubscribed, stops, asks, joins, clears, works, ◌⟹*◌,
}
use cpp_client_rabbit_mq.Web.Sessions.Kept.{is_idle, is_there, is_asked, is_started, set_session_at}
use cpp_client_rabbit_mq.Web.Sessions.Tidy.{IsTidy, relies_on, step-IsTidy, reachable-IsTidy}

-- A step that begins no operation, and in which the network does not fail.
abbrev pub is_quiet : {w v : Exchange} → w ⟹ v → Bool
is_quiet (subscribes k w p q) = false
is_quiet (unsubscribes k s w p q) = false
is_quiet (unsubscribed k s w p q e) = true
is_quiet (stops w p) = false
is_quiet (asks k ks s w p q) = true
is_quiet (joins k ks s w p q e) = true
is_quiet (clears w p) = true
is_quiet (works k s t w q e r) = is_smooth e

-- Some steps of this kind.
pub data Goes : Exchange → Exchange → Type 0 where
  rests_at : (w : Exchange) → Goes w w
  then_goes : {w v u : Exchange} → Goes w v → (e : v ⟹ u) → is_quiet e ≡ true → Goes w u

along : {w v u : Exchange} → Goes w v → Goes v u → Goes w u
along r (rests_at _) = r
along r (then_goes q e h) = then_goes (along r q) e h

along-IsTidy : {w v : Exchange} → Goes w v → IsTidy w → IsTidy v
along-IsTidy (rests_at _) h = h
along-IsTidy (then_goes r e q) h = step-IsTidy e (along-IsTidy r h)

-- The worker of one session makes steps while the calling thread waits.
Worked : Exchange → Bytes → Session → Type 0
Worked w k t = (v : Exchange) × (Goes w v) × (v.task ≡ w.task) × (session_of k v.sessions ≡ some t)

lift_work :
    (w : Exchange) (k : Bytes) {s t : Session}
    → session_of k w.sessions ≡ some s
    → Works s t
    → Worked w k t
unfolding Worked
lift_work w k found (rests _) = (w, rests_at w, refl, found)
lift_work w k found (then_works {s} {t} {u} r e h) =
    let (v, path, same, there) = lift_work w k found r in
    (
      record v { sessions = set_session k u v.sessions },
      then_goes path (works k t u v there e (is_smooth-is_work e h)) h,
      same,
      set_session_at k t u v.sessions there,
    )

idle_lem : (s : Session) → is_started (some s) ≡ true → s.place ≢ Place.idle
idle_lem s h e = cc (h, ap is_idle e)

-- A session that is waited for comes to its end.
Ended : Exchange → Bytes → Type 0
Ended w k =
    (v : Exchange) × (Goes w v)
    × (v.task ≡ w.task)
    × (t : Session) × (session_of k v.sessions ≡ some t)
    × (t.place ≡ Place.finished)

ends : (w : Exchange) (k : Bytes) → IsTidy w → is_asked (session_of k w.sessions) ≡ true → Ended w k
unfolding Ended Worked
ends w k h asked = elim (Option-cases (session_of k w.sessions)) [
  | inl missing ↦ cc (asked, ap is_asked missing)
  | inr (s, found) ↦
      let (t, r, finished) =
        terminate-CanFinish s (idle_lem s (sym (ap is_started found) ∙ h.started k))
          (sym (ap is_asked found) ∙ asked) in
      let (v, path, same, there) = lift_work w k found r in (v, path, same, t, there, finished)
]

-- `stop` comes to its end, and leaves no session.
Cleared : Exchange → Type 0
Cleared w = (v : Exchange) × (Goes w v) × (v.task ≡ ready) × (v.sessions ≡ [])

-- One `join`, and what follows it.
joining-Cleared :
    (k : Bytes) (ks : List Bytes) (w : Exchange)
    → w.task ≡ joining k ks
    → IsTidy w
    → ((v : Exchange) → v.task ≡ stopping ks → IsTidy v → Cleared v)
    → Cleared w
unfolding Ended Cleared
joining-Cleared k ks w p h next =
    let (v, path, same, t, there, finished) = ends w k h (relies_on p h).0 in
    let waited = then_goes path (joins k ks t v (same ∙ p) there finished) refl in
    let (u, rest, back, none_left) = next _ refl (along-IsTidy waited h) in
    (u, along waited rest, back, none_left)

stopping-Cleared : (ks : List Bytes) (w : Exchange) → w.task ≡ stopping ks → IsTidy w → Cleared w
unfolding Cleared
stopping-Cleared [] w p h = (_, then_goes (rests_at w) (clears w p) refl, refl, refl)
stopping-Cleared (k ∷ ks) w p h = elim (Option-cases (session_of k w.sessions)) [
  | inl missing ↦ cc ((relies_on p h k).0 (rw (bytes_eq_refl k) refl), ap is_there missing)
  | inr (s, found) ↦
      let asked = asks k ks s w p found in
      let (u, rest, back, none_left) =
        joining-Cleared k ks _ refl (step-IsTidy asked h) (stopping-Cleared ks) in
      (u, along (then_goes (rests_at w) asked refl) rest, back, none_left)
]

abbrev pub is_stopping : Task → Bool
is_stopping ready = false
is_stopping (unsubscribing k) = false
is_stopping (stopping ks) = true
is_stopping (joining k ks) = true

task_returns :
    (task : Task) (w : Exchange)
    → w.task ≡ task
    → IsTidy w
    → (v : Exchange) × (Goes w v) × (v.task ≡ ready) × (is_stopping task ≡ true → v.sessions ≡ [])
unfolding Ended Cleared
task_returns ready w p h = (w, rests_at w, p, λ e. cc)
task_returns (unsubscribing k) w p h =
    let (v, path, same, t, there, finished) = ends w k h (relies_on p h) in
    (_, then_goes path (unsubscribed k t v (same ∙ p) there finished) refl, refl, λ e. cc)
task_returns (stopping ks) w p h =
    let (v, path, back, none_left) = stopping-Cleared ks w p h in (v, path, back, λ e. none_left)
task_returns (joining k ks) w p h =
    let (v, path, back, none_left) = joining-Cleared k ks w p h (stopping-Cleared ks) in
    (v, path, back, λ e. none_left)

-- Whatever the threads have done before, the calling thread can come back from what it does by steps in
-- which nothing new is begun and the network does not fail: a worker that was told to end gets its
-- message, closes, and sees the server end the connection. From `stop` it comes back with no session.
pub reachable-returns :
    (w : Exchange)
    → empty_exchange ⟹* w
    → (v : Exchange) × Goes w v × (v.task ≡ ready) × (is_stopping w.task ≡ true → v.sessions ≡ [])
reachable-returns w r = task_returns w.task w refl (reachable-IsTidy r)
