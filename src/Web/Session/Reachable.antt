-- ===== src/Web/Session/Reachable.antt =====
-- What holds in every state that a session can reach.
use cpp_client_rabbit_mq.Common.{[], ◌≡◌, ◌⊎◌, inl, inr, refl, Bool, true, false, arith, ◌≢◌, ◌∙◌}
use cpp_client_rabbit_mq.Web.Session.{
  Session, Place, ◌⟶◌, ◌⟶*◌, fresh_session, fail_loop, start, enter, leave, connected, refused,
  await, read, read_failed, closed, close_failed, stop, here, then_step,
}

-- The worker is inside `ConnectAndReceive`.
abbrev pub is_inside : Place → Bool
is_inside Place.idle = false
is_inside Place.testing = false
is_inside Place.connecting = true
is_inside Place.finished = false
is_inside (Place.receiving b) = true
is_inside (Place.reading b) = true

-- The close was sent.
abbrev pub is_terminating : Place → Bool
is_terminating (Place.receiving b) = b
is_terminating (Place.reading b) = b
is_terminating Place.idle = false
is_terminating Place.testing = false
is_terminating Place.connecting = false
is_terminating Place.finished = false

abbrev pub is_finished : Place → Bool
is_finished Place.finished = true
is_finished Place.idle = false
is_finished Place.testing = false
is_finished Place.connecting = false
is_finished (Place.receiving b) = false
is_finished (Place.reading b) = false

-- There is a stream exactly while the worker is inside `ConnectAndReceive`, and the close is sent,
-- and the thread left, only after termination was asked for.
abbrev pub IsConsistent : Session → Type 0
IsConsistent s =
    (s.has_stream ≡ is_inside s.place)
    × (is_terminating s.place ≡ true → s.terminate ≡ true)
    × (is_finished s.place ≡ true → s.terminate ≡ true)

step-IsConsistent : {s t : Session} → s ⟶ t → IsConsistent s → IsConsistent t
step-IsConsistent (start s p) h = ground (arith, h)
step-IsConsistent (enter s p q) h = ground (arith, h)
step-IsConsistent (leave s p q) h = ground (arith, h)
step-IsConsistent (connected s p) h = ground (arith, h)
step-IsConsistent (refused s p) h = ground (arith, h)
step-IsConsistent (await s b p q) h = ground (arith, h)
step-IsConsistent (read s b m p) h = ground (arith, h)
step-IsConsistent (read_failed s b p) h = ground (arith, h)
step-IsConsistent (closed s p q) h = ground (arith, h)
step-IsConsistent (close_failed s p q) h = ground (arith, h)
step-IsConsistent (stop s) h = ground (arith, h)

-- Every state that a new session can reach is consistent.
pub reachable-IsConsistent : {s : Session} → fresh_session ⟶* s → IsConsistent s
reachable-IsConsistent (here _) = (refl, λ h. h, λ h. cc)
reachable-IsConsistent (then_step r e) = step-IsConsistent e (reachable-IsConsistent r)

-- The worker is outside `ConnectAndReceive`, and termination was asked for.
abbrev pub IsOver : Session → Type 0
IsOver s = (s.terminate ≡ true) × ((s.place ≡ Place.testing) ⊎ (s.place ≡ Place.finished))

step-IsOver : {s t : Session} → s ⟶ t → IsOver s → IsOver t × (t.events ≡ s.events)
step-IsOver (start s p) (h, k) = ground (arith, h, k)
step-IsOver (enter s p q) (h, k) = ground (arith, h, k)
step-IsOver (leave s p q) (h, k) = ground (arith, h, k)
step-IsOver (connected s p) (h, k) = ground (arith, h, k)
step-IsOver (refused s p) (h, k) = ground (arith, h, k)
step-IsOver (await s b p q) (h, k) = ground (arith, h, k)
step-IsOver (read s b m p) (h, k) = ground (arith, h, k)
step-IsOver (read_failed s b p) (h, k) = ground (arith, h, k)
step-IsOver (closed s p q) (h, k) = ground (arith, h, k)
step-IsOver (close_failed s p q) (h, k) = ground (arith, h, k)
step-IsOver (stop s) (h, k) = ground (arith, h, k)

steps-IsOver : {s t : Session} → s ⟶* t → IsOver s → IsOver t × (t.events ≡ s.events)
steps-IsOver (here s) h = (h, refl)
steps-IsOver (then_step r e) h =
    let (h1, e1) = steps-IsOver r h in let (h2, e2) = step-IsOver e h1 in (h2, e2 ∙ e1)

-- After the first failure of an established connection the session is over, although nobody has
-- stopped it: whatever steps follow, it never connects again and tells its callbacks nothing more.
pub fail_loop-IsOver :
    (s : Session) {t : Session} → fail_loop s ⟶* t → IsOver t × (t.events ≡ (fail_loop s).events)
fail_loop-IsOver s r = steps-IsOver r (refl, inl refl)

-- A step of the worker, and not of the thread that starts and stops the session.
abbrev pub is_work : {s t : Session} → s ⟶ t → Bool
is_work (start s p) = false
is_work (enter s p q) = true
is_work (leave s p q) = true
is_work (connected s p) = true
is_work (refused s p) = true
is_work (await s b p q) = true
is_work (read s b m p) = true
is_work (read_failed s b p) = true
is_work (closed s p q) = true
is_work (close_failed s p q) = true
is_work (stop s) = false

-- A step of the worker in which the network does not fail: a connection is made, a read gives a
-- message, a close returns. The read behind a close fails when the server ends the connection.
abbrev pub is_smooth : {s t : Session} → s ⟶ t → Bool
is_smooth (start s p) = false
is_smooth (enter s p q) = true
is_smooth (leave s p q) = true
is_smooth (connected s p) = true
is_smooth (refused s p) = false
is_smooth (await s b p q) = true
is_smooth (read s b m p) = true
is_smooth (read_failed s b p) = b
is_smooth (closed s p q) = true
is_smooth (close_failed s p q) = false
is_smooth (stop s) = false

pub is_smooth-is_work : {s t : Session} (e : s ⟶ t) → is_smooth e ≡ true → is_work e ≡ true
is_smooth-is_work (start s p) h = cc
is_smooth-is_work (enter s p q) h = refl
is_smooth-is_work (leave s p q) h = refl
is_smooth-is_work (connected s p) h = refl
is_smooth-is_work (refused s p) h = refl
is_smooth-is_work (await s b p q) h = refl
is_smooth-is_work (read s b m p) h = refl
is_smooth-is_work (read_failed s b p) h = refl
is_smooth-is_work (closed s p q) h = refl
is_smooth-is_work (close_failed s p q) h = refl
is_smooth-is_work (stop s) h = cc

-- Some steps of the worker in which the network does not fail.
pub data Works : Session → Session → Type 0 where
  rests : (s : Session) → Works s s
  then_works : {s t u : Session} → Works s t → (e : t ⟶ u) → is_smooth e ≡ true → Works s u

-- The worker can come to the end of its thread.
abbrev pub CanFinish : Session → Type 0
CanFinish s = (t : Session) × Works s t × (t.place ≡ Place.finished)

testing-CanFinish :
    {r : Session} (s : Session)
    → Works r s
    → s.place ≡ Place.testing
    → s.terminate ≡ true
    → CanFinish r
testing-CanFinish s r p q =
    (record s { place = Place.finished }, then_works r (leave s p q) refl, refl)

-- The close is sent, and the server ends the connection.
closing-CanFinish :
    {r : Session} (s : Session) → Works r s → s.place ≡ Place.receiving true → CanFinish r
closing-CanFinish s r e =
    let waiting : Session = record s { place = Place.reading true } in
    let w = then_works r (await s true e (inr refl)) refl in
    testing-CanFinish _ (then_works w (read_failed waiting true refl) refl) refl refl

receiving-CanFinish :
    {r : Session} (s : Session)
    → Works r s
    → s.place ≡ Place.receiving false
    → s.terminate ≡ true
    → CanFinish r
receiving-CanFinish s r e q = closing-CanFinish _ (then_works r (closed s e q) refl) refl

place-CanFinish :
    (p : Place) (s : Session) → s.place ≡ p → p ≢ Place.idle → s.terminate ≡ true → CanFinish s
place-CanFinish Place.idle s e n q = absurd (n refl)
place-CanFinish Place.testing s e n q = testing-CanFinish s (rests s) e q
place-CanFinish Place.connecting s e n q =
    receiving-CanFinish _ (then_works (rests s) (connected s e) refl) refl q
place-CanFinish Place.finished s e n q = (s, rests s, e)
place-CanFinish (Place.receiving false) s e n q = receiving-CanFinish s (rests s) e q
place-CanFinish (Place.receiving true) s e n q = closing-CanFinish s (rests s) e
place-CanFinish (Place.reading false) s e n q =
    receiving-CanFinish _ (then_works (rests s) (read s false [] e) refl) refl q
place-CanFinish (Place.reading true) s e n q =
    testing-CanFinish _ (then_works (rests s) (read_failed s true e) refl) refl refl

-- Once termination is asked for, the worker of a session that was started can come to the end of its
-- thread, with no further step of another thread, although the network does not fail: a read that is
-- waiting gives a message, the close is sent, and the server ends the connection.
pub terminate-CanFinish : (s : Session) → s.place ≢ Place.idle → s.terminate ≡ true → CanFinish s
terminate-CanFinish s n q = place-CanFinish s.place s refl n q
