-- ===== src/Tools/RedisClient/Election/Safety.antt =====
-- There is one master as long as no lock ends by itself.
use cpp_client_rabbit_mq.Common.{
  ◌⊎◌, ℕ, ◌≡◌, refl, sym, ap, ◌∙◌, Bool, true, Bytes, bytes_eq_iff, Option, none, some, inl, inr,
  arith,
}
use native.Mathlib.Decide.{ℕ_discrete}
use cpp_client_rabbit_mq.Tools.RedisClient.{system_lock}
use cpp_client_rabbit_mq.Tools.RedisClient.Election.{
  Stage, start, seizing, ending, naming, waiting, done, call_at, go_on, is_free, make, Server,
  System, fresh_system, update, act,
}
use cpp_client_rabbit_mq.Tools.RedisClient.Election.Invariant.{act_lem}

module _ (server : Server) (resource : Bytes) (name : ℕ → Bytes) where
  open server use {
    Store, holder, has_end, apply, get_lem, setnx_free, setnx_held, expire_lem, set_lem,
  }

  abbrev Processes : Type 0
  Processes = System server resource name

  -- Some steps in which no lock ends by itself.
  pub data ReachesInTime (s : Processes) : Processes → Type 0 where
    here : ReachesInTime s s
    act_next :
        {t : Processes} (i : ℕ) → ReachesInTime s t → ReachesInTime s (act server resource name i t)
    call_next :
        {t : Processes} (i : ℕ) (b : Bool)
        → ReachesInTime s t
        → t.place i ≡ done b
        → ReachesInTime s (record t { place = update t.place i start })

  -- A lock that is held stays so under every call.
  make_held :
      (k : ℕ) (p : Stage) (m : Bytes) (t : Store)
      → holder t ≡ some m
      → holder (make server resource name (call_at resource (name k) p) t) ≡ some m
  unfolding call_at
  make_held k start m t h = rw (get_lem (system_lock resource) t) h
  make_held k seizing m t h = rw (setnx_held resource (name k) m t h) h
  make_held k ending m t h = (expire_lem resource m t h).0
  make_held k naming m t h = (set_lem resource (name k) t).0 ∙ h
  make_held k waiting m t h = rw (get_lem (system_lock resource) t) h
  make_held k (done b) m t h = h

  pub act_held :
      (k : ℕ) (s : Processes) (m : Bytes)
      → holder s.store ≡ some m
      → holder (act server resource name k s).store ≡ some m
  act_held k s m h =
      rw ((act_lem server resource name k s (s.place k) (some m) refl h).1)
        (make_held k (s.place k) m s.store h)

  -- Who has got `true` holds the lock.
  abbrev IsSound : Processes → Type 0
  IsSound s = (i : ℕ) → s.place i ≡ done true → holder s.store ≡ some (name i)

  -- A call brings a process to `done true` only if it was there or holds the lock.
  go_on-true :
      (id : Bytes) (o : Option Bytes) (p : Stage)
      → go_on id o (is_free o) p ≡ done true
      → (o ≡ some id) ⊎ (p ≡ done true)
  unfolding go_on
  go_on-true id none start e = cc
  go_on-true id (some m) start e = inl (ap some ((bytes_eq_iff m id).0 (cc e)))
  go_on-true id none seizing e = cc
  go_on-true id (some m) seizing e = cc
  go_on-true id none ending e = cc
  go_on-true id (some m) ending e = cc
  go_on-true id none naming e = cc
  go_on-true id (some m) naming e = cc
  go_on-true id none waiting e = cc
  go_on-true id (some m) waiting e = inl (ap some ((bytes_eq_iff m id).0 (cc e)))
  go_on-true id none (done b) e = inr e
  go_on-true id (some m) (done b) e = inr e

  act-IsSound : (k : ℕ) (s : Processes) → IsSound s → IsSound (act server resource name k s)
  act-IsSound k s v i e =
      let (goes, _, others) =
        act_lem server resource name k s (s.place k) (holder s.store) refl refl in
      elim (ℕ_discrete k i) [
        | yes same ↦
            let e' : (act server resource name k s).place k ≡ done true =
              ap (act server resource name k s).place same ∙ e in
            elim (go_on-true (name k) (holder s.store) (s.place k) (sym goes ∙ e')) [
              | inl h ↦ act_held k s (name i) (h ∙ ap (λ j. some (name j)) same)
              | inr h ↦ act_held k s (name i) (v k h ∙ ap (λ j. some (name j)) same)
            ]
        | no other ↦ act_held k s (name i) (v i (sym (others i other) ∙ e))
      ]

  in_time-IsSound : (s t : Processes) → IsSound s → ReachesInTime s t → IsSound t
  in_time-IsSound s _ v here = v
  in_time-IsSound s _ v (act_next {t} i r) = act-IsSound i t (in_time-IsSound s t v r)
  in_time-IsSound s _ v (call_next {t} i b r e) =
      let sound = in_time-IsSound s t v r in λ j h. ground (arith, sound j)

  -- Let no lock end by itself. Then all processes that have got `true` have one name, in whatever
  -- order they make their calls, and however often: where the names differ, there is one master.
  pub one_master :
      (store : Store) (s : Processes) (i j : ℕ)
      → ReachesInTime (fresh_system server resource name store) s
      → s.place i ≡ done true
      → s.place j ≡ done true
      → name i ≡ name j
  one_master store s i j r hi hj =
      let sound = in_time-IsSound (fresh_system server resource name store) s (λ k h. cc) r in
      cc (sound i hi, sound j hj)
