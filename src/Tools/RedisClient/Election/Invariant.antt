-- ===== src/Tools/RedisClient/Election/Invariant.antt =====
-- The process that has set the lock and has not given it an end is alone, and holds it.
use cpp_client_rabbit_mq.Common.{ℕ, ◌≡◌, ◌≢◌, refl, ◌∙◌, false, Bytes, Option, none, some, arith}
use cpp_client_rabbit_mq.Tools.RedisClient.Election.{
  Stage, start, seizing, ending, naming, waiting, done, call_at, go_on, is_free, make, Server,
  System, update, act, ◌⟶◌, acts, calls_again, lapse,
}

module _ (server : Server) (resource : Bytes) (name : ℕ → Bytes) where
  open server use {
    Store, holder, has_end, apply, get_lem, setnx_free, setnx_held, expire_lem, set_lem,
  }

  abbrev Processes : Type 0
  Processes = System server resource name

  -- The lock is that of process `i`, and has no end.
  abbrev pub Holds : Store → ℕ → Type 0
  Holds t i = (holder t ≡ some (name i)) × (has_end t ≡ false)

  pub record IsElection (s : Processes) : Type 0 where
    pub one : (i j : ℕ) → s.place i ≡ ending → s.place j ≡ ending → i ≡ j
    pub held : (i : ℕ) → s.place i ≡ ending → Holds s.store i

  module _ (s : Processes) (v : IsElection s) (k : ℕ) (t : Store) where
    -- Process `k` goes to another place than `ending`.
    moved :
        (p : Stage)
        → p ≢ ending
        → ((i : ℕ) → k ≢ i → s.place i ≡ ending → Holds t i)
        → IsElection (record { store = t; place = update s.place k p })
    moved p h keep = record {
      one = λ i j hi hj. ground (arith, v.one i j);
      held = λ i hi. ground (arith, keep i);
    }

    -- Process `k` sets the lock.
    seized :
        ((i : ℕ) → s.place i ≢ ending)
        → Holds t k
        → IsElection (record { store = t; place = update s.place k ending })
    seized none_ends h = record {
      one = λ i j hi hj. ground (arith, none_ends i, none_ends j);
      held = λ i hi. ground (arith, none_ends i);
    }

  module _ (s : Processes) (v : IsElection s) (k : ℕ) where
    same : (t : Store) → t ≡ s.store → (i : ℕ) → k ≢ i → s.place i ≡ ending → Holds t i
    same t e i ne h = rw e (v.held i h)

    act_at :
        (p : Stage) (o : Option Bytes)
        → s.place k ≡ p
        → holder s.store ≡ o
        → IsElection (act server resource name k s)
    unfolding act
    act_at start none e h =
        rw (act, e, h) (moved s v k _ seizing (λ q. cc) (same _ (get_lem _ s.store)))
    act_at start (some m) e h =
        rw (act, e, h) (moved s v k _ (done _) (λ q. cc) (same _ (get_lem _ s.store)))
    act_at seizing none e h =
        rw (act, e, h)
          (seized s v k _ (λ i q. cc (v.held i q).0) (setnx_free resource (name k) s.store h))
    act_at seizing (some m) e h =
        rw (act, e, h)
          (moved s v k _ waiting (λ q. cc) (same _ (setnx_held resource (name k) m s.store h)))
    act_at ending o e h =
        rw (act, e) (moved s v k _ naming (λ q. cc) (λ i ne q. absurd (ne (v.one k i e q))))
    act_at naming o e h =
        let (same_holder, same_end) = set_lem resource (name k) s.store in
        rw (act, e)
          (moved s v k _ waiting (λ q. cc)
            (λ i ne q. (same_holder ∙ (v.held i q).0, same_end ∙ (v.held i q).1)))
    act_at waiting none e h =
        rw (act, e, h) (moved s v k _ waiting (λ q. cc) (same _ (get_lem _ s.store)))
    act_at waiting (some m) e h =
        rw (act, e, h) (moved s v k _ (done _) (λ q. cc) (same _ (get_lem _ s.store)))
    act_at (done b) o e h = rw (act, e) (moved s v k _ (done b) (λ q. cc) (same _ refl))

  -- What a call of process `k` does, from the place and the holder that it finds.
  pub act_lem :
      (k : ℕ) (s : Processes) (p : Stage) (o : Option Bytes)
      → s.place k ≡ p
      → holder s.store ≡ o
      → ((act server resource name k s).place k ≡ go_on (name k) o (is_free o) p)
        × ((act server resource name k s).store
            ≡ make server resource name (call_at resource (name k) p) s.store)
        × ((j : ℕ) → k ≢ j → (act server resource name k s).place j ≡ s.place j)
  unfolding act
  act_lem k s p o e h = (rw (e, h) (ground arith), rw e refl, λ j ne. ground arith)

  -- Every step keeps it.
  pub step-IsElection :
      (s t : Processes) → IsElection s → ◌⟶◌ server resource name s t → IsElection t
  step-IsElection s _ v (acts k _) = act_at s v k (s.place k) (holder s.store) refl refl
  step-IsElection s _ v (calls_again k b _ e) =
      moved s v k s.store start (λ q. cc) (same s v k s.store refl)
  step-IsElection s _ v (lapse _ t limited gone) = record {
    one = v.one;
    held = λ i q. cc ((v.held i q).1, limited);
  }
