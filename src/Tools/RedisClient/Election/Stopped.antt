-- ===== src/Tools/RedisClient/Election/Stopped.antt =====
-- A process that stops before its lock has an end.
use cpp_client_rabbit_mq.Common.{
  ℕ, ◌≡◌, ◌≢◌, refl, sym, ◌∙◌, Bool, true, false, Bytes, bytes_eq, bytes_eq_iff, Bool-cases, none,
  some, inl, inr, ◌==◌, arith,
}
use native.Mathlib.Decide.{ℕ_discrete}
use cpp_client_rabbit_mq.Tools.RedisClient.Election.{
  Stage, start, seizing, ending, naming, waiting, done, go_on, Server, System, fresh_system, update,
  act, ◌⟶◌, acts, calls_again,
}
use cpp_client_rabbit_mq.Tools.RedisClient.Election.Invariant.{IsElection, act_lem, step-IsElection}

-- A process that is not the master.
abbrev pub IsOutside : Stage → Type 0
IsOutside (done true) = ⊥
IsOutside _ = Unit {0}

module _ (server : Server) (resource : Bytes) (name : ℕ → Bytes) where
  open server use {
    Store, holder, has_end, apply, get_lem, setnx_free, setnx_held, expire_lem, set_lem,
  }

  abbrev Processes : Type 0
  Processes = System server resource name

  -- All steps, and those in which process `k` has stopped.
  pub data Reaches (s : Processes) : Processes → Type 0 where
    here : Reaches s s
    next : {t u : Processes} → Reaches s t → ◌⟶◌ server resource name t u → Reaches s u

  pub data ReachesWithout (k : ℕ) (s : Processes) : Processes → Type 0 where
    here : ReachesWithout k s s
    act_next :
        {t : Processes} (i : ℕ)
        → k ≢ i
        → ReachesWithout k s t
        → ReachesWithout k s (act server resource name i t)
    call_next :
        {t : Processes} (i : ℕ) (b : Bool)
        → k ≢ i
        → ReachesWithout k s t
        → t.place i ≡ done b
        → ReachesWithout k s (record t { place = update t.place i start })
    lapse_next :
        {t : Processes} (u : Store)
        → ReachesWithout k s t
        → has_end t.store ≡ true
        → holder u ≡ none
        → ReachesWithout k s (record t { store = u })

  reaches-IsElection :
      (s t : Processes)
      → IsElection server resource name s
      → Reaches s t
      → IsElection server resource name t
  reaches-IsElection s _ v here = v
  reaches-IsElection s u v (next {t} r st) =
      step-IsElection server resource name t u (reaches-IsElection s t v r) st

  fresh-IsElection :
      (store : Store) → IsElection server resource name (fresh_system server resource name store)
  fresh-IsElection store = record { one = λ i j h k. cc; held = λ i h. cc }

  go_on-IsOutside :
      (id m : Bytes) (p : Stage)
      → bytes_eq m id ≡ false
      → IsOutside p
      → IsOutside (go_on id (some m) false p)
  unfolding go_on
  go_on-IsOutside id m start h o = rw h tt
  go_on-IsOutside id m seizing h o = tt
  go_on-IsOutside id m ending h o = tt
  go_on-IsOutside id m naming h o = tt
  go_on-IsOutside id m waiting h o = rw h tt
  go_on-IsOutside id m (done true) h o = o
  go_on-IsOutside id m (done false) h o = tt

  bytes_eq_of_ne : (a b : Bytes) → a ≢ b → bytes_eq a b ≡ false
  bytes_eq_of_ne a b ne = elim (Bool-cases (bytes_eq a b)) [
    | inl same ↦ absurd (ne ((bytes_eq_iff a b).0 same))
    | inr other ↦ other
  ]

  -- Process `k` has stopped in front of `expire`, and the others have gone on from `s`.
  record IsStuck (k : ℕ) (s t : Processes) : Type 0 where
    election : IsElection server resource name t
    stopped : t.place k ≡ ending
    outside : (i : ℕ) → name k ≢ name i → IsOutside (s.place i) → IsOutside (t.place i)

  act-IsOutside :
      (i j : ℕ) (m : Bytes) (t : Processes)
      → holder t.store ≡ some m
      → m ≢ name j
      → IsOutside (t.place j)
      → IsOutside ((act server resource name i t).place j)
  act-IsOutside i j m t held ne o =
      let (goes, _, others) = act_lem server resource name i t (t.place i) (some m) refl held in
      elim (ℕ_discrete i j) [
        | yes same ↦ rw (← same) (
            rw goes (
              go_on-IsOutside (name i) m (t.place i) (bytes_eq_of_ne m (name i) (rw same ne))
                (rw same o)))
        | no other ↦ rw (others j other) o
      ]

  without-IsStuck :
      (k : ℕ) (s t : Processes)
      → IsElection server resource name s
      → s.place k ≡ ending
      → ReachesWithout k s t
      → IsStuck k s t
  without-IsStuck k s _ v e here = record { election = v; stopped = e; outside = λ i ne o. o }
  without-IsStuck k s u v e (act_next {t} i ne r) =
      let p = without-IsStuck k s t v e r in
      let (_, _, others) =
        act_lem server resource name i t (t.place i) (holder t.store) refl refl in
      record {
        election = step-IsElection server resource name t u p.election (acts i t);
        stopped = others k (λ q. ne (sym q)) ∙ p.stopped;
        outside = λ j other o.
            act-IsOutside i j (name k) t (p.election.held k p.stopped).0 other
              (p.outside j other o);
      }
  without-IsStuck k s u v e (call_next {t} i b ne r d) =
      let p = without-IsStuck k s t v e r in
      record {
        election = step-IsElection server resource name t u p.election (calls_again i b t d);
        stopped = ground (arith, p.stopped);
        outside = λ j other o. elim (ℕ_discrete i j) [
          | yes same ↦ let test : (i == j) ≡ true = ground (arith, same) in rw test tt
          | no apart ↦ ground (arith, p.outside j other o)
        ];
      }
  without-IsStuck k s _ v e (lapse_next {t} u r limited gone) =
      let p = without-IsStuck k s t v e r in cc ((p.election.held k p.stopped).1, limited)

  outside-not_master : (p : Stage) → IsOutside p → p ≢ done true
  outside-not_master (done true) o e = o
  outside-not_master (done false) o e = cc
  outside-not_master start o e = cc
  outside-not_master seizing o e = cc
  outside-not_master ending o e = cc
  outside-not_master naming o e = cc
  outside-not_master waiting o e = cc

  not_master-IsOutside : (p : Stage) → p ≢ done true → IsOutside p
  not_master-IsOutside (done true) ne = ne refl
  not_master-IsOutside (done false) ne = tt
  not_master-IsOutside start ne = tt
  not_master-IsOutside seizing ne = tt
  not_master-IsOutside ending ne = tt
  not_master-IsOutside naming ne = tt
  not_master-IsOutside waiting ne = tt

  -- If a process stops between `setnx` and `expire` in any run, its lock never ends:
  -- whatever the others then do, and however long they wait, the lock stays the one of the stopped
  -- process, and a process with another name that was not already the master never becomes it.
  pub never_master :
      (store : Store) (s t : Processes) (k i : ℕ)
      → Reaches (fresh_system server resource name store) s
      → s.place k ≡ ending
      → ReachesWithout k s t
      → name k ≢ name i
      → s.place i ≢ done true
      → (holder t.store ≡ some (name k)) × (has_end t.store ≡ false) × (t.place i ≢ done true)
  never_master store s t k i r e w ne o =
      let v =
        reaches-IsElection (fresh_system server resource name store) s (fresh-IsElection store) r in
      let stuck = without-IsStuck k s t v e w in
      let held = stuck.election.held k stuck.stopped in
      (
        held.0,
        held.1,
        outside-not_master (t.place i) (stuck.outside i ne (not_master-IsOutside (s.place i) o)),
      )
