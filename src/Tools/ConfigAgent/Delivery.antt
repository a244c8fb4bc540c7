-- ===== src/Tools/ConfigAgent/Delivery.antt =====
-- How often a scheduler is told of a configuration.
use cpp_client_rabbit_mq.Common.{
  ℕ, ◌+◌, ◌==◌, ◌≡◌, ◌≢◌, refl, sym, ap, ◌∙◌, Bool, false, ◌||◌, List, [], ◌∷◌, ◌++◌, Option, some,
  none, ◌⊎◌, inl, inr, arith, if◌then◌else◌,
}
use cpp_client_rabbit_mq.Tools.Step.{State, Step, Ending, returned, raised, aborted}
use cpp_client_rabbit_mq.Tools.ConfigAgent.{
  Call, History, System, ConfigAgent, refresh, bind_config, bind_scheduler,
}
use cpp_client_rabbit_mq.Tools.ConfigAgent.Refresh.{
  reloads, load_script, load_config_lem, reload_all_lem,
}

-- How often a resource was told, and whether it waits.
abbrev pub told : ℕ → History → ℕ
told r [] = 0
told r (Call.reload q ∷ h) = told r h + (if q == r then 1 else 0)
told r (c ∷ h) = told r h

abbrev pub waits : ℕ → Option ℕ → ℕ
waits r none = 0
waits r (some q) = if q == r then 1 else 0

abbrev pub deliveries : ℕ → State ConfigAgent Call → ℕ
deliveries r s = told r s.calls + waits r s.object.resource_scheduler

abbrev pub is_bound : ℕ → List ℕ → Bool
is_bound r [] = false
is_bound r (q ∷ qs) = q == r || is_bound r qs

-- What is asked of the agent.
pub data Operation : Type 0 where
  refreshes : Operation
  binds schedules : (resource : Option ℕ) → Operation

-- How often the operations bind a resource as a scheduler, and whether they bind it as another.
abbrev pub schedulings : ℕ → List Operation → ℕ
schedulings r [] = 0
schedulings r (refreshes ∷ os) = schedulings r os
schedulings r (binds q ∷ os) = schedulings r os
schedulings r (schedules q ∷ os) = waits r q + schedulings r os

abbrev pub is_config : ℕ → List Operation → Bool
is_config r [] = false
is_config r (refreshes ∷ os) = is_config r os
is_config r (binds none ∷ os) = is_config r os
is_config r (binds (some q) ∷ os) = q == r || is_config r os
is_config r (schedules q ∷ os) = is_config r os

told-reloads :
    (r : ℕ) (qs : List ℕ) (h : History) → is_bound r qs ≡ false → told r (reloads qs h) ≡ told r h
told-reloads r [] h lacks = refl
told-reloads r (q ∷ qs) h lacks = ground (arith, told-reloads r qs (Call.reload q ∷ h))

is_bound-append : (r q : ℕ) (qs : List ℕ) → is_bound r (qs ++ q ∷ []) ≡ (is_bound r qs || q == r)
is_bound-append r q [] = ground arith
is_bound-append r q (p ∷ qs) = ground (arith, is_bound-append r q qs)

module _ (system : System) (r : ℕ) where
  -- What an operation leaves, if no assertion fails.
  abbrev Counts : Ending (Unit {0}) × State ConfigAgent Call → State ConfigAgent Call → ℕ → Type 0
  Counts result s n =
      (result.0 ≡ aborted)
      ⊎ ((deliveries r result.1 ≡ deliveries r s + n)
          × (is_bound r result.1.object.resources ≡ false))

  told-load_script : (h : History) → told r (load_script system h).1 ≡ told r h
  told-load_script h = ground arith

  refresh-Counts :
      (s : State ConfigAgent Call)
      → is_bound r s.object.resources ≡ false
      → Counts (refresh system s) s 0
  unfolding refresh
  refresh-Counts s lacks =
      let asked : State ConfigAgent Call = record s {
        calls = Call.last_write_time ∷ Call.exists ∷ s.calls;
      } in
      let loaded : State ConfigAgent Call = record s {
        calls = (load_script system asked.calls).1;
      } in
      ground (
        arith,
        lacks,
        load_config_lem system asked,
        reload_all_lem system s.object.resources loaded,
        told-load_script asked.calls,
        told-reloads r s.object.resources loaded.calls,
      )

  bind_config-Counts :
      (q : Option ℕ) (s : State ConfigAgent Call)
      → is_bound r s.object.resources ≡ false
      → is_config r (binds q ∷ []) ≡ false
      → Counts (bind_config system q s) s 0
  unfolding bind_config
  bind_config-Counts none s lacks other = inl refl
  bind_config-Counts (some q) s lacks other =
      ground (arith, lacks, other, is_bound-append r q s.object.resources)

  bind_scheduler-Counts :
      (q : Option ℕ) (s : State ConfigAgent Call)
      → is_bound r s.object.resources ≡ false
      → Counts (bind_scheduler system q s) s (waits r q)
  unfolding bind_scheduler
  bind_scheduler-Counts none s lacks = inl refl
  bind_scheduler-Counts (some q) s lacks = ground (arith, lacks)

  abbrev pub perform : Operation → Step ConfigAgent Call (Unit {0})
  perform refreshes = refresh system
  perform (binds q) = bind_config system q
  perform (schedules q) = bind_scheduler system q

  perform-Counts :
      (o : Operation) (s : State ConfigAgent Call)
      → is_bound r s.object.resources ≡ false
      → is_config r (o ∷ []) ≡ false
      → Counts (perform o s) s (schedulings r (o ∷ []))
  perform-Counts refreshes s lacks other = refresh-Counts s lacks
  perform-Counts (binds q) s lacks other = bind_config-Counts q s lacks other
  perform-Counts (schedules q) s lacks other = ground (arith, bind_scheduler-Counts q s lacks)

  -- Some operations, one after the other. An exception is caught in between, and `none` is a failed
  -- assertion, which ends the process.
  abbrev pub after : Ending (Unit {0}) → State ConfigAgent Call → Option (State ConfigAgent Call)
  after (returned a) s = some s
  after (raised m) s = some s
  after aborted s = none

  abbrev pub run_all : List Operation → State ConfigAgent Call → Option (State ConfigAgent Call)
  run_all [] s = some s
  run_all (o ∷ os) s = elim (after (perform o s).0 (perform o s).1) [
    | none ↦ none
    | some t ↦ run_all os t
  ]

  schedulings_cons :
      (o : Operation) (os : List Operation)
      → schedulings r (o ∷ os) ≡ schedulings r (o ∷ []) + schedulings r os
  schedulings_cons refreshes os = omega arith
  schedulings_cons (binds q) os = omega arith
  schedulings_cons (schedules q) os = omega arith

  is_config_cons :
      (o : Operation) (os : List Operation)
      → is_config r (o ∷ os) ≡ (is_config r (o ∷ []) || is_config r os)
  is_config_cons refreshes os = refl
  is_config_cons (binds none) os = refl
  is_config_cons (binds (some q)) os = ground arith
  is_config_cons (schedules q) os = refl

  after_lem :
      (e : Ending (Unit {0})) (u t : State ConfigAgent Call) (os : List Operation)
      → elim (after e u) [ none ↦ none | some v ↦ run_all os v ] ≡ some t
      → (e ≢ aborted) × (run_all os u ≡ some t)
  after_lem (returned a) u t os h = (λ e. cc e, h)
  after_lem (raised m) u t os h = (λ e. cc e, h)
  after_lem aborted u t os h = cc

  -- A scheduler is told exactly once for each time that it is bound, or still waits for it: however
  -- often the agent refreshes, whatever fails in this, and whatever else is bound, if it is bound as
  -- a scheduler only, and no assertion fails.
  pub run_all-deliveries :
      (os : List Operation) (s t : State ConfigAgent Call)
      → is_bound r s.object.resources ≡ false
      → is_config r os ≡ false
      → run_all os s ≡ some t
      → deliveries r t ≡ deliveries r s + schedulings r os
  run_all-deliveries [] s t lacks other h =
      let e : s ≡ t = cc h in ap (deliveries r) (sym e) ∙ omega arith
  run_all-deliveries (o ∷ os) s t lacks other h =
      let apart : (is_config r (o ∷ []) ≡ false) × (is_config r os ≡ false) =
        ground (arith, is_config_cons o os, other) in
      let u = (perform o s).1 in
      let (lives, rest) = after_lem (perform o s).0 u t os h in
      elim (perform-Counts o s lacks apart.0) [
        | inl dead ↦ absurd (lives dead)
        | inr (count, still) ↦
            let more = run_all-deliveries os u t still apart.1 rest in
            grind (arith, count, more, schedulings_cons o os)
      ]
