-- ===== src/Tools/RedisClient/Election/Alone.antt =====
-- The places of a process that goes on by itself are those of `sysmaster_lock`, whatever is answered.
use cpp_client_rabbit_mq.Common.{
  ℕ, zero, suc, ◌≤◌, ◌≡◌, refl, ap, sym, ◌∙◌, Bool, Bytes, ◌∷◌, bytes_eq, Option, none, some,
  Option-cases, inl, inr, Bool-cases, arith,
}
use mathlib.Core.Path.{ap₂}
use cpp_client_rabbit_mq.Tools.Step.{State, returned}
use cpp_client_rabbit_mq.Tools.RedisClient.{
  Redis, Call, History, RedisClientStorage, system_lock, system_master, wait_for_lock,
  sysmaster_lock,
}
use cpp_client_rabbit_mq.Tools.RedisClient.Locking.{take_script, take_lock_lem}
use cpp_client_rabbit_mq.Tools.RedisClient.Election.{
  Stage, start, seizing, ending, waiting, done, call_at, go_on,
}

module _ (redis : Redis) (resource id : Bytes) where
  abbrev pub answered : Stage → Option Call → History → Stage × History
  answered p none h = (p, h)
  answered p (some c) h = (go_on id (redis.text_of (c ∷ h)) (redis.flag_of (c ∷ h)) p, c ∷ h)

  -- The next calls of the process, with the answers of `redis`.
  unfoldable pub run_alone : ℕ → Stage → History → Stage × History
  unfolding call_at go_on
  run_alone zero p h = (p, h)
  run_alone (suc n) p h =
      let next = answered p (call_at resource id p) h in run_alone n next.0 next.1

  run_done : (n : ℕ) (b : Bool) (h : History) → run_alone n (done b) h ≡ (done b, h)
  unfolding run_alone
  run_done zero b h = refl
  run_done (suc n) b h = run_done n b h

  abbrev Ends : Stage × History → Bool → History → Type 0
  Ends r b h = (r.0 ≡ done b) × (r.1 ≡ h)

  done-Ends :
      (n : ℕ) (b c : Bool) (g h : History) → Ends (run_alone n (done c) g) b h → (c ≡ b) × (g ≡ h)
  done-Ends n b c g h e =
      let r = run_done n c g in
      let k : Stage.done c ≡ done b = ap (λ p. p.0) (sym r) ∙ e.0 in
      (cc, ap (λ p. p.1) (sym r) ∙ e.1)

  wait_alone :
      (n fuel : ℕ) (b : Bool) (s : State RedisClientStorage Call) (h : History)
      → n ≤ fuel
      → Ends (run_alone n waiting s.calls) b h
      → (master : Bytes) × (bytes_eq master id ≡ b)
        × (wait_for_lock redis fuel (system_lock resource) s
            ≡ (returned (some master), record s { calls = h }))
  unfolding run_alone wait_for_lock
  wait_alone zero fuel b s h le e = cc
  wait_alone (suc n) zero b s h le e = absurd (omega arith)
  wait_alone (suc n) (suc fuel) b s h le e =
      let c = Call.get (system_lock resource) ∷ s.calls in
      elim (Option-cases (redis.text_of c)) [
        | inl nothing ↦
            let (m, k, w) =
              wait_alone n fuel b (record s { calls = c }) h (omega arith)
                (rw (nothing, run_alone) at e) in
            (m, k, rw nothing w)
        | inr (master, found) ↦
            let (k, w) = done-Ends n b (bytes_eq master id) c h (rw (found, run_alone) at e) in
            (master, k, rw found (ap (λ t. (returned (some master), record s { calls = t })) w))
      ]

  -- The calls that take the lock, in the case that it is set and in the other.
  got_alone :
      (n : ℕ) (b : Bool) (g h : History)
      → Ends (run_alone n ending g) b h
      → (m : ℕ) × (m ≤ n)
        × Ends
            (run_alone m waiting
              (Call.set (system_master resource) id ∷ Call.expire (system_lock resource) 10 ∷ g))
            b
            h
  unfolding run_alone
  got_alone zero b g h e = cc
  got_alone (suc zero) b g h e = cc
  got_alone (suc (suc m)) b g h e = (m, omega arith, e)

  seized_alone :
      (n : ℕ) (b : Bool) (g h : History)
      → Ends (run_alone n seizing g) b h
      → let got = redis.flag_of (Call.setnx (system_lock resource) id ∷ g) in
        (m : ℕ) × (m ≤ n) × Ends (run_alone m waiting (take_script got resource id g)) b h
  unfolding run_alone
  seized_alone zero b g h e = cc
  seized_alone (suc n) b g h e =
      let c = Call.setnx (system_lock resource) id ∷ g in
      elim (Bool-cases (redis.flag_of c)) [
        | inl got ↦
            let (m, le, w) = got_alone n b c h (rw (got, run_alone) at e) in
            (m, omega arith, rw got w)
        | inr lost ↦ (n, omega arith, rw lost (rw (lost, run_alone) at e))
      ]

  -- Where the steps bring the process to a result, `sysmaster_lock` with the same answers returns this
  -- result after the same calls, with as much fuel as there were steps.
  pub run_alone-sysmaster_lock :
      (n : ℕ) (b : Bool) (s : State RedisClientStorage Call) (h : History)
      → (run_alone n start s.calls).0 ≡ done b
      → (run_alone n start s.calls).1 ≡ h
      → sysmaster_lock redis n resource id s ≡ (returned (some b), record s { calls = h })
  unfolding run_alone sysmaster_lock
  run_alone-sysmaster_lock zero b s h e k = cc
  run_alone-sysmaster_lock (suc n) b s h e k =
      let c = Call.get (system_lock resource) ∷ s.calls in
      let t : State RedisClientStorage Call = record s { calls = c } in
      elim (Option-cases (redis.text_of c)) [
        | inl free ↦
            let got = redis.flag_of (Call.setnx (system_lock resource) id ∷ c) in
            let (m, le, w) =
              seized_alone n b c h (rw (free, run_alone) at e, rw (free, run_alone) at k) in
            let (master, same, found) =
              wait_alone m (suc n) b (record s { calls = take_script got resource id c }) h
                (omega arith) w in
            rw (sysmaster_lock, free, take_lock_lem redis resource id t, found)
              (ap (λ a. (returned (some a), record s { calls = h })) same)
        | inr (master, held) ↦
            let (same, w) =
              done-Ends n b (bytes_eq master id) c h
                (rw (held, run_alone) at e, rw (held, run_alone) at k) in
            rw (sysmaster_lock, held)
              (ap₂ (λ a g. (returned (some a), record s { calls = g })) same w)
      ]
