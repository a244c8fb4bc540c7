-- ===== src/Tools/RedisClient/Election/Among.antt =====
-- The steps of a process among others are the calls of `sysmaster_lock`.
use cpp_client_rabbit_mq.Common.{
  none, ◌≢◌, true, arith, ℕ, zero, suc, ◌≡◌, refl, ap, sym, ◌∙◌, Bool, Bytes, ◌∷◌, some,
}
use cpp_client_rabbit_mq.Tools.Step.{State, returned}
use cpp_client_rabbit_mq.Tools.RedisClient.{
  Redis, Call, History, RedisClientStorage, sysmaster_lock,
}
use cpp_client_rabbit_mq.Tools.RedisClient.Election.{
  update, Stage, start, done, call_at, is_free, Server, System, act,
}
use cpp_client_rabbit_mq.Tools.RedisClient.Election.Alone.{
  answered, run_alone, run_alone-sysmaster_lock,
}
use cpp_client_rabbit_mq.Tools.RedisClient.Election.Invariant.{act_lem}

module _ (redis : Redis) (resource id : Bytes) where
  -- The last of the calls in place of the first.
  run_alone-suc :
      (n : ℕ) (p : Stage) (h : History)
      → let r = run_alone redis resource id n p h in
        run_alone redis resource id (suc n) p h
        ≡ answered redis resource id r.0 (call_at resource id r.0) r.1
  unfolding run_alone
  run_alone-suc zero p h = refl
  run_alone-suc (suc n) p h =
      let next = answered redis resource id p (call_at resource id p) h in
      run_alone-suc n next.0 next.1

module _ (server : Server) (resource : Bytes) (name : ℕ → Bytes) (redis : Redis) (i : ℕ) where
  open server use {Store, holder, has_end}

  abbrev Processes : Type 0
  Processes = System server resource name

  -- A run in which process `i` makes a number of calls: `redis` answers each as the server does in
  -- the state that the others have left, and the others and the time go on in between.
  pub data Leads (s : Processes) (g : History) : ℕ → Processes → History → Type 0 where
    here : Leads s g 0 s g
    calls :
        {n : ℕ} {t : Processes} {h : History} (c : Call)
        → Leads s g n t h
        → call_at resource (name i) (t.place i) ≡ some c
        → redis.text_of (c ∷ h) ≡ holder t.store
        → redis.flag_of (c ∷ h) ≡ is_free (holder t.store)
        → Leads s g (suc n) (act server resource name i t) (c ∷ h)
    other_calls :
        {n : ℕ} {t : Processes} {h : History} (j : ℕ)
        → j ≢ i
        → Leads s g n t h
        → Leads s g n (act server resource name j t) h
    other_again :
        {n : ℕ} {t : Processes} {h : History} (j : ℕ) (b : Bool)
        → j ≢ i
        → Leads s g n t h
        → t.place j ≡ done b
        → Leads s g n (record t { place = update t.place j start }) h
    lapses :
        {n : ℕ} {t : Processes} {h : History} (u : Store)
        → Leads s g n t h
        → has_end t.store ≡ true
        → holder u ≡ none
        → Leads s g n (record t { store = u }) h

  Leads-run_alone :
      (s : Processes) (g : History) (n : ℕ) (t : Processes) (h : History)
      → Leads s g n t h
      → run_alone redis resource (name i) n (s.place i) g ≡ (t.place i, h)
  unfolding run_alone
  Leads-run_alone s g zero _ _ here = refl
  Leads-run_alone s g (suc n) u _ (calls {t = t} {h = h} c w next text flag) =
      let (goes, _, _) = act_lem server resource name i t (t.place i) (holder t.store) refl refl in
      rw
        (
          run_alone-suc redis resource (name i) n (s.place i) g,
          Leads-run_alone s g n t h w,
          next,
          text,
          flag,
        )
        (ap (λ p. (p, c ∷ h)) (sym goes))
  Leads-run_alone s g n u h (other_calls {t = t} j ne w) =
      let (_, _, others) =
        act_lem server resource name j t (t.place j) (holder t.store) refl refl in
      Leads-run_alone s g n t h w ∙ ap (λ p. (p, h)) (sym (others i ne))
  Leads-run_alone s g n u h (other_again {t = t} j b ne w d) =
      let stays : update t.place j start i ≡ t.place i = ground (arith, ne) in
      Leads-run_alone s g n t h w ∙ ap (λ p. (p, h)) (sym stays)
  Leads-run_alone s g n u h (lapses {t = t} v w limited gone) = Leads-run_alone s g n t h w

  -- Where a process starts and its steps in a run with any number of others bring it to a result,
  -- `sysmaster_lock` with the answers that the server gave it there returns this result, after the
  -- calls that it made there, with as much fuel as there were calls.
  pub Leads-sysmaster_lock :
      (n : ℕ) (b : Bool) (s t : Processes) (storage : State RedisClientStorage Call) (h : History)
      → s.place i ≡ start
      → Leads s storage.calls n t h
      → t.place i ≡ done b
      → sysmaster_lock redis n resource (name i) storage
        ≡ (returned (some b), record storage { calls = h })
  Leads-sysmaster_lock n b s t storage h starts w ends =
      let e = Leads-run_alone s storage.calls n t h w in
      run_alone-sysmaster_lock redis resource (name i) n b storage h
        (rw starts at (ap (λ r. r.0) e) ∙ ends) (rw starts at (ap (λ r. r.1) e))
