-- ===== src/Tools/RedisClient/Locking.antt =====
-- Who holds the lock of the master, and what is asked of the server for it.
use cpp_client_rabbit_mq.Common.{
  ℕ, zero, suc, ◌<◌, ◌≡◌, refl, Bool, false, Bytes, ◌∷◌, bytes_eq, some, none, arith, if◌then◌else◌,
}
use cpp_client_rabbit_mq.Tools.Step.{State, returned, aborted}
use cpp_client_rabbit_mq.Tools.RedisClient.{
  Redis, Call, History, RedisClientStorage, system_lock, system_master, take_lock, wait_for_lock,
  sysmaster_lock, construct, set_client_name,
}

-- The calls that take the lock: it is given an end and the master is named only after `setnx` has
-- set it.
abbrev pub take_script : (got : Bool) (resource id : Bytes) → History → History
take_script got resource id calls =
    let asked = Call.setnx (system_lock resource) id ∷ calls in
    if got
    then Call.set (system_master resource) id ∷ Call.expire (system_lock resource) 10 ∷ asked
    else asked

-- Some calls, and `n` more reads of the lock.
abbrev pub reads : ℕ → Bytes → History → History
reads zero key calls = calls
reads (suc n) key calls = reads n key (Call.get key ∷ calls)

module _ (redis : Redis) where
  -- The lock is read as absent `n` times, and then as held by `holder`.
  abbrev pub IsFoundAfter : ℕ → Bytes → Bytes → History → Type 0
  IsFoundAfter zero key holder calls = redis.text_of (Call.get key ∷ calls) ≡ some holder
  IsFoundAfter (suc n) key holder calls =
      (redis.text_of (Call.get key ∷ calls) ≡ none)
      × IsFoundAfter n key holder (Call.get key ∷ calls)

  wait_for_lock_lem :
      (fuel n : ℕ) (key holder : Bytes) (s : State RedisClientStorage Call)
      → n < fuel
      → IsFoundAfter n key holder s.calls
      → wait_for_lock redis fuel key s
        ≡ (returned (some holder), record s { calls = reads (suc n) key s.calls })
  unfolding wait_for_lock
  wait_for_lock_lem zero n key holder s h k = ground arith
  wait_for_lock_lem (suc fuel) zero key holder s h k = rw k refl
  wait_for_lock_lem (suc fuel) (suc n) key holder s h (k1, k2) = rw k1 (
      wait_for_lock_lem fuel n key holder (record s { calls = Call.get key ∷ s.calls })
        (omega arith) k2)

  pub take_lock_lem :
      (resource id : Bytes) (s : State RedisClientStorage Call)
      → let got = redis.flag_of (Call.setnx (system_lock resource) id ∷ s.calls) in
        take_lock redis resource id s
        ≡ (returned tt, record s { calls = take_script got resource id s.calls })
  unfolding take_lock
  take_lock_lem resource id s = ground arith

  -- When the lock is free, `sysmaster_lock` tries to set it once, and then reads it until it is
  -- there: it returns, with any fuel above the number of reads that find nothing, and it returns
  -- `true` exactly when the holder that it reads in the end is the caller. The end of the lock and
  -- the name of the master are written exactly when the caller has set the lock.
  pub sysmaster_lock_free :
      (fuel n : ℕ) (resource id holder : Bytes) (s : State RedisClientStorage Call)
      → n < fuel
      → redis.text_of (Call.get (system_lock resource) ∷ s.calls) ≡ none
      → let asked = Call.get (system_lock resource) ∷ s.calls in
        let got = redis.flag_of (Call.setnx (system_lock resource) id ∷ asked) in
        IsFoundAfter n (system_lock resource) holder (take_script got resource id asked)
        → sysmaster_lock redis fuel resource id s ≡ (
          returned (some (bytes_eq holder id)),
          record s {
            calls = reads (suc n) (system_lock resource) (take_script got resource id asked);
          },
        )
  unfolding sysmaster_lock
  sysmaster_lock_free fuel n resource id holder s h k w =
      let asked : State RedisClientStorage Call = record s {
        calls = Call.get (system_lock resource) ∷ s.calls;
      } in
      let got = redis.flag_of (Call.setnx (system_lock resource) id ∷ asked.calls) in
      let taken : State RedisClientStorage Call = record s {
        calls = take_script got resource id asked.calls;
      } in
      rw
        (
          k,
          take_lock_lem resource id asked,
          wait_for_lock_lem fuel n (system_lock resource) holder taken h w,
        )
        refl

  -- When the lock is held, `sysmaster_lock` reads it once and writes nothing.
  pub sysmaster_lock_held :
      (fuel : ℕ) (resource id holder : Bytes) (s : State RedisClientStorage Call)
      → redis.text_of (Call.get (system_lock resource) ∷ s.calls) ≡ some holder
      → sysmaster_lock redis fuel resource id s ≡ (
        returned (some (bytes_eq holder id)),
        record s { calls = Call.get (system_lock resource) ∷ s.calls },
      )
  unfolding sysmaster_lock
  sysmaster_lock_held fuel resource id holder s h = rw h refl

  -- A storage that is made with no pointer fails the assertion of `setName`: the constructor that
  -- takes the name of the system alone can never be used.
  construct_null :
      (name : Bytes) (s : State RedisClientStorage Call)
      → (construct redis name false s).0 ≡ aborted
  unfolding construct set_client_name
  construct_null name s = refl
