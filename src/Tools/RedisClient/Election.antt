-- ===== src/Tools/RedisClient/Election.antt =====
-- Several processes that run `sysmaster_lock` at the same time against one server.
-- (Modules/Tools/RedisClientStorage.cpp)
pub mod Alone
pub mod Among
pub mod Invariant
pub mod Safety
pub mod Stopped
pub mod Lapses
use cpp_client_rabbit_mq.Common.{
  ℕ, ◌≡◌, Bool, true, false, Bytes, bytes_eq, ◌==◌, Option, none, some, if◌then◌else◌,
}
use cpp_client_rabbit_mq.Tools.RedisClient.{Call, system_lock, system_master}

-- Where a process stands in `sysmaster_lock`: in front of the first `get`, of `setnx`, of `expire`,
-- of the `set` of the master, of the `get` of the loop, and behind the `return`.
pub data Stage : Type 0 where
  start seizing ending naming waiting : Stage
  done : Bool → Stage

-- The call that the process makes next.
unfoldable pub call_at : (resource id : Bytes) → Stage → Option Call
call_at resource id start = some (Call.get (system_lock resource))
call_at resource id seizing = some (Call.setnx (system_lock resource) id)
call_at resource id ending = some (Call.expire (system_lock resource) 10)
call_at resource id naming = some (Call.set (system_master resource) id)
call_at resource id waiting = some (Call.get (system_lock resource))
call_at resource id (done b) = none

-- Where it stands after an answer: `text` is that of a `get`, and `flag` that of `setnx`.
unfoldable pub go_on : (id : Bytes) (text : Option Bytes) (flag : Bool) → Stage → Stage
go_on id none flag start = seizing
go_on id (some master) flag start = done (bytes_eq master id)
go_on id text true seizing = ending
go_on id text false seizing = waiting
go_on id text flag ending = naming
go_on id text flag naming = waiting
go_on id none flag waiting = waiting
go_on id (some master) flag waiting = done (bytes_eq master id)
go_on id text flag (done b) = done b

-- What the code relies on of the server: who holds the lock, as `get` tells, whether it ends by
-- itself, and what the commands do to both.
pub record Server : Type 1 where
  pub Store : Type 0
  pub holder : Store → Option Bytes
  pub has_end : Store → Bool
  pub apply : Call → Store → Store
  pub get_lem : (key : Bytes) (s : Store) → apply (Call.get key) s ≡ s
  pub setnx_free :
      (resource id : Bytes) (s : Store)
      → holder s ≡ none
      → (holder (apply (Call.setnx (system_lock resource) id) s) ≡ some id)
        × (has_end (apply (Call.setnx (system_lock resource) id) s) ≡ false)
  pub setnx_held :
      (resource id master : Bytes) (s : Store)
      → holder s ≡ some master
      → apply (Call.setnx (system_lock resource) id) s ≡ s
  pub expire_lem :
      (resource master : Bytes) (s : Store)
      → holder s ≡ some master
      → (holder (apply (Call.expire (system_lock resource) 10) s) ≡ some master)
        × (has_end (apply (Call.expire (system_lock resource) 10) s) ≡ true)
  pub set_lem :
      (resource id : Bytes) (s : Store)
      → (holder (apply (Call.set (system_master resource) id) s) ≡ holder s)
        × (has_end (apply (Call.set (system_master resource) id) s) ≡ has_end s)

abbrev pub update : {A : Type 0} → (ℕ → A) → ℕ → A → ℕ → A
update f i a j = if i == j then a else f j

abbrev pub is_free : Option Bytes → Bool
is_free none = true
is_free (some master) = false

-- The processes by number, each with its name, `getName()`.
module _ (server : Server) (resource : Bytes) (name : ℕ → Bytes) where
  open server use {Store, holder, has_end, apply}

  pub record System : Type 0 where
    pub store : Store
    pub place : ℕ → Stage

  abbrev pub fresh_system : Store → System
  fresh_system s = record { store = s; place = λ i. start }

  abbrev pub make : Option Call → Store → Store
  make none s = s
  make (some c) s = apply c s

  -- One call of one process, with the server's answer to it.
  unfoldable pub act : ℕ → System → System
  unfolding call_at go_on
  act i s =
      let answer = holder s.store in
      record {
        store = make (call_at resource (name i) (s.place i)) s.store;
        place = update s.place i (go_on (name i) answer (is_free answer) (s.place i));
      }

  -- A process calls again when it has returned, and a lock that has an end ends. A process that has
  -- stopped makes no more steps.
  infix 4 ◌⟶◌
  pub data ◌⟶◌ : System → System → Type 0 where
    acts : (i : ℕ) (s : System) → s ⟶ act i s
    calls_again :
        (i : ℕ) (b : Bool) (s : System)
        → s.place i ≡ done b
        → s ⟶ record s { place = update s.place i start }
    lapse :
        (s : System) (t : Store)
        → has_end s.store ≡ true
        → holder t ≡ none
        → s ⟶ record s { store = t }
