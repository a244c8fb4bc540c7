-- ===== src/Tools/RedisClient.antt =====
-- The connections of a Redis server, and the lock of the master.
-- (include/Tools/RedisClientStorage.h, Modules/Tools/RedisClientStorage.cpp)
pub mod Client
pub mod Print
pub mod Parsing
pub mod Locking
pub mod Election
use cpp_client_rabbit_mq.Common.{
  ℕ, zero, suc, Bool, true, false, ◌&&◌, not, Bytes, List, [], ◌∷◌, ◌++◌, length, ◌==◌, codes,
  c_string, bytes_eq, has_text, is_empty, Option, some, none, ℤ, pos, if◌then◌else◌,
}
use cpp_client_rabbit_mq.Tools.Step.{
  Step, Ending, returned, raised, aborted, pure, invoke, run, this, put, assert, ◌>>=◌, ◌>>◌,
}
use cpp_client_rabbit_mq.Tools.Split.{split}
use cpp_client_rabbit_mq.Tools.RedisClient.Client.{ClientSt, read_client}

-- The calls of the Redis library.
pub data Call : Type 0 where
  client_getname client_id client_list : Call
  client_setname : (name : Bytes) → Call
  get del : (key : Bytes) → Call
  setnx set : (key value : Bytes) → Call
  expire : (key : Bytes) (seconds : ℕ) → Call

abbrev pub History : Type 0
History = List Call

-- What the library answers to the last of some calls, and the name of the host.
pub record Redis : Type 0 where
  pub text_of : History → Option Bytes
  pub number_of : History → Option ℤ
  pub flag_of : History → Bool
  pub host_name : Bytes

-- The members of `RedisClientStorage`: whether there is a pointer to the library is what counts.
pub record RedisClientStorage : Type 0 where
  pub system_name : Bytes
  pub redis : Bool

-- RedisClientStorage()
abbrev pub empty_storage : RedisClientStorage
empty_storage = record { system_name = []; redis = false }

-- setRedis(ptr), with a pointer that is not null
unfoldable pub set_redis : (ptr : Bool) → Step RedisClientStorage Call (Unit {0})
set_redis ptr = do assert ptr; c ← this; put (record c { redis = ptr })

-- The name of the key that tells the master, and of its lock.
abbrev pub system_master : (resource : Bytes) → Bytes
system_master resource = codes "sys." ++ resource ++ codes ".master"

abbrev pub system_lock : (resource : Bytes) → Bytes
system_lock resource = codes "sys." ++ resource ++ codes ".master.lock"

module _ (redis : Redis) where
  unfoldable pub get_name : Step RedisClientStorage Call Bytes
  get_name = do
    c ← this
    assert c.redis
    val ← invoke Call.client_getname (redis.text_of)
    elim val [ none ↦ pure [] | some name ↦ pure name ]

  unfoldable pub get_id : Step RedisClientStorage Call ℤ
  get_id = do
    c ← this
    assert c.redis
    val ← invoke Call.client_id (redis.number_of)
    elim val [ none ↦ pure (pos 0) | some id ↦ pure id ]

  abbrev is_ok : Option Bytes → Bool
  is_ok none = false
  is_ok (some val) = bytes_eq val (codes "OK")

  unfoldable pub set_client_name : (client_name : Bytes) → Step RedisClientStorage Call Bool
  set_client_name client_name = do
    c ← this
    assert c.redis
    assert (not (is_empty client_name))
    val ← invoke (Call.client_setname (c_string client_name)) (redis.text_of)
    assert (is_ok val)
    pure (is_ok val)

  -- RedisClientStorage(system_name, ptr)
  unfoldable pub construct :
      (system_name : Bytes) (ptr : Bool) → Step RedisClientStorage Call (Unit {0})
  unfolding set_client_name
  construct system_name ptr = do
    put (record { system_name = system_name; redis = ptr })
    set_client_name (system_name ++ codes "_" ++ c_string redis.host_name)
    pure tt

  -- The loop over the lines of the answer. A line that is not read ends it.
  unfoldable pub read_lines : (name : Bytes) → List Bytes → Ending (List ClientSt)
  read_lines name [] = returned []
  read_lines name (line ∷ lines) =
      let rest = read_lines name lines in
      if is_empty line then rest else elim (read_client line) [
        | returned cl ↦ elim rest [
          | returned cls ↦ returned (if has_text name cl.name then cl ∷ cls else cls)
          | raised m ↦ raised m
          | aborted ↦ aborted
        ]
        | raised m ↦ raised m
        | aborted ↦ aborted
      ]

  unfoldable pub list : (name : Bytes) → Step RedisClientStorage Call (List ClientSt)
  unfolding read_lines
  list name = do
    c ← this
    assert c.redis
    val ← invoke Call.client_list (redis.text_of)
    elim val [ none ↦ pure [] | some text ↦ (λ s. (read_lines name (split text b'\n'), s)) ]

  unfoldable pub check_unique_name : Step RedisClientStorage Call Bool
  check_unique_name = do
    id ← get_name
    if is_empty id then pure false else (do results ← list id; pure (length results == 1))

  -- The key that is deleted is the name of the connection.
  unfoldable pub drop_unique_name : Step RedisClientStorage Call (Unit {0})
  drop_unique_name = do
    c ← this
    assert c.redis
    unique ← check_unique_name
    assert unique
    unique ← check_unique_name
    if unique then (do name ← get_name; run (Call.del name)) else pure tt

  -- do { ... } while (!idMaster), on fuel; `none` means that the fuel ran out.
  unfoldable pub wait_for_lock : ℕ → (key : Bytes) → Step RedisClientStorage Call (Option Bytes)
  wait_for_lock zero key = pure none
  wait_for_lock (suc fuel) key = do
    id_master ← invoke (Call.get key) (redis.text_of)
    let rest = wait_for_lock fuel key
    elim id_master [ none ↦ rest | some id ↦ pure (some id) ]

  -- if (!idMaster) { ... }, in front of its loop
  unfoldable pub take_lock : (resource id : Bytes) → Step RedisClientStorage Call (Unit {0})
  take_lock resource id = do
    locked ← invoke (Call.setnx (system_lock resource) id) (redis.flag_of)
    if locked
        then (do
          run (Call.expire (system_lock resource) 10)
          run (Call.set (system_master resource) id))
        else pure tt

  -- `none` means that the fuel ran out.
  unfoldable pub sysmaster_lock :
      (fuel : ℕ) (resource id : Bytes) → Step RedisClientStorage Call (Option Bool)
  unfolding take_lock
  sysmaster_lock fuel resource id = do
    id_master ← invoke (Call.get (system_lock resource)) (redis.text_of)
    elim id_master [
      | some master ↦ pure (some (bytes_eq master id))
      | none ↦ (do
        take_lock resource id
        found ← wait_for_lock fuel (system_lock resource)
        elim found [ none ↦ pure none | some master ↦ pure (some (bytes_eq master id)) ])
    ]

  -- sysmaster_lock()
  unfoldable pub sysmaster_lock_own : (fuel : ℕ) → Step RedisClientStorage Call (Option Bool)
  unfolding get_name sysmaster_lock
  sysmaster_lock_own fuel = do c ← this; name ← get_name; sysmaster_lock fuel c.system_name name
