-- ===== src/Tools/RedisFacade/Naming.antt =====
-- The name that a facade gives to its connection. (`setName`)
use cpp_client_rabbit_mq.Common.{
  bytes_eq_refl, [], is_empty, false, Bytes, Bool, true, ◌∷◌, ◌++◌, codes, c_string, some, ◌≡◌,
  refl, arith, if◌then◌else◌,
}
use cpp_client_rabbit_mq.Tools.RedisClient
use cpp_client_rabbit_mq.Tools.RedisClient.{
  History, construct, empty_storage, get_name, set_client_name,
}
use cpp_client_rabbit_mq.Tools.Step.{Step, returned}

-- The members: the name of the system, and whether there is a pointer to the library.
pub record Facade : Type 0 where
  pub system_name : Bytes
  pub redis : Bool

-- The name of a connection is never empty.
has_name : (s t : Bytes) → is_empty (s ++ codes "_" ++ t) ≡ false
has_name [] t = refl
has_name (d ∷ s) t = refl

module _ (redis : RedisClient.Redis) where
  -- The storage is a local variable: it is made, which names the connection, and dropped.
  unfoldable pub set_name : (system_name : Bytes) → Step Facade RedisClient.Call (Unit {0})
  set_name system_name s =
      let facade = record s.object { system_name = system_name } in
      let (ending, made) =
        construct redis system_name s.object.redis
          (record { object = empty_storage; calls = s.calls }) in
      if s.object.redis
      then (ending, record { object = facade; calls = made.calls })
      else (returned tt, record s { object = facade })

  -- What Redis documents of the name of a connection: a name is taken, and then told.
  pub record IsNamed : Type 0 where
    pub named :
        (name : Bytes) (h : History)
        → redis.text_of (RedisClient.Call.client_setname name ∷ h) ≡ some (codes "OK")
    pub tells :
        (name : Bytes) (h : History)
        → redis.text_of (RedisClient.Call.client_getname ∷ RedisClient.Call.client_setname name ∷ h)
          ≡ some name

  -- On a connection whose server takes the names, `setName` returns, and a storage that uses the same
  -- connection then has the name of the system and the host, joined by `_`, up to its first NUL: two
  -- processes of one system on one host have one name.
  pub get_name-set_name :
      (system_name : Bytes) (facade : Facade) (storage : RedisClient.RedisClientStorage)
      (h : History)
      → IsNamed
      → facade.redis ≡ true
      → storage.redis ≡ true
      → let (ending, s) = set_name system_name (record { object = facade; calls = h }) in
        (ending ≡ returned tt)
        × (s.object.system_name ≡ system_name)
        × ((get_name redis (record { object = storage; calls = s.calls })).0
            ≡ returned (c_string (system_name ++ codes "_" ++ c_string redis.host_name)))
  unfolding set_name construct set_client_name get_name
  get_name-set_name system_name facade storage h server p q =
      let name = c_string (system_name ++ codes "_" ++ c_string redis.host_name) in
      ground (
        arith,
        p,
        q,
        server.named name h,
        server.tells name h,
        bytes_eq_refl (codes "OK"),
        has_name system_name (c_string redis.host_name),
      )
