-- ===== src/Tools/RedisFacade/Operations.antt =====
-- The operations of the facade that pass a call on. The pointer to the library is never null: both
-- constructors set it.
use cpp_client_rabbit_mq.Common.{
  ℕ, Bool, true, false, not, Bytes, List, [], ◌∷◌, ◌++◌, codes, c_string, bytes_eq, is_empty,
  Option, some, none, ℤ, if◌then◌else◌,
}
use cpp_client_rabbit_mq.Tools.Decimal.{show_int}
use cpp_client_rabbit_mq.Tools.Step.{Step, pure, invoke, run, assert, ◌>>=◌, ◌>>◌}
use cpp_client_rabbit_mq.Tools.RedisFacade.{
  Value, Parsed, Call, UpdateType, Redis, emplace_key, xinfo, parse_group, parse_stream,
}

abbrev FacadeStep : Type 0 → Type 0
FacadeStep A = Step (Unit {0}) Call A

-- RedisFacade(uriRedis)
unfoldable pub connect_uri : (uri : Bytes) → FacadeStep (Unit {0})
connect_uri uri = run (Call.connect uri)

-- RedisFacade(host, port)
unfoldable pub connect_host : (host : Bytes) (port : ℤ) → FacadeStep (Unit {0})
unfolding connect_uri
connect_host host port = run (Call.connect (codes "tcp://" ++ host ++ codes ":" ++ show_int port))

-- A set into which keys are inserted.
abbrev pub insert_keys : List Bytes → List Bytes → List Bytes
insert_keys [] keys = keys
insert_keys (k ∷ ks) keys = insert_keys ks (emplace_key k keys)

-- XTrimStrategyEnum
pub data XtrimStrategy : Type 0 where
  maxlen minid : XtrimStrategy

abbrev strategy_name : XtrimStrategy → Bytes
strategy_name XtrimStrategy.minid = codes "MINID"
strategy_name XtrimStrategy.maxlen = codes "MAXLEN"

module _ (redis : Redis) where
  -- One call; the cursor that comes back is not used.
  unfoldable pub scan_all : FacadeStep (List Bytes)
  scan_all = do
    scanned ← invoke (Call.scan 0 (codes "*") 1000000) (redis.scanned_of)
    pure (insert_keys scanned.1 [])

  unfoldable pub set_value : (key value : Bytes) → FacadeStep Bool
  set_value key value = invoke (Call.set key value) (redis.is_new_of)

  unfoldable pub set_ex_value :
      (key value : Bytes) (ttl : ℕ) (update : UpdateType) → FacadeStep Bool
  set_ex_value key value ttl update = invoke (Call.set_ex key value ttl update) (redis.is_new_of)

  -- What was read, and whether there is anything.
  unfoldable pub hgetall_fields : (key : Bytes) → FacadeStep (Bool × List (Bytes × Bytes))
  hgetall_fields key = do
    output ← invoke (Call.hgetall key) (redis.fields_of)
    pure (not (is_empty output), output)

  unfoldable pub zgetall_members : (key : Bytes) → FacadeStep (Bool × List (Bytes × Bytes))
  zgetall_members key = do
    output ← invoke (Call.zrangebyscore key) (redis.fields_of)
    pure (not (is_empty output), output)

  unfoldable pub zadd_members :
      (key : Bytes) (members : List (Bytes × Bytes)) (update : UpdateType) → FacadeStep Bool
  zadd_members key members update = invoke (Call.zadd key members update) (redis.is_new_of)

  unfoldable pub hset_field : (key field value : Bytes) → FacadeStep Bool
  hset_field key field value = invoke (Call.hset key field value) (redis.is_new_of)

  -- The assertion on the type of a key, which is asked for again where it is no stream.
  unfoldable pub assert_stream : (key : Bytes) → FacadeStep (Unit {0})
  assert_stream key = do
    t ← invoke (Call.type key) (redis.type_of)
    if bytes_eq t (codes "stream")
        then pure tt
        else (do t ← invoke (Call.type key) (redis.type_of); assert (bytes_eq t (codes "none")))

  unfoldable pub xinfo_groups :
      (key : Bytes) → FacadeStep (Parsed (Option (List (List (Bytes × Value)))))
  unfolding parse_group assert_stream
  xinfo_groups key = do
    assert_stream key
    reply ←
        invoke (Call.command (codes "XINFO" ∷ codes "GROUPS" ∷ c_string key ∷ [])) (redis.reply_of)
    pure (xinfo parse_group reply)

  unfoldable pub xinfo_stream : (key : Bytes) → FacadeStep (Parsed (Option (List (Bytes × Value))))
  unfolding parse_stream assert_stream
  xinfo_stream key = do
    assert_stream key
    reply ←
        invoke (Call.command (codes "XINFO" ∷ codes "STREAM" ∷ c_string key ∷ [])) (redis.reply_of)
    pure (xinfo parse_stream reply)

  unfoldable pub xtrim :
      (key : Bytes) (strategy : XtrimStrategy) (approx : Bool) (threshold : Bytes) → FacadeStep Bool
  unfolding assert_stream
  xtrim key strategy approx threshold = do
    assert_stream key
    reply ←
        invoke
          (Call.command (
            codes "XTRIM"
            ∷ c_string key
            ∷ strategy_name strategy
            ∷ (if approx then codes "~" else codes "=")
            ∷ c_string threshold
            ∷ []))
          (redis.reply_of)
    elim reply [ none ↦ pure false | some r ↦ pure true ]
