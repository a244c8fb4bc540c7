-- ===== src/Tools/RedisFacade.antt =====
-- The facade of Redis: fields of a hash, kinds of keys, and what `XINFO` answers.
-- (include/Tools/RedisFacade.h, Modules/Tools/RedisFacade.cpp)
pub mod Fields
pub mod Keys
pub mod Naming
pub mod Operations
pub mod Xinfo
use cpp_client_rabbit_mq.Common.{
  ℕ, Bool, true, false, ◌||◌, Bytes, List, [], ◌∷◌, ◌++◌, codes, c_string, bytes_eq, Option, some,
  none, ℤ, if◌then◌else◌,
}
use cpp_client_rabbit_mq.Tools.Step.{Step, pure, invoke, ◌>>=◌, ◌>>◌}

-- A reply of the server, as the library gives it, and the elements of an array.
mutual
  pub data Reply : Type 0 where
    string : Bytes → Reply
    integer : ℤ → Reply
    nil : Reply
    array : Elements → Reply
    other : Reply

  pub data Elements : Type 0 where
    done : Elements
    element : Reply → Elements → Elements

-- What a field of the answer is stored as.
pub data Value : Type 0 where
  text : Bytes → Value
  number : ℤ → Value

-- `overrun` is a read behind the elements of a reply.
pub data Parsed (A : Type 0) : Type 0 where
  parsed : A → Parsed A
  asserted : Parsed A
  overrun : Parsed A

-- How `zadd` treats elements that are there already or that are not.
pub data UpdateType : Type 0 where
  exist not_exist always : UpdateType

-- The calls of the library. A score is a floating-point number, and stands here as its print.
pub data Call : Type 0 where
  connect : (uri : Bytes) → Call
  scan : (cursor : ℕ) (pattern : Bytes) (count : ℕ) → Call
  get type hgetall zrangebyscore : (key : Bytes) → Call
  set : (key value : Bytes) → Call
  set_ex : (key value : Bytes) (ttl : ℕ) (update : UpdateType) → Call
  zadd : (key : Bytes) (members : List (Bytes × Bytes)) (update : UpdateType) → Call
  hset : (key field value : Bytes) → Call
  command : (words : List Bytes) → Call

-- The answers: a text, the name of a type, whether a field is new or an update was made, a cursor
-- with some keys, the fields of a hash or the members of a sorted set, and the reply to a command,
-- which is `none` where the library throws.
pub record Redis : Type 0 where
  pub text_of : List Call → Option Bytes
  pub type_of : List Call → Bytes
  pub is_new_of : List Call → Bool
  pub scanned_of : List Call → ℕ × List Bytes
  pub fields_of : List Call → List (Bytes × Bytes)
  pub reply_of : List Call → Option Reply

-- `emplace` of a map: a key that is there keeps its value.
abbrev pub has_key : Bytes → List (Bytes × Value) → Bool
has_key key [] = false
has_key key ((k, v) ∷ m) = bytes_eq k key || has_key key m

abbrev pub emplace : Bytes → Value → List (Bytes × Value) → List (Bytes × Value)
emplace key value m = if has_key key m then m else m ++ (key, value) ∷ []

-- A text and a number are stored, and other values are passed over.
abbrev pub store : Bytes → Reply → List (Bytes × Value) → List (Bytes × Value)
store key (string t) m = emplace (c_string key) (Value.text (c_string t)) m
store key (integer n) m = emplace (c_string key) (Value.number n) m
store key nil m = m
store key (array items) m = m
store key other m = m

-- The loop over the pairs of a map; a key without a value is read behind the elements.
unfoldable pub parse_pairs :
    (accepts : Reply → Bool) → Elements → List (Bytes × Value) → Parsed (List (Bytes × Value))
parse_pairs accepts done m = parsed m
parse_pairs accepts (element k done) m = overrun
parse_pairs accepts (element (string k) (element v rest)) m =
    let stored = parse_pairs accepts rest (store k v m) in if accepts v then stored else asserted
parse_pairs accepts (element k (element v rest)) m = asserted

-- REDIS_REPLY_STRING or REDIS_REPLY_INTEGER
abbrev pub is_group_value : Reply → Bool
is_group_value (string t) = true
is_group_value (integer n) = true
is_group_value nil = false
is_group_value (array rs) = false
is_group_value other = false

-- The same, or an array or nil, which are passed over.
abbrev pub is_stream_value : Reply → Bool
is_stream_value (string t) = true
is_stream_value (integer n) = true
is_stream_value nil = true
is_stream_value (array rs) = true
is_stream_value other = false

-- parse_xinfo(ptr, XINFO_STREAM_TYPE&)
unfoldable pub parse_stream : Reply → Parsed (List (Bytes × Value))
unfolding parse_pairs
parse_stream (array items) = parse_pairs is_stream_value items []
parse_stream (string t) = asserted
parse_stream (integer n) = asserted
parse_stream nil = asserted
parse_stream other = asserted

-- The loop over the groups, which come in front of the result.
unfoldable pub parse_groups :
    Elements → List (List (Bytes × Value)) → Parsed (List (List (Bytes × Value)))
unfolding parse_pairs
parse_groups done result = parsed result
parse_groups (element (array items) rest) result = elim (parse_pairs is_group_value items []) [
  | parsed m ↦ parse_groups rest (result ++ m ∷ [])
  | asserted ↦ asserted
  | overrun ↦ overrun
]
parse_groups (element r rest) result = asserted

-- parse_xinfo(ptr, XINFO_GROUP_TYPE&)
unfoldable pub parse_group : Reply → Parsed (List (List (Bytes × Value)))
unfolding parse_groups
parse_group (array maps) = parse_groups maps []
parse_group (string t) = asserted
parse_group (integer n) = asserted
parse_group nil = asserted
parse_group other = asserted

-- xinfo(redis, CMD, output): no reply is what a caught exception leaves.
abbrev pub xinfo : {A : Type 0} → (Reply → Parsed A) → Option Reply → Parsed (Option A)
xinfo parse none = parsed none
xinfo parse (some reply) = elim (parse reply) [
  | parsed a ↦ parsed (some a)
  | asserted ↦ asserted
  | overrun ↦ overrun
]

-- `emplace` of a set, and the sets of keys by kind.
abbrev pub is_member : Bytes → List Bytes → Bool
is_member key [] = false
is_member key (k ∷ ks) = bytes_eq k key || is_member key ks

abbrev pub emplace_key : Bytes → List Bytes → List Bytes
emplace_key key ks = if is_member key ks then ks else ks ++ key ∷ []

pub record KeySets : Type 0 where
  pub str : List Bytes
  pub hash : List Bytes
  pub zset : List Bytes

abbrev pub add_key : (type_key key : Bytes) → KeySets → KeySets
add_key type_key key k =
    if bytes_eq type_key (codes "string")
    then record k { str = emplace_key key (k.str) }
    else if bytes_eq type_key (codes "hash")
    then record k { hash = emplace_key key (k.hash) }
    else if bytes_eq type_key (codes "zset")
    then record k { zset = emplace_key key (k.zset) }
    else k

module _ (redis : Redis) where
  -- separete_for_types(keys, keys_str, keys_hash, keys_zset)
  unfoldable pub separete_for_types : List Bytes → KeySets → Step (Unit {0}) Call KeySets
  separete_for_types [] k = pure k
  separete_for_types (key ∷ keys) k = do
    type_key ← invoke (Call.type key) (redis.type_of)
    separete_for_types keys (add_key type_key key k)

  -- get(key, value): the value is emptied where there is none.
  unfoldable pub get_value : (key : Bytes) → Step (Unit {0}) Call (Bool × Bytes)
  get_value key = do
    found ← invoke (Call.get key) (redis.text_of)
    elim found [ none ↦ pure (false, []) | some value ↦ pure (true, value) ]

  -- hset(keyName, first, last): a field that is not new ends the writing.
  unfoldable pub hset_range :
      (key : Bytes) → List (Bytes × Bytes) → Bool → Step (Unit {0}) Call Bool
  hset_range key [] sucess = pure sucess
  hset_range key ((field, value) ∷ rest) false = hset_range key rest false
  hset_range key ((field, value) ∷ rest) true = do
    new ← invoke (Call.hset key field value) (redis.is_new_of)
    hset_range key rest new
