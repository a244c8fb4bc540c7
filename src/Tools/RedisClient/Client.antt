-- ===== src/Tools/RedisClient/Client.antt =====
-- One line of `client list`. (`RedisClientStorage::client_st`, and the body of the loop of `list`)
use cpp_client_rabbit_mq.Common.{
  ℕ, zero, suc, ◌+◌, ◌-◌, ◌*◌, ◌%◌, ◌^◌, ◌==◌, ltb, leb, Bool, false, ◌&&◌, ◌||◌, not, Bytes, List,
  [], ◌∷◌, String, codes, bytes_eq, is_empty, Option, some, none, ℤ, pos, negsuc, if◌then◌else◌,
}
use cpp_client_rabbit_mq.Tools.Decimal.{atoui64}
use cpp_client_rabbit_mq.Tools.Split.{split}
use cpp_client_rabbit_mq.Tools.Step.{Ending, returned, raised, aborted}

pub record ClientSt : Type 0 where
  pub id : ℕ
  pub addr : Bytes
  pub fd : Bytes
  pub name : Bytes
  pub age : ℕ
  pub idle : ℕ
  pub flags : Bytes
  pub db : Bytes
  pub sub : ℤ
  pub psub : ℤ
  pub multi : ℤ
  pub qbuf : ℤ
  pub qbuf_free : ℤ
  pub argv_mem : ℤ
  pub obl : ℤ
  pub oll : ℤ
  pub omem : ℤ
  pub tot_mem : ℤ
  pub events : Bytes
  pub cmd : Bytes
  pub user : Bytes

-- A new structure, and one after `clear`.
abbrev pub cleared : ClientSt
cleared = record {
  id = 0;
  addr = [];
  fd = [];
  name = [];
  age = 0;
  idle = 0;
  flags = [];
  db = [];
  sub = pos 0;
  psub = pos 0;
  multi = pos 0;
  qbuf = pos 0;
  qbuf_free = pos 0;
  argv_mem = pos 0;
  obl = pos 0;
  oll = pos 0;
  omem = pos 0;
  tot_mem = pos 0;
  events = [];
  cmd = [];
  user = [];
}

-- `std::atol`: white space, a sign, and digits up to the first other character
is_space : ℕ → Bool
is_space c = c == 32 || leb 9 c && leb c 13

digits : ℕ → Bytes → ℕ
digits n [] = n
digits n (c ∷ s) = if leb b'0' c && leb c b'9' then digits (n * 10 + (c - b'0')) s else n

negate : ℕ → ℤ
negate zero = pos 0
negate (suc n) = negsuc n

unfoldable pub atol : Bytes → ℤ
unfolding is_space digits negate
atol [] = pos 0
atol (c ∷ s) =
    if is_space c
    then atol s
    else if c == b'-'
    then negate (digits 0 s)
    else if c == b'+'
    then pos (digits 0 s)
    else pos (digits 0 (c ∷ s))

-- A `long` that is stored in an `int`.
abbrev pub to_int : ℤ → ℤ
to_int (pos n) = let m = n % 2 ^ 32 in if ltb m (2 ^ 31) then pos m else negsuc (2 ^ 32 - 1 - m)
to_int (negsuc n) = let m = n % 2 ^ 32 in if ltb m (2 ^ 31) then negsuc m else pos (2 ^ 32 - 1 - m)

-- The names of the fields that are stored.
abbrev keys : List String
keys =
    "id" ∷ "addr" ∷ "fd" ∷ "name" ∷ "age" ∷ "idle" ∷ "flags" ∷ "db" ∷ "sub" ∷ "psub" ∷ "multi"
    ∷ "qbuf" ∷ "qbuf_free" ∷ "argv_mem" ∷ "obl" ∷ "oll" ∷ "omem" ∷ "tot_mem" ∷ "events" ∷ "cmd"
    ∷ "user" ∷ []

is_key : Bytes → List String → Bool
is_key key [] = false
is_key key (k ∷ ks) = bytes_eq key (codes k) || is_key key ks

-- The chain of tests on `t.at(0)`.
unfoldable pub assign : (key value : Bytes) → ClientSt → ClientSt
unfolding atol
assign key v cl =
    let is = λ (k : String). bytes_eq key (codes k) in
    if is "id"
    then record cl { id = atoui64 v }
    else if is "addr"
    then record cl { addr = v }
    else if is "fd"
    then record cl { fd = v }
    else if is "name"
    then record cl { name = v }
    else if is "age"
    then record cl { age = atoui64 v }
    else if is "idle"
    then record cl { idle = atoui64 v }
    else if is "flags"
    then record cl { flags = v }
    else if is "db"
    then record cl { db = v }
    else if is "sub"
    then record cl { sub = to_int (atol v) }
    else if is "psub"
    then record cl { psub = to_int (atol v) }
    else if is "multi"
    then record cl { multi = to_int (atol v) }
    else if is "qbuf"
    then record cl { qbuf = to_int (atol v) }
    else if is "qbuf_free"
    then record cl { qbuf_free = to_int (atol v) }
    else if is "argv_mem"
    then record cl { argv_mem = to_int (atol v) }
    else if is "obl"
    then record cl { obl = to_int (atol v) }
    else if is "oll"
    then record cl { oll = to_int (atol v) }
    else if is "omem"
    then record cl { omem = to_int (atol v) }
    else if is "tot_mem"
    then record cl { tot_mem = to_int (atol v) }
    else if is "events"
    then record cl { events = v }
    else if is "cmd"
    then record cl { cmd = v }
    else if is "user"
    then record cl { user = v }
    else cl

-- `t.at(1)` is read for a known name only, and `none` is the exception `std::out_of_range`.
unfoldable pub set_field : List Bytes → ClientSt → Option ClientSt
unfolding assign is_key
set_field [] cl = none
set_field (key ∷ []) cl = if is_key key keys then none else some cl
set_field (key ∷ value ∷ rest) cl = some (assign key value cl)

-- The loop over the fields.
unfoldable pub set_fields : List Bytes → ClientSt → Option ClientSt
unfolding set_field
set_fields [] cl = some cl
set_fields (f ∷ fs) cl = elim (set_field (split f b'=') cl) [
  | none ↦ none
  | some cl' ↦ set_fields fs cl'
]

-- The line, and the two assertions. The name of the exception stands for its text.
unfoldable pub read_client : (line : Bytes) → Ending ClientSt
unfolding set_fields
read_client line = elim (set_fields (split line b' ') cleared) [
  | none ↦ raised (codes "std::out_of_range")
  | some cl ↦ if not (cl.id == 0) && not (is_empty cl.addr) then returned cl else aborted
]
