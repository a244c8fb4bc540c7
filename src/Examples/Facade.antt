-- ===== src/Examples/Facade.antt =====
-- The fields of a hash and the groups of a stream.
use cpp_client_rabbit_mq.Common.{
  some, c_string, ◌≡◌, refl, Bool, true, false, Bytes, List, [], ◌∷◌, codes, none, pos, arith,
  bytes_eq, if◌then◌else◌,
}
use cpp_client_rabbit_mq.Tools.Step.{State, returned}
use cpp_client_rabbit_mq.Tools.RedisFacade.{
  Redis, Call, Value, text, number, array, parsed, separete_for_types,
}
use cpp_client_rabbit_mq.Tools.RedisFacade.Operations.{xinfo_groups, scan_all}
use cpp_client_rabbit_mq.Tools.RedisFacade.Xinfo.{
  reply_groups, AreGroups, xinfo_groups-reply_groups,
}

-- A server on which the second field is there already.
abbrev second_is_old : List Call → Bool
second_is_old [] = true
second_is_old (c ∷ []) = true
second_is_old (c ∷ d ∷ calls) = false

abbrev half_filled : Redis
half_filled = record {
  text_of = λ calls. none;
  type_of = λ calls. codes "hash";
  is_new_of = second_is_old;
  scanned_of = λ calls. (0, []);
  fields_of = λ calls. [];
  reply_of = λ calls. none;
}

abbrev empty : State (Unit {0}) Call
empty = record { object = tt; calls = [] }

abbrev groups : List (List (Bytes × Value))
groups =
    ((codes "name", text (codes "g")) ∷ (codes "pending", number (pos 2)) ∷ [])
    ∷ ((codes "name", text (codes "k")) ∷ [])
    ∷ []

groups-AreGroups : AreGroups groups
unfolding bytes_eq
groups-AreGroups = (
  (refl, ground arith, ground arith, (refl, ground arith, tt, tt)),
  ((refl, ground arith, ground arith, tt), tt),
)

-- A server with one stream.
abbrev streaming : Redis
streaming = record half_filled {
  type_of = λ calls. codes "stream";
  reply_of = λ calls. some (array (reply_groups groups));
}

stream_type : bytes_eq (codes "stream") (codes "stream") ≡ true
unfolding bytes_eq
stream_type = refl

xinfo_groups-reply_groups_example : xinfo_groups streaming (codes "x") empty ≡ (
  returned (parsed (some groups)),
  record empty {
    calls =
        Call.command (codes "XINFO" ∷ codes "GROUPS" ∷ c_string (codes "x") ∷ [])
        ∷ Call.type (codes "x")
        ∷ [];
  },
)
xinfo_groups-reply_groups_example =
    xinfo_groups-reply_groups streaming (codes "x") groups empty stream_type refl groups-AreGroups

separated :
    separete_for_types half_filled
      (codes "a" ∷ codes "b" ∷ [])
      (record { str = []; hash = codes "a" ∷ []; zset = [] })
      empty
    ≡ (
      returned (record { str = []; hash = codes "a" ∷ codes "b" ∷ []; zset = [] }),
      record empty { calls = Call.type (codes "b") ∷ Call.type (codes "a") ∷ [] },
    )
unfolding separete_for_types bytes_eq
separated = refl

-- A server with three keys, one of which it lists twice.
abbrev kind : Bytes → Bytes
kind key = if bytes_eq key (codes "a") then codes "string" else codes "hash"

abbrev kind_of : List Call → Bytes
kind_of (Call.type key ∷ calls) = kind key
kind_of _ = []

abbrev listed : List Bytes
listed = codes "a" ∷ codes "b" ∷ codes "a" ∷ codes "c" ∷ []

abbrev three_keys : Redis
three_keys = record half_filled { type_of = kind_of; scanned_of = λ calls. (0, listed) }

scanned_once : (scan_all three_keys empty).0 ≡ returned (codes "a" ∷ codes "b" ∷ codes "c" ∷ [])
unfolding scan_all bytes_eq
scanned_once = refl
