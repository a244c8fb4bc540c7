-- ===== src/Tools/RedisFacade/Xinfo.antt =====
-- What `XINFO GROUPS` answers is read as it was sent.
use cpp_client_rabbit_mq.Common.{
  true, codes, c_string, bytes_eq, some, ◌≡◌, refl, ap, sym, ◌∙◌, false, Bytes, List, [], ◌∷◌, ◌++◌,
  append_assoc, append-nil, c_string_id, HasNoNul,
}
use cpp_client_rabbit_mq.Tools.Step.{State, returned}
use cpp_client_rabbit_mq.Tools.RedisFacade.Operations.{xinfo_groups, assert_stream}
use cpp_client_rabbit_mq.Tools.RedisFacade.{
  Redis, Call, xinfo, Reply, Elements, done, element, string, integer, array, Value, text, number,
  parsed, has_key, store, is_group_value, parse_pairs, parse_groups, parse_group,
}

abbrev pub reply_of : Value → Reply
reply_of (text t) = string t
reply_of (number n) = integer n

-- The elements of a map: keys and values in turn.
abbrev pub reply_items : List (Bytes × Value) → Elements
reply_items [] = done
reply_items ((key, value) ∷ m) = element (string key) (element (reply_of value) (reply_items m))

abbrev pub CleanValue : Value → Type 0
CleanValue (text t) = HasNoNul t
CleanValue (number n) = Unit {0}

-- The keys differ from each other and from those of another map, and no text has a NUL.
abbrev pub AreFields : List (Bytes × Value) → List (Bytes × Value) → Type 0
AreFields seen [] = Unit {0}
AreFields seen ((key, value) ∷ m) =
    (has_key key seen ≡ false)
    × HasNoNul key
    × CleanValue value
    × AreFields (seen ++ (key, value) ∷ []) m

abbrev pub AreGroups : List (List (Bytes × Value)) → Type 0
AreGroups [] = Unit {0}
AreGroups (m ∷ ms) = AreFields [] m × AreGroups ms

parse_pairs_step :
    (key : Bytes) (value : Value) (rest : Elements) (m : List (Bytes × Value))
    → parse_pairs is_group_value (element (string key) (element (reply_of value) rest)) m
      ≡ parse_pairs is_group_value rest (store key (reply_of value) m)
unfolding parse_pairs
parse_pairs_step key (text t) rest m = refl
parse_pairs_step key (number n) rest m = refl

store-reply_of :
    (key : Bytes) (value : Value) (seen : List (Bytes × Value))
    → has_key key seen ≡ false
    → HasNoNul key
    → CleanValue value
    → store key (reply_of value) seen ≡ seen ++ (key, value) ∷ []
store-reply_of key (text t) seen new clean v = rw (c_string_id key clean, c_string_id t v, new) refl
store-reply_of key (number n) seen new clean v = rw (c_string_id key clean, new) refl

parse_pairs_done : (m : List (Bytes × Value)) → parse_pairs is_group_value done m ≡ parsed m
unfolding parse_pairs
parse_pairs_done m = refl

parse_pairs_items :
    (m seen : List (Bytes × Value))
    → AreFields seen m
    → parse_pairs is_group_value (reply_items m) seen ≡ parsed (seen ++ m)
parse_pairs_items [] seen h = parse_pairs_done seen ∙ ap parsed (sym (append-nil seen))
parse_pairs_items ((key, value) ∷ m) seen (new, clean, v, hs) =
    parse_pairs_step key value (reply_items m) seen
    ∙ ap (parse_pairs is_group_value (reply_items m)) (store-reply_of key value seen new clean v)
    ∙ parse_pairs_items m (seen ++ (key, value) ∷ []) hs
    ∙ ap parsed (append_assoc seen ((key, value) ∷ []) m)

abbrev pub reply_groups : List (List (Bytes × Value)) → Elements
reply_groups [] = done
reply_groups (m ∷ ms) = element (array (reply_items m)) (reply_groups ms)

parse_groups_step :
    (items rest : Elements) (m : List (Bytes × Value)) (result : List (List (Bytes × Value)))
    → parse_pairs is_group_value items [] ≡ parsed m
    → parse_groups (element (array items) rest) result ≡ parse_groups rest (result ++ m ∷ [])
unfolding parse_groups
parse_groups_step items rest m result h = rw (h, parse_groups) refl

parse_groups_done :
    (result : List (List (Bytes × Value))) → parse_groups done result ≡ parsed result
unfolding parse_groups
parse_groups_done result = refl

parse_groups_items :
    (ms result : List (List (Bytes × Value)))
    → AreGroups ms
    → parse_groups (reply_groups ms) result ≡ parsed (result ++ ms)
parse_groups_items [] result h = parse_groups_done result ∙ ap parsed (sym (append-nil result))
parse_groups_items (m ∷ ms) result (h, hs) =
    parse_groups_step (reply_items m) (reply_groups ms) m result (parse_pairs_items m [] h)
    ∙ parse_groups_items ms (result ++ m ∷ []) hs
    ∙ ap parsed (append_assoc result (m ∷ []) ms)

parse_group-reply_groups :
    (ms : List (List (Bytes × Value)))
    → AreGroups ms
    → parse_group (array (reply_groups ms)) ≡ parsed ms
unfolding parse_group
parse_group-reply_groups ms h = parse_groups_items ms [] h

-- Of a stream whose groups the server lists, each with its fields under keys that differ and with
-- texts without a NUL, `xinfoGroups` gives these groups, in order, with all their fields. It asks
-- for the type of the key once, and sends one command.
pub xinfo_groups-reply_groups :
    (redis : Redis) (key : Bytes) (ms : List (List (Bytes × Value))) (s : State (Unit {0}) Call)
    → let asked = Call.type key ∷ s.calls in
      let sent = Call.command (codes "XINFO" ∷ codes "GROUPS" ∷ c_string key ∷ []) ∷ asked in
      bytes_eq (redis.type_of asked) (codes "stream") ≡ true
      → redis.reply_of sent ≡ some (array (reply_groups ms))
      → AreGroups ms
      → xinfo_groups redis key s ≡ (returned (parsed (some ms)), record s { calls = sent })
unfolding xinfo_groups assert_stream
xinfo_groups-reply_groups redis key ms s h k groups =
    rw (h, k, xinfo, parse_group-reply_groups ms groups) refl
