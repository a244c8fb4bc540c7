-- ===== src/Tools/RedisFacade/Keys.antt =====
-- The unordered sets of keys, as sets: `scanAll` and `separete_for_types` against a specification
-- that knows no order.
use cpp_client_rabbit_mq.Common.{
  ◌≡◌, refl, sym, ap, ◌∙◌, Bool, ◌&&◌, ◌||◌, Bytes, List, [], ◌∷◌, bytes_eq, bytes_eq_iff,
  Bool-cases, inl, inr, if◌then◌else◌, arith,
}
use mathlib.Core.Quot
use mathlib.Core.Quot.{Quot, Quot-set}
use cpp_client_rabbit_mq.Tools.RedisFacade.{Redis, Call, KeySets, is_member}

-- Two lists have the same elements.
abbrev pub SameKeys : List Bytes → List Bytes → Type 0
SameKeys ks js = (k : Bytes) → is_member k ks ≡ is_member k js

abbrev pub KeySet : Type 0
KeySet = Quot SameKeys

abbrev pub set_of : List Bytes → KeySet
set_of ks = Quot.mk ks

-- The keys of one kind.
abbrev keep_kind : (kind : Bytes → Bytes) (type_key : Bytes) → List Bytes → List Bytes
keep_kind kind type_key [] = []
keep_kind kind type_key (k ∷ ks) =
    if bytes_eq (kind k) type_key
    then k ∷ keep_kind kind type_key ks
    else keep_kind kind type_key ks

-- A key is an element as it stands, also if it is compared with an equal one.
member_test :
    (k j : Bytes) (test : Bytes → Bool) → (bytes_eq k j && test k) ≡ (bytes_eq k j && test j)
member_test k j test = elim (Bool-cases (bytes_eq k j)) [
  | inl same ↦ rw same (ap test ((bytes_eq_iff k j).0 same))
  | inr other ↦ rw other refl
]

is_member-keep_kind :
    (kind : Bytes → Bytes) (type_key j : Bytes) (ks : List Bytes)
    → is_member j (keep_kind kind type_key ks) ≡ (is_member j ks && bytes_eq (kind j) type_key)
is_member-keep_kind kind type_key j [] = refl
is_member-keep_kind kind type_key j (k ∷ ks) = ground (
  arith,
  is_member-keep_kind kind type_key j ks,
  member_test k j (λ i. bytes_eq (kind i) type_key),
)

-- The specification of the classes.
pub of_kind : (kind : Bytes → Bytes) (type_key : Bytes) → KeySet → KeySet
of_kind kind type_key =
    Quot.lift Quot-set (λ ks. Quot.mk (keep_kind kind type_key ks))
      (λ ks js h. Quot.sound (λ k.
        is_member-keep_kind kind type_key k ks
        ∙ (ap (λ b. b && bytes_eq (kind k) type_key) (h k)
            ∙ sym (is_member-keep_kind kind type_key k js))))

-- What is in a class after a key with its type was added.
abbrev Adds : (before after : List Bytes) (key type_key name : Bytes) → Type 0
Adds before after key type_key name =
    (j : Bytes)
    → is_member j after ≡ (is_member j before || (bytes_eq key j && bytes_eq type_key name))

abbrev pub no_keys : KeySets
no_keys = record { str = []; hash = []; zset = [] }

module _ (redis : Redis) (kind : Bytes → Bytes)
    (answers : (key : Bytes) (calls : List Call)
      → redis.type_of (Call.type key ∷ calls) ≡ kind key) where
  -- What is in a class at the end.
  abbrev Gathers : (before after ks : List Bytes) (name : Bytes) → Type 0
  Gathers before after ks name =
      (j : Bytes)
      → is_member j after ≡ (is_member j before || (is_member j ks && bytes_eq (kind j) name))
