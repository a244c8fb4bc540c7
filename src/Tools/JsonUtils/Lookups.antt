-- ===== src/Tools/JsonUtils/Lookups.antt =====
-- A lookup is a walk along its names.
use cpp_client_rabbit_mq.Common.{
  ◌≡◌, Bool, Bytes, List, [], ◌∷◌, Option, some, none, ℤ, if◌then◌else◌, arith,
}
use cpp_client_rabbit_mq.Tools.JsonUtils.{
  Documents, Names, one, two, three, has_config, value_at, get_config, get_config_bool,
  get_config_string, get_config_int, get_config_double, get_config_float, get_config_array,
}

-- Where a walk ends: at a value, at a name that is missing, or in front of something that is no object.
pub data Target (V : Type 0) : Type 0 where
  found : V → Target V
  missing : Target V
  no_object : Target V

abbrev pub names_of : Names → List Bytes
names_of (one s1) = s1 ∷ []
names_of (two s1 s2) = s1 ∷ s2 ∷ []
names_of (three s1 s2 s3) = s1 ∷ s2 ∷ s3 ∷ []

module _ (documents : Documents) where
  open documents use {Value, Number, is_object, member}

  abbrev pub walk : Value → List Bytes → Target Value
  walk v [] = found v
  walk v (s ∷ names) =
      if is_object v
      then elim (member v s) [ none ↦ missing | some w ↦ walk w names ]
      else no_object

  -- The reference: the value if there is one of the right type, the default if not.
  abbrev pub value_or_default :
      {A : Type 0} → (Value → Bool) → (Value → A) → A → Target Value → Option A
  value_or_default is of d (found v) = if is v then some (of v) else some d
  value_or_default is of d missing = some d
  value_or_default is of d no_object = none

  get_config_lem :
      {A : Type 0} (is : Value → Bool) (of : Value → A) (c : Value) (names : Names) (d : A)
      → get_config documents is of c names d ≡ value_or_default is of d (walk c (names_of names))
  unfolding get_config has_config value_at
  get_config_lem is of c (one s1) d = ground arith
  get_config_lem is of c (two s1 s2) d = ground arith
  get_config_lem is of c (three s1 s2 s3) d = ground arith

  get_config_array_lem :
      (c : Value) (s1 : Bytes)
      → get_config_array documents c s1 ≡ elim (walk c (s1 ∷ [])) [
        | found v ↦ if documents.is_array v then some (documents.elements_of v) else none
        | missing ↦ none
        | no_object ↦ none
      ]
  unfolding get_config_array has_config
  get_config_array_lem c s1 = ground arith

  -- Each lookup with a default walks along its names and gives the value there if it is of the
  -- right type, and the default if it is not or if a name is missing. It fails an assertion exactly
  -- when the walk stops in front of something that is no object, also below the first name. The
  -- lookup of an array gives its elements, and fails an assertion in all other cases.
  pub get_config_read :
      (c : Value) (names : Names) (s1 : Bytes) (b : Bool) (s : Bytes) (i : ℤ) (x y : Number)
      → let place = walk c (names_of names) in
        (get_config_bool documents c names b
          ≡ value_or_default documents.is_bool documents.bool_of b place)
        × (get_config_string documents c names s
            ≡ value_or_default documents.is_string documents.string_of s place)
        × (get_config_int documents c names i
            ≡ value_or_default documents.is_int documents.int_of i place)
        × (get_config_double documents c names x
            ≡ value_or_default documents.is_number documents.double_of x place)
        × (get_config_float documents c names y
            ≡ value_or_default documents.is_number documents.float_of y place)
        × (get_config_array documents c s1 ≡ elim (walk c (s1 ∷ [])) [
          | found v ↦ if documents.is_array v then some (documents.elements_of v) else none
          | missing ↦ none
          | no_object ↦ none
        ])
  unfolding get_config_bool get_config_string get_config_int get_config_double get_config_float
  get_config_read c names s1 b s i x y = (
    get_config_lem documents.is_bool documents.bool_of c names b,
    get_config_lem documents.is_string documents.string_of c names s,
    get_config_lem documents.is_int documents.int_of c names i,
    get_config_lem documents.is_number documents.double_of c names x,
    get_config_lem documents.is_number documents.float_of c names y,
    get_config_array_lem c s1,
  )
