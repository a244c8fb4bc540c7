-- ===== src/Examples/Settings.antt =====
-- A configuration, and its file.
use cpp_client_rabbit_mq.Common.{
  ℕ, ◌≡◌, refl, Bool, true, false, Bytes, [], ◌∷◌, codes, bytes_eq, length, Option, some, none, pos,
  ltb, if◌then◌else◌, arith,
}
use cpp_client_rabbit_mq.Tools.JsonUtils.{
  Documents, Names, two, get_config_bool, get_config_string, get_config_int, get_config_double,
  get_config_float, get_config_array, load_config_from_json,
}
use cpp_client_rabbit_mq.Tools.JsonUtils.Lookups.{
  found, missing, no_object, names_of, walk, value_or_default, get_config_read,
}
use cpp_client_rabbit_mq.Tools.JsonUtils.Loading.{first_block, load_config_from_json_lem}

-- Truth values, and objects with one member.
data Json : Type 0 where
  flag : Bool → Json
  object : (name : Bytes) (value : Json) → Json

abbrev is_object : Json → Bool
is_object (flag b) = false
is_object (object name value) = true

abbrev is_flag : Json → Bool
is_flag (flag b) = true
is_flag (object name value) = false

abbrev flag_of : Json → Bool
flag_of (flag b) = b
flag_of (object name value) = false

abbrev member : Json → Bytes → Option Json
member (flag b) s = none
member (object name value) s = if bytes_eq name s then some value else none

abbrev settings : Documents
settings = record {
  Value = Json;
  Number = ℕ;
  is_object = is_object;
  is_null = λ v. false;
  is_bool = is_flag;
  is_string = λ v. false;
  is_int = λ v. false;
  is_number = λ v. false;
  is_array = λ v. false;
  member = member;
  bool_of = flag_of;
  string_of = λ v. [];
  int_of = λ v. pos 0;
  double_of = λ v. 0;
  float_of = λ v. 0;
  elements_of = λ v. [];
}

-- { "log": { "debug": true } }
abbrev document : Json
document = object (codes "log") (object (codes "debug") (flag true))

abbrev debug : Names
debug = two (codes "log") (codes "debug")

debug_set : get_config_bool settings document debug false ≡ some true
unfolding get_config_bool bytes_eq
debug_set = refl

-- Below a value that is no object the lookup fails.
debug_fails : get_config_bool settings (object (codes "log") (flag true)) debug false ≡ none
unfolding get_config_bool bytes_eq
debug_fails = refl

get_config_read_example :
    let place = walk settings document (names_of debug) in
    (get_config_bool settings document debug false
      ≡ value_or_default settings is_flag flag_of false place)
    × (get_config_string settings document debug []
        ≡ value_or_default settings (λ v. false) (λ v. []) [] place)
    × (get_config_int settings document debug (pos 1)
        ≡ value_or_default settings (λ v. false) (λ v. pos 0) (pos 1) place)
    × (get_config_double settings document debug 2
        ≡ value_or_default settings (λ v. false) (λ v. 0) 2 place)
    × (get_config_float settings document debug 3
        ≡ value_or_default settings (λ v. false) (λ v. 0) 3 place)
    × (get_config_array settings document (codes "log")
        ≡ elim (walk settings document (codes "log" ∷ [])) [
          | found v ↦ none
          | missing ↦ none
          | no_object ↦ none
        ])
get_config_read_example = get_config_read settings document debug (codes "log") false [] (pos 1) 2 3

load_config_from_json_lem_example :
    load_config_from_json (first_block 65536 []) (λ contents. false) (some (codes "{}"))
    ≡ (if ltb (length (codes "{}")) 65536 then some 2 else none)
load_config_from_json_lem_example =
    load_config_from_json_lem (first_block 65536 []) (λ contents. false) (codes "{}") [] refl
      (omega arith)
