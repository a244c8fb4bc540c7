-- ===== src/Tools/JsonUtils.antt =====
-- Reading a configuration: lookups with a default, and loading the file.
-- (include/Tools/JSonUtils.h; Printing is Modules/Tools/JSonUtils.cpp)
pub mod Lookups
pub mod Loading
pub mod Printing
use cpp_client_rabbit_mq.Common.{
  ℕ, ◌+◌, Bool, true, false, not, Bytes, List, [], ◌∷◌, ◌==◌, Option, some, none, ℤ, if◌then◌else◌,
}

-- The values of the JSON library, with their tests and readers. A member is looked up in an object;
-- `Number` is the type of floating-point numbers.
pub record Documents : Type 1 where
  pub Value : Type 0
  pub Number : Type 0
  pub is_object : Value → Bool
  pub is_null : Value → Bool
  pub is_bool : Value → Bool
  pub is_string : Value → Bool
  pub is_int : Value → Bool
  pub is_number : Value → Bool
  pub is_array : Value → Bool
  pub member : Value → Bytes → Option Value
  pub bool_of : Value → Bool
  pub string_of : Value → Bytes
  pub int_of : Value → ℤ
  pub double_of : Value → Number
  pub float_of : Value → Number
  pub elements_of : Value → List Value

-- `none` is an assertion that fails, in the library or in the code.
abbrev pub Checked : Type 0 → Type 0
Checked A = Option A

infixl 10 ◌>>=◌
abbrev pub ◌>>=◌ : {A B : Type 0} → Checked A → (A → Checked B) → Checked B
none >>= f = none
some a >>= f = f a

abbrev pub assert : {A : Type 0} → Bool → A → Checked A
assert true a = some a
assert false a = none

-- `a && b` and `a ? b : c`, which leave out what they do not need
infixr 35 ◌&&?◌
abbrev pub ◌&&?◌ : Checked Bool → Checked Bool → Checked Bool
none &&? b = none
some true &&? b = b
some false &&? b = some false

abbrev pub choose : {A : Type 0} → Checked Bool → Checked A → A → Checked A
choose none a d = none
choose (some true) a d = a
choose (some false) a d = some d

-- The names that the overloads of a function take.
pub data Names : Type 0 where
  one : (s1 : Bytes) → Names
  two : (s1 s2 : Bytes) → Names
  three : (s1 s2 s3 : Bytes) → Names

abbrev is_some : {A : Type 0} → Option A → Bool
is_some none = false
is_some (some a) = true

module _ (documents : Documents) where
  open documents use {
    Value, Number, is_object, is_null, is_bool, is_string, is_int, is_number, is_array, member,
    bool_of, string_of, int_of, double_of, float_of, elements_of,
  }

  -- c.HasMember(s) and c[s], which assert that `c` is an object, and that the member is there
  abbrev pub has_member : Value → Bytes → Checked Bool
  has_member c s = assert (is_object c) (is_some (member c s))

  abbrev pub member_at : Value → Bytes → Checked Value
  member_at c s = if is_object c then member c s else none

  unfoldable pub has_config : Value → Names → Checked Bool
  has_config c (one s1) = has_member c s1
  has_config c (two s1 s2) = has_member c s1 &&? (member_at c s1 >>= λ v. has_member v s2)
  has_config c (three s1 s2 s3) =
      has_member c s1
      &&? ((member_at c s1 >>= λ v. has_member v s2)
          &&? (member_at c s1 >>= λ v. member_at v s2 >>= λ w. has_member w s3))

  -- c[s1], c[s1][s2], c[s1][s2][s3]
  unfoldable pub value_at : Value → Names → Checked Value
  value_at c (one s1) = member_at c s1
  value_at c (two s1 s2) = member_at c s1 >>= λ v. member_at v s2
  value_at c (three s1 s2 s3) = member_at c s1 >>= λ v. member_at v s2 >>= λ w. member_at w s3

  -- The shape of all of them: a test of the value, and a reader, which asserts the test.
  get_config : {A : Type 0} → (Value → Bool) → (Value → A) → Value → Names → A → Checked A
  unfolding has_config value_at
  get_config is of c names d =
      choose (has_config c names &&? (value_at c names >>= λ v. some (is v)))
        (value_at c names >>= λ v. assert (is v) (of v)) d

  unfoldable pub get_config_bool : Value → Names → Bool → Checked Bool
  unfolding get_config
  get_config_bool = get_config is_bool bool_of

  unfoldable pub get_config_string : Value → Names → Bytes → Checked Bytes
  unfolding get_config
  get_config_string = get_config is_string string_of

  unfoldable pub get_config_int : Value → Names → ℤ → Checked ℤ
  unfolding get_config
  get_config_int = get_config is_int int_of

  unfoldable pub get_config_double : Value → Names → Number → Checked Number
  unfolding get_config
  get_config_double = get_config is_number double_of

  unfoldable pub get_config_float : Value → Names → Number → Checked Number
  unfolding get_config
  get_config_float = get_config is_number float_of

  unfoldable pub get_config_array : Value → (s1 : Bytes) → Checked (List Value)
  unfolding has_config
  get_config_array c s1 = has_config c (one s1) >>= λ has.
      assert has tt >>= λ _. member_at c s1 >>= λ v. assert (is_array v) (elements_of v)

  -- The shape of the three: a member that is there, not null, and of another type.
  has_error_content : (Value → Bool) → Value → Bytes → Checked Bool
  has_error_content is d s1 =
      has_member d s1
      &&? ((member_at d s1 >>= λ v. some (not (is_null v)))
          &&? (member_at d s1 >>= λ v. some (not (is v))))

  unfoldable pub has_error_content_bool : Value → Bytes → Checked Bool
  unfolding has_error_content
  has_error_content_bool = has_error_content is_bool

  unfoldable pub has_error_content_string : Value → Bytes → Checked Bool
  unfolding has_error_content
  has_error_content_string = has_error_content is_string

  unfoldable pub has_error_content_array : Value → Bytes → Checked Bool
  unfolding has_error_content
  has_error_content_array = has_error_content is_array

-- strlen of an array; `none` is a read behind it.
unfoldable pub strlen : Bytes → Option ℕ
strlen [] = none
strlen (c ∷ s) = if c == 0 then some 0 else elim (strlen s) [ none ↦ none | some n ↦ some (n + 1) ]

-- loadConfigFromJson: what the open file holds, which is `none` where it cannot be opened, the buffer
-- after the stream is made on it, and whether the parser finds an error.
unfoldable pub load_config_from_json :
    (read_block : Bytes → Bytes) (has_parse_error : Bytes → Bool) → Option Bytes → Option ℕ
unfolding strlen
load_config_from_json read_block has_parse_error none = some 0
load_config_from_json read_block has_parse_error (some contents) =
    elim (strlen (read_block contents)) [
      | none ↦ none
      | some length ↦ some (if has_parse_error contents then 0 else length)
    ]
