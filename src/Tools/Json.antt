-- ===== src/Tools/Json.antt =====
-- JSON text from values of several types. (Modules/Tools/StringUtils.cpp, `to_string_json`)
pub mod Quoting
pub mod Laws
pub mod Reader
pub mod Printing
pub mod Steps
pub mod RoundTrip
pub mod Reading
use cpp_client_rabbit_mq.Common.{
  ℕ, Bool, true, false, Option, none, some, List, [], ◌∷◌, ◌++◌, ◌+◌, ◌==◌, ◌||◌, Bytes, codes, ℤ,
  pos, negsuc, if◌then◌else◌,
}
use cpp_client_rabbit_mq.Tools.Decimal.{decimal, show_int}

-- A value of `std::any`, by its type. Of a `double` the text that `to_string(x, 0)` gives is kept;
-- `other` is a value of a type that `any_visitor` lacks.
mutual
  pub data Any : Type 0 where
    null : Any
    int : ℤ → Any
    uint64 : ℕ → Any
    unsigned : ℕ → Any
    double : Bytes → Any
    text : Bytes → Any
    list : Items → Any
    object : Fields → Any
    other : Any

  -- std::vector<std::any>
  pub data Items : Type 0 where
    nil : Items
    cons : Any → Items → Items

  -- std::vector<std::pair<std::string, std::any>>
  pub data Fields : Type 0 where
    end : Fields
    field : Bytes → Any → Fields → Fields

-- `std::quoted`: a quote and a backslash get a backslash in front.
pub escape : Bytes → Bytes
escape [] = []
escape (c ∷ s) = if c == b'"' || c == b'\\' then b'\\' ∷ c ∷ escape s else c ∷ escape s

unfoldable pub quoted : Bytes → Bytes
unfolding escape
quoted s = b'"' ∷ (escape s ++ b'"' ∷ [])

-- if (idx++) _s << ", "
pub separator : Bool → Bytes
separator true = []
separator false = codes ", "

infixl 10 ◌>>=◌
abbrev pub ◌>>=◌ {ℓ κ} : {A : Type ℓ} {B : Type κ} → Option A → (A → Option B) → Option B
none >>= f = none
some a >>= f = f a

-- `none` stands for the exception `std::invalid_argument`.
unfoldable mutual
  unfolding quoted show_int separator

  pub visit : Any → Option Bytes
  visit null = some (codes "null")
  visit (int x) = some (show_int x)
  visit (uint64 n) = some (decimal n)
  visit (unsigned n) = some (decimal n)
  visit (double t) = some t
  visit (text s) = some (quoted s)
  visit (list xs) = do inner ← items_json true xs; some (b'[' ∷ (inner ++ b']' ∷ []))
  visit (object fs) = do inner ← fields_json true fs; some (b'{' ∷ (inner ++ b'}' ∷ []))
  visit other = none

  -- The loop over a `std::vector<std::any>`; the first argument tells the first round.
  pub items_json : Bool → Items → Option Bytes
  items_json first nil = some []
  items_json first (cons x xs) = do
    shown ← visit x
    rest ← items_json false xs
    some (separator first ++ (shown ++ rest))

  -- The loop over the pairs; a key is printed as it is.
  pub fields_json : Bool → Fields → Option Bytes
  fields_json first end = some []
  fields_json first (field k v fs) = do
    shown ← visit v
    rest ← fields_json false fs
    some (separator first ++ (b'"' ∷ (k ++ (codes "\": " ++ (shown ++ rest)))))

-- to_string_json(std::vector<std::pair<std::string, std::any>>)
unfoldable pub to_string_json : Fields → Option Bytes
to_string_json fs = visit (object fs)

-- The loop of to_string_json(std::map<std::string, std::string>), over the entries in order.
map_entries : Bool → List (Bytes × Bytes) → Bytes
unfolding separator
map_entries first [] = []
map_entries first ((k, v) ∷ mp) =
    separator first ++ (b'"' ∷ (k ++ (codes "\": " ++ (quoted v ++ map_entries false mp))))

unfoldable pub map_to_string_json : List (Bytes × Bytes) → Bytes
unfolding map_entries
map_to_string_json mp = b'{' ∷ (map_entries true mp ++ b'}' ∷ [])
