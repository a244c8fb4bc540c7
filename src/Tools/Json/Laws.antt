-- ===== src/Tools/Json/Laws.antt =====
-- Which values are printed at all.
use cpp_client_rabbit_mq.Common.{
  ◌≡◌, Bool, true, false, ◌&&◌, Option, none, some, Bytes, arith, refl,
}
use cpp_client_rabbit_mq.Tools.Json.{
  Any, null, int, uint64, unsigned, double, text, list, object, other, Items, nil, cons, Fields,
  end, field, visit, items_json, fields_json, to_string_json,
}

-- The value holds no value of a type without a visitor.
abbrev mutual
  pub is_supported : Any → Bool
  is_supported null = true
  is_supported (int x) = true
  is_supported (uint64 n) = true
  is_supported (unsigned n) = true
  is_supported (double t) = true
  is_supported (text s) = true
  is_supported (list xs) = items_supported xs
  is_supported (object fs) = fields_supported fs
  is_supported other = false

  pub items_supported : Items → Bool
  items_supported nil = true
  items_supported (cons x xs) = is_supported x && items_supported xs

  pub fields_supported : Fields → Bool
  fields_supported end = true
  fields_supported (field k v fs) = is_supported v && fields_supported fs

abbrev pub is_some : Option Bytes → Bool
is_some none = false
is_some (some s) = true

mutual
  unfolding visit

  is_some-visit : (v : Any) → is_some (visit v) ≡ is_supported v
  is_some-visit null = refl
  is_some-visit (int x) = refl
  is_some-visit (uint64 n) = refl
  is_some-visit (unsigned n) = refl
  is_some-visit (double t) = refl
  is_some-visit (text s) = refl
  is_some-visit (list xs) = ground (arith, is_some-items true xs)
  is_some-visit (object fs) = ground (arith, is_some-fields true fs)
  is_some-visit other = refl

  is_some-items : (b : Bool) (xs : Items) → is_some (items_json b xs) ≡ items_supported xs
  is_some-items b nil = refl
  is_some-items b (cons x xs) = ground (arith, is_some-visit x, is_some-items false xs)

  is_some-fields : (b : Bool) (fs : Fields) → is_some (fields_json b fs) ≡ fields_supported fs
  is_some-fields b end = refl
  is_some-fields b (field k v fs) = ground (arith, is_some-visit v, is_some-fields false fs)

-- The JSON text is printed exactly when no value, however deep, is of a type without a visitor;
-- otherwise the exception is thrown.
pub to_string_json_total : (fs : Fields) → is_some (to_string_json fs) ≡ fields_supported fs
unfolding to_string_json
to_string_json_total fs = is_some-visit (object fs)
