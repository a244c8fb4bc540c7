-- ===== src/Tools/Json/Printing.antt =====
-- What is printed of the values whose print is JSON.
use cpp_client_rabbit_mq.Tools.Json.Quoting.{no_control}
use cpp_client_rabbit_mq.Common.{
  leb, ◌≡◌, refl, Bool, true, false, ◌&&◌, not, some, [], ◌∷◌, ◌++◌, ◌==◌, Bytes, codes, pos, arith,
}
use cpp_client_rabbit_mq.Tools.Decimal.{decimal, show_int}
use cpp_client_rabbit_mq.Tools.Json.{
  Any, null, int, uint64, unsigned, double, text, list, object, other, Items, nil, cons, Fields,
  end, field, quoted, separator, visit, items_json, fields_json,
}

abbrev pub is_plain : Bytes → Bool
is_plain [] = true
is_plain (c ∷ s) = leb 32 c && not (c == b'"') && not (c == b'\\') && is_plain s

-- Values whose print is JSON: the keys need no escapes, the texts hold no control characters, which
-- are not escaped, and no value is a floating-point number or
-- of a type without a visitor.
abbrev mutual
  pub is_readable : Any → Bool
  is_readable null = true
  is_readable (int x) = true
  is_readable (uint64 n) = true
  is_readable (unsigned n) = true
  is_readable (double t) = false
  is_readable (text s) = no_control s
  is_readable (list xs) = items_readable xs
  is_readable (object fs) = fields_readable fs
  is_readable other = false

  pub items_readable : Items → Bool
  items_readable nil = true
  items_readable (cons x xs) = is_readable x && items_readable xs

  pub fields_readable : Fields → Bool
  fields_readable end = true
  fields_readable (field k v fs) = is_plain k && is_readable v && fields_readable fs

-- The type of a number is not in its print.
abbrev mutual
  pub as_read : Any → Any
  as_read null = null
  as_read (int x) = int x
  as_read (uint64 n) = int (pos n)
  as_read (unsigned n) = int (pos n)
  as_read (double t) = double t
  as_read (text s) = text s
  as_read (list xs) = list (items_as_read xs)
  as_read (object fs) = object (fields_as_read fs)
  as_read other = other

  pub items_as_read : Items → Items
  items_as_read nil = nil
  items_as_read (cons x xs) = cons (as_read x) (items_as_read xs)

  pub fields_as_read : Fields → Fields
  fields_as_read end = end
  fields_as_read (field k v fs) = field k (as_read v) (fields_as_read fs)

-- What is printed of values that are printed at all.
unfoldable mutual
  unfolding quoted show_int separator

  pub print : Any → Bytes
  print null = codes "null"
  print (int x) = show_int x
  print (uint64 n) = decimal n
  print (unsigned n) = decimal n
  print (double t) = t
  print (text s) = quoted s
  print (list xs) = b'[' ∷ (print_items true xs ++ b']' ∷ [])
  print (object fs) = b'{' ∷ (print_fields true fs ++ b'}' ∷ [])
  print other = []

  pub print_items : Bool → Items → Bytes
  print_items first nil = []
  print_items first (cons x xs) = separator first ++ (print x ++ print_items false xs)

  pub print_fields : Bool → Fields → Bytes
  print_fields first end = []
  print_fields first (field k v fs) =
      separator first ++ (b'"' ∷ (k ++ (codes "\": " ++ (print v ++ print_fields false fs))))

mutual
  unfolding visit print print_items print_fields

  pub visit-print : (v : Any) → is_readable v ≡ true → visit v ≡ some (print v)
  visit-print null h = refl
  visit-print (int x) h = refl
  visit-print (uint64 n) h = refl
  visit-print (unsigned n) h = refl
  visit-print (double t) h = cc
  visit-print (text s) h = refl
  visit-print (list xs) h = rw (items-print true xs h) refl
  visit-print (object fs) h = rw (fields-print true fs h) refl
  visit-print other h = cc

  items-print :
      (b : Bool) (xs : Items) → items_readable xs ≡ true → items_json b xs ≡ some (print_items b xs)
  items-print b nil h = refl
  items-print b (cons x xs) h = ground (arith, visit-print x, items-print false xs)

  fields-print :
      (b : Bool) (fs : Fields)
      → fields_readable fs ≡ true
      → fields_json b fs ≡ some (print_fields b fs)
  fields-print b end h = refl
  fields-print b (field k v fs) h = ground (arith, visit-print v, fields-print false fs)
