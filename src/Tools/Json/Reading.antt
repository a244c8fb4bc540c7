-- ===== src/Tools/Json/Reading.antt =====
-- The text of an object is read back with as much fuel as it has characters.
use cpp_client_rabbit_mq.Common.{
  ℕ, ◌+◌, ◌≤◌, ◌≡◌, refl, ap, sym, ◌∙◌, true, false, some, [], ◌∷◌, ◌++◌, Bytes, codes, length,
  length-append, append-nil, pos, negsuc, arith,
}
use cpp_client_rabbit_mq.Tools.Decimal.{decimal}
use cpp_client_rabbit_mq.Tools.Decimal.Laws.{decimal-cons}
use cpp_client_rabbit_mq.Tools.Json.{
  Any, null, int, uint64, unsigned, double, text, list, object, other, Items, nil, cons, Fields,
  end, field, to_string_json,
}
use cpp_client_rabbit_mq.Tools.Json.Printing.{
  is_readable, items_readable, fields_readable, as_read, print, print_items, print_fields,
  visit-print,
}
use cpp_client_rabbit_mq.Tools.Json.Reader.{read_value}
use cpp_client_rabbit_mq.Tools.Json.RoundTrip.{
  cost, items_cost, fields_cost, and_left, and_right, read-print,
}

length-decimal : (n : ℕ) → 1 ≤ length (decimal n)
length-decimal n = let (d, s, e) = decimal-cons n in omega (arith, ap length e)

mutual
  unfolding print print_items print_fields

  cost-le-length : (v : Any) → is_readable v ≡ true → cost v ≤ length (print v)
  cost-le-length null h = omega arith
  cost-le-length (int (pos n)) h = length-decimal n
  cost-le-length (int (negsuc n)) h = omega arith
  cost-le-length (uint64 n) h = length-decimal n
  cost-le-length (unsigned n) h = length-decimal n
  cost-le-length (double t) h = cc
  cost-le-length (text s) k = omega arith
  cost-le-length (list xs) h =
      omega (arith, (items_cost-le-length xs h).1, length-append (print_items true xs) (b']' ∷ []))
  cost-le-length (object fs) h =
      omega
        (arith, (fields_cost-le-length fs h).1, length-append (print_fields true fs) (b'}' ∷ []))
  cost-le-length other h = cc

  items_cost-le-length :
      (xs : Items)
      → items_readable xs ≡ true
      → (items_cost xs ≤ length (print_items false xs))
        × (items_cost xs ≤ length (print_items true xs) + 1)
  items_cost-le-length nil h = (omega arith, omega arith)
  items_cost-le-length (cons x xs) h =
      let now = cost-le-length x (and_left (is_readable x) (items_readable xs) h) in
      let (later, _) = items_cost-le-length xs (and_right (is_readable x) (items_readable xs) h) in
      let both = length-append (print x) (print_items false xs) in
      (omega (arith, both), omega (arith, both))

  fields_cost-le-length :
      (fs : Fields)
      → fields_readable fs ≡ true
      → (fields_cost fs ≤ length (print_fields false fs))
        × (fields_cost fs ≤ length (print_fields true fs) + 1)
  fields_cost-le-length end h = (omega arith, omega arith)
  fields_cost-le-length (field k v fs) h =
      let readable : is_readable v ≡ true = ground arith in
      let others : fields_readable fs ≡ true = ground arith in
      let now = cost-le-length v readable in
      let (later, _) = fields_cost-le-length fs others in
      let both = length-append (print v) (print_fields false fs) in
      let all = length-append k (codes "\": " ++ (print v ++ print_fields false fs)) in
      (omega (arith, both, all), omega (arith, both, all))

-- An object whose keys hold no quotes, no backslashes and no control characters, and in which no
-- value, however deep, is a text with control characters, a floating-point number or of a type
-- without a visitor, is printed, and a reader of JSON, for which a control character in a text is
-- an error, gives the same object back from the print, but for the types of its numbers, with as much
-- fuel as the print has characters. Its texts may hold quotes and backslashes.
pub to_string_json-read :
    (fs : Fields)
    → fields_readable fs ≡ true
    → (s : Bytes) × (to_string_json fs ≡ some s)
      × (read_value (length s) s ≡ some (as_read (object fs), []))
unfolding to_string_json
to_string_json-read fs h =
    let s = print (object fs) in
    let read = read-print (object fs) (length s) [] h (cost-le-length (object fs) h) refl in
    (s, visit-print (object fs) h, ap (read_value (length s)) (sym (append-nil s)) ∙ read)
