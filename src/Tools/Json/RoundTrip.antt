-- ===== src/Tools/Json/RoundTrip.antt =====
-- Printed JSON text is read back.
use cpp_client_rabbit_mq.Common.{
  ℕ, zero, suc, ◌+◌, ◌≤◌, ◌≡◌, refl, ap, ◌∙◌, Bool, true, false, ◌&&◌, none, some, [], ◌∷◌, ◌++◌,
  Bytes, codes, append_assoc, pos, negsuc, arith,
}
use cpp_client_rabbit_mq.Tools.Json.{
  Any, null, int, uint64, unsigned, double, text, list, object, other, Items, nil, cons, Fields,
  end, field, escape,
}
use cpp_client_rabbit_mq.Tools.Json.Printing.{
  is_plain, is_readable, items_readable, fields_readable, as_read, items_as_read, fields_as_read,
  print, print_items, print_fields,
}
use cpp_client_rabbit_mq.Tools.Json.Reader.{
  strip, read_value, read_items, read_fields, starts_with_digit,
}
use cpp_client_rabbit_mq.Tools.Json.Steps.{
  read_fields_last, read_fields_more, read_items_last, read_items_more, read_value-list,
  read_value_negative, read_value_number, read_value-object, read_value-text, strip-print,
}

-- How much fuel a value takes.
abbrev mutual
  pub cost : Any → ℕ
  cost null = 1
  cost (int x) = 1
  cost (uint64 n) = 1
  cost (unsigned n) = 1
  cost (double t) = 1
  cost (text s) = 1
  cost (list xs) = 1 + items_cost xs
  cost (object fs) = 1 + fields_cost fs
  cost other = 1

  pub items_cost : Items → ℕ
  items_cost nil = 0
  items_cost (cons x xs) = 1 + cost x + items_cost xs

  pub fields_cost : Fields → ℕ
  fields_cost end = 0
  fields_cost (field k v fs) = 1 + cost v + fields_cost fs

abbrev is_nil : Items → Bool
is_nil nil = true
is_nil (cons x xs) = false

abbrev is_end : Fields → Bool
is_end end = true
is_end (field k v fs) = false

pub and_left : (a b : Bool) → (a && b) ≡ true → a ≡ true
and_left true b h = refl
and_left false b h = h

pub and_right : (a b : Bool) → (a && b) ≡ true → b ≡ true
and_right true b h = h
and_right false b h = cc

field_assoc :
    (k s p q : Bytes)
    → (k ++ (codes "\": " ++ (s ++ p))) ++ q ≡ k ++ (codes "\": " ++ (s ++ (p ++ q)))
field_assoc k s p q =
    append_assoc k (codes "\": " ++ (s ++ p)) q
    ∙ ap (λ u. k ++ (codes "\": " ++ u)) (append_assoc s p q)

cost-positive : (v : Any) → cost v ≤ 0 → ⊥
cost-positive null c = omega arith
cost-positive (int x) c = omega arith
cost-positive (uint64 n) c = omega arith
cost-positive (unsigned n) c = omega arith
cost-positive (double t) c = omega arith
cost-positive (text s) c = omega arith
cost-positive (list xs) c = omega arith
cost-positive (object fs) c = omega arith
cost-positive other c = omega arith

strip-items :
    (x : Any) (xs : Items) (rest : Bytes)
    → items_readable (cons x xs) ≡ true
    → strip (codes "]") (print_items true (cons x xs) ++ b']' ∷ rest) ≡ none
unfolding print_items
strip-items x xs rest h =
    ap (strip (codes "]")) (append_assoc (print x) (print_items false xs) (b']' ∷ rest))
    ∙ strip-print x (print_items false xs ++ b']' ∷ rest)
        (and_left (is_readable x) (items_readable xs) h)

strip_quote : (s : Bytes) → strip (codes "}") (b'"' ∷ s) ≡ none
unfolding strip
strip_quote s = refl

module _ (f : ℕ) (rest : Bytes) where
  read_value-null : read_value (suc f) (codes "null" ++ rest) ≡ some (null, rest)
  unfolding read_value
  read_value-null = refl

  read_value_empty : read_value (suc f) (codes "[]" ++ rest) ≡ some (list nil, rest)
  unfolding read_value
  read_value_empty = refl

  read_value_no_fields : read_value (suc f) (codes "{}" ++ rest) ≡ some (object end, rest)
  unfolding read_value
  read_value_no_fields = refl

mutual
  unfolding print print_items print_fields

  pub read-print :
      (v : Any) (f : ℕ) (rest : Bytes)
      → is_readable v ≡ true
      → cost v ≤ f
      → starts_with_digit rest ≡ false
      → read_value f (print v ++ rest) ≡ some (as_read v, rest)
  read-print v zero rest h c d = absurd (cost-positive v c)
  read-print null (suc f) rest h c d = read_value-null f rest
  read-print (int (pos n)) (suc f) rest h c d = read_value_number f n rest d
  read-print (int (negsuc n)) (suc f) rest h c d = read_value_negative f n rest d
  read-print (uint64 n) (suc f) rest h c d = read_value_number f n rest d
  read-print (unsigned n) (suc f) rest h c d = read_value_number f n rest d
  read-print (double t) (suc f) rest h c d = cc
  read-print (text s) (suc f) rest h c d =
      ap (λ u. read_value (suc f) (b'"' ∷ u)) (append_assoc (escape s) (b'"' ∷ []) rest)
      ∙ read_value-text f s rest h
  read-print (list nil) (suc f) rest h c d = read_value_empty f rest
  read-print (list (cons x xs)) (suc f) rest h c d =
      let inner = print_items true (cons x xs) in
      ap (λ u. read_value (suc f) (b'[' ∷ u)) (append_assoc inner (b']' ∷ []) rest)
      ∙ read_value-list f (inner ++ b']' ∷ rest) rest (items_as_read (cons x xs))
          (strip-items x xs rest h) (read_items-print (cons x xs) f rest refl h (omega arith))
  read-print (object end) (suc f) rest h c d = read_value_no_fields f rest
  read-print (object (field k v fs)) (suc f) rest h c d =
      let inner = print_fields true (field k v fs) in
      ap (λ u. read_value (suc f) (b'{' ∷ u)) (append_assoc inner (b'}' ∷ []) rest)
      ∙ read_value-object f (inner ++ b'}' ∷ rest) rest (fields_as_read (field k v fs))
          (strip_quote _) (read_fields-print (field k v fs) f rest refl h (omega arith))
  read-print other (suc f) rest h c d = cc

  read_items-print :
      (xs : Items) (f : ℕ) (rest : Bytes)
      → is_nil xs ≡ false
      → items_readable xs ≡ true
      → items_cost xs ≤ f
      → read_items f (print_items true xs ++ b']' ∷ rest) ≡ some (items_as_read xs, rest)
  read_items-print nil f rest n h c = cc
  read_items-print (cons x xs) zero rest n h c = absurd (omega arith)
  read_items-print (cons x nil) (suc f) rest n h c =
      ap (read_items (suc f)) (append_assoc (print x) [] (b']' ∷ rest))
      ∙ read_items_last f (print x ++ b']' ∷ rest) rest (as_read x)
          (read-print x f (b']' ∷ rest) (and_left (is_readable x) true h) (omega arith) refl)
  read_items-print (cons x (cons y ys)) (suc f) rest n h c =
      let more = print_items true (cons y ys) ++ b']' ∷ rest in
      ap (read_items (suc f)) (append_assoc (print x) (print_items false (cons y ys)) (b']' ∷ rest))
      ∙ read_items_more f (print x ++ b',' ∷ b' ' ∷ more) more rest (as_read x)
          (items_as_read (cons y ys))
          (read-print x f (b',' ∷ b' ' ∷ more)
            (and_left (is_readable x) (items_readable (cons y ys)) h) (omega arith) refl)
          (read_items-print (cons y ys) f rest refl
            (and_right (is_readable x) (items_readable (cons y ys)) h) (omega arith))

  read_fields-print :
      (fs : Fields) (f : ℕ) (rest : Bytes)
      → is_end fs ≡ false
      → fields_readable fs ≡ true
      → fields_cost fs ≤ f
      → read_fields f (print_fields true fs ++ b'}' ∷ rest) ≡ some (fields_as_read fs, rest)
  read_fields-print end f rest n h c = cc
  read_fields-print (field k v fs) zero rest n h c = absurd (omega arith)
  read_fields-print (field k v end) (suc f) rest n h c =
      let plain : is_plain k ≡ true = ground arith in
      let readable : is_readable v ≡ true = ground arith in
      ap (λ u. read_fields (suc f) (b'"' ∷ u)) (field_assoc k (print v) [] (b'}' ∷ rest))
      ∙ read_fields_last f k (print v ++ b'}' ∷ rest) rest (as_read v) plain
          (read-print v f (b'}' ∷ rest) readable (omega arith) refl)
  read_fields-print (field k v (field l w fs)) (suc f) rest n h c =
      let plain : is_plain k ≡ true = ground arith in
      let readable : is_readable v ≡ true = ground arith in
      let others : fields_readable (field l w fs) ≡ true = ground arith in
      let tail = print_fields false (field l w fs) in
      let more = print_fields true (field l w fs) ++ b'}' ∷ rest in
      ap (λ u. read_fields (suc f) (b'"' ∷ u)) (field_assoc k (print v) tail (b'}' ∷ rest))
      ∙ read_fields_more f k (print v ++ b',' ∷ b' ' ∷ more) more rest (as_read v)
          (fields_as_read (field l w fs)) plain
          (read-print v f (b',' ∷ b' ' ∷ more) readable (omega arith) refl)
          (read_fields-print (field l w fs) f rest refl others (omega arith))
