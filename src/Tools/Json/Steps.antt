-- ===== src/Tools/Json/Steps.antt =====
-- The steps of the reader, and the text of numbers, keys and values that it meets.
use cpp_client_rabbit_mq.Common.{
  zero, ℕ, suc, ◌+◌, ◌-◌, ◌*◌, ◌≡◌, refl, ap, sym, ◌∙◌, true, false, none, some, [], ◌∷◌, ◌++◌,
  Bytes, codes, pos, negsuc, arith,
}
use cpp_client_rabbit_mq.Tools.Decimal.{decimal}
use cpp_client_rabbit_mq.Tools.Decimal.Laws.{
  AreDigits, value, decimal-AreDigits, decimal-leading, value-decimal, decimal-cons, AreDigits-head,
}
use cpp_client_rabbit_mq.Tools.Json.{
  Any, null, int, uint64, unsigned, double, text, list, object, other, Items, nil, cons, Fields,
  end, field, escape,
}
use cpp_client_rabbit_mq.Tools.Json.Quoting.{no_control, read_quoted, read_quoted-escape}
use cpp_client_rabbit_mq.Tools.Json.Printing.{is_plain, is_readable, print}
use cpp_client_rabbit_mq.Tools.Json.Reader.{
  starts_with_digit, starts_with_number, strip, read_digits, negative, read_value, read_items,
  read_fields,
}

read_digits-append :
    (n : ℕ) (ds rest : Bytes)
    → AreDigits ds
    → starts_with_digit rest ≡ false
    → read_digits n (ds ++ rest) ≡ (value n ds, rest)
unfolding read_digits
read_digits-append n [] [] h k = refl
read_digits-append n [] (c ∷ rest) h k = ground arith
read_digits-append n (d ∷ ds) rest (hd, hs) k =
    ground (arith, read_digits-append (n * 10 + (d - b'0')) ds rest hs k)

read_digits-decimal :
    (n : ℕ) (rest : Bytes)
    → starts_with_digit rest ≡ false
    → read_digits 0 (decimal n ++ rest) ≡ (n, rest)
read_digits-decimal n rest k =
    read_digits-append 0 (decimal n) rest (decimal-AreDigits n) k
    ∙ ap (λ m. (m, rest)) (value-decimal n)

escape_plain : (k : Bytes) → is_plain k ≡ true → escape k ≡ k
unfolding escape
escape_plain [] h = refl
escape_plain (c ∷ k) h = ground (arith, escape_plain k)

plain-no_control : (k : Bytes) → is_plain k ≡ true → no_control k ≡ true
plain-no_control [] h = refl
plain-no_control (c ∷ k) h = ground (arith, plain-no_control k)

read_quoted-plain :
    (k rest : Bytes) → is_plain k ≡ true → read_quoted false [] (k ++ b'"' ∷ rest) ≡ some (k, rest)
read_quoted-plain k rest h =
    ap (λ u. read_quoted false [] (u ++ b'"' ∷ rest)) (sym (escape_plain k h))
    ∙ read_quoted-escape k rest [] (plain-no_control k h)

starts_with_number-decimal :
    (n : ℕ) (rest : Bytes)
    → starts_with_digit rest ≡ false
    → starts_with_number (decimal n ++ rest) ≡ true
unfolding decimal
starts_with_number-decimal zero rest h = rw h refl
starts_with_number-decimal (suc n) rest h =
    let (d, s, e, leads) = decimal-leading (suc n) (omega arith) in
    let digit = AreDigits-head (decimal (suc n)) d s e (decimal-AreDigits (suc n)) in
    rw e (ground arith)

-- The steps of the reader, each at the text that it reads.
module _ (f : ℕ) where
  read_value_digits :
      (c : ℕ) (s : Bytes)
      → starts_with_number (c ∷ s) ≡ true
      → read_value (suc f) (c ∷ s)
        ≡ some (int (pos (read_digits 0 (c ∷ s)).0), (read_digits 0 (c ∷ s)).1)
  unfolding read_value
  read_value_digits c s h = ground arith

  read_value_minus :
      (s : Bytes)
      → starts_with_number s ≡ true
      → read_value (suc f) (b'-' ∷ s)
        ≡ some (int (negative (read_digits 0 s).0), (read_digits 0 s).1)
  unfolding read_value
  read_value_minus s h = rw h refl

  pub read_value-text :
      (s rest : Bytes)
      → no_control s ≡ true
      → read_value (suc f) (b'"' ∷ (escape s ++ b'"' ∷ rest)) ≡ some (text s, rest)
  unfolding read_value
  read_value-text s rest h = rw (read_quoted-escape s rest [] h) refl

  pub read_value-list :
      (s rest : Bytes) (xs : Items)
      → strip (codes "]") s ≡ none
      → read_items f s ≡ some (xs, rest)
      → read_value (suc f) (b'[' ∷ s) ≡ some (list xs, rest)
  unfolding read_value
  read_value-list s rest xs h k = rw (h, k) refl

  pub read_value-object :
      (s rest : Bytes) (fs : Fields)
      → strip (codes "}") s ≡ none
      → read_fields f s ≡ some (fs, rest)
      → read_value (suc f) (b'{' ∷ s) ≡ some (object fs, rest)
  unfolding read_value
  read_value-object s rest fs h k = rw (h, k) refl

  pub read_items_last :
      (s rest : Bytes) (v : Any)
      → read_value f s ≡ some (v, b']' ∷ rest)
      → read_items (suc f) s ≡ some (cons v nil, rest)
  unfolding read_items
  read_items_last s rest v h = rw h refl

  pub read_items_more :
      (s t rest : Bytes) (v : Any) (xs : Items)
      → read_value f s ≡ some (v, b',' ∷ b' ' ∷ t)
      → read_items f t ≡ some (xs, rest)
      → read_items (suc f) s ≡ some (cons v xs, rest)
  unfolding read_items
  read_items_more s t rest v xs h k = rw (h, k) refl

  pub read_fields_last :
      (k s rest : Bytes) (v : Any)
      → is_plain k ≡ true
      → read_value f s ≡ some (v, b'}' ∷ rest)
      → read_fields (suc f) (b'"' ∷ (k ++ (codes "\": " ++ s))) ≡ some (field k v end, rest)
  unfolding read_fields
  read_fields_last k s rest v p h = rw (read_quoted-plain k (codes ": " ++ s) p, h) refl

  pub read_fields_more :
      (k s t rest : Bytes) (v : Any) (fs : Fields)
      → is_plain k ≡ true
      → read_value f s ≡ some (v, b',' ∷ b' ' ∷ t)
      → read_fields f t ≡ some (fs, rest)
      → read_fields (suc f) (b'"' ∷ (k ++ (codes "\": " ++ s))) ≡ some (field k v fs, rest)
  unfolding read_fields
  read_fields_more k s t rest v fs p h g = rw (read_quoted-plain k (codes ": " ++ s) p, h, g) refl

negative_suc : (n : ℕ) → negative (n + 1) ≡ negsuc n
negative_suc n = ground arith

strip-decimal : (n : ℕ) (rest : Bytes) → strip (codes "]") (decimal n ++ rest) ≡ none
unfolding strip
strip-decimal n rest =
    let (d, s, e) = decimal-cons n in
    let digit = AreDigits-head (decimal n) d s e (decimal-AreDigits n) in rw e (ground arith)

-- The print of a value does not begin like the end of a list.
pub strip-print :
    (v : Any) (rest : Bytes) → is_readable v ≡ true → strip (codes "]") (print v ++ rest) ≡ none
unfolding strip print
strip-print null rest h = refl
strip-print (int (pos n)) rest h = strip-decimal n rest
strip-print (int (negsuc n)) rest h = refl
strip-print (uint64 n) rest h = strip-decimal n rest
strip-print (unsigned n) rest h = strip-decimal n rest
strip-print (double t) rest h = cc
strip-print (text s) rest h = refl
strip-print (list xs) rest h = refl
strip-print (object fs) rest h = refl
strip-print other rest h = cc

pub read_value_number :
    (f n : ℕ) (rest : Bytes)
    → starts_with_digit rest ≡ false
    → read_value (suc f) (decimal n ++ rest) ≡ some (int (pos n), rest)
read_value_number f n rest h =
    let (d, s, e) = decimal-cons n in
    let leads : starts_with_number (d ∷ (s ++ rest)) ≡ true =
      ap (λ u. starts_with_number (u ++ rest)) (sym e) ∙ starts_with_number-decimal n rest h in
    let number : read_digits 0 (d ∷ (s ++ rest)) ≡ (n, rest) =
      ap (λ u. read_digits 0 (u ++ rest)) (sym e) ∙ read_digits-decimal n rest h in
    ap (λ u. read_value (suc f) (u ++ rest)) e
    ∙ read_value_digits f d (s ++ rest) leads
    ∙ ap (λ p. some (int (pos p.0), p.1)) number

pub read_value_negative :
    (f n : ℕ) (rest : Bytes)
    → starts_with_digit rest ≡ false
    → read_value (suc f) (b'-' ∷ (decimal (n + 1) ++ rest)) ≡ some (int (negsuc n), rest)
read_value_negative f n rest h =
    read_value_minus f (decimal (n + 1) ++ rest) (starts_with_number-decimal (n + 1) rest h)
    ∙ ap (λ p. some (int (negative p.0), p.1)) (read_digits-decimal (n + 1) rest h)
    ∙ ap (λ x. some (int x, rest)) (negative_suc n)
