-- ===== src/Tools/Json/Reader.antt =====
-- A reader of JSON text, as the reference for what is printed: of the escapes, of numbers and of
-- white space it takes a part of what JSON has. A control character in a text, an escape of another
-- character, and a zero in front of a digit are errors.
use cpp_client_rabbit_mq.Common.{
  not, ℕ, zero, suc, ◌+◌, ◌-◌, ◌*◌, Bool, false, ◌&&◌, Option, none, some, [], ◌∷◌, ◌==◌, Bytes,
  codes, pos, negsuc, ℤ, leb, if◌then◌else◌,
}
use cpp_client_rabbit_mq.Tools.Json.{
  Any, null, int, text, list, object, Items, nil, cons, Fields, end, field, ◌>>=◌,
}
use cpp_client_rabbit_mq.Tools.Json.Quoting.{read_quoted}

abbrev pub is_digit : ℕ → Bool
is_digit c = leb b'0' c && leb c b'9'

abbrev pub starts_with_digit : Bytes → Bool
starts_with_digit [] = false
starts_with_digit (c ∷ s) = is_digit c

-- A number has a digit, and no 0 in front of another digit.
abbrev pub starts_with_number : Bytes → Bool
starts_with_number [] = false
starts_with_number (c ∷ s) = is_digit c && not (c == b'0' && starts_with_digit s)

-- What stands behind a text that is there.
unfoldable pub strip : Bytes → Bytes → Option Bytes
strip [] s = some s
strip (c ∷ p) [] = none
strip (c ∷ p) (d ∷ s) = let rest = strip p s in if c == d then rest else none

-- The number that digits spell behind `n`, and what follows them.
unfoldable pub read_digits : ℕ → Bytes → ℕ × Bytes
read_digits n [] = (n, [])
read_digits n (c ∷ s) =
    let more = read_digits (n * 10 + (c - b'0')) s in if is_digit c then more else (n, c ∷ s)

abbrev pub negative : ℕ → ℤ
negative zero = pos 0
negative (suc n) = negsuc n

-- A value, or the items or fields that are left of a list or an object, with what follows it. The
-- first argument is fuel.
unfoldable mutual
  unfolding strip read_digits

  pub read_value : ℕ → Bytes → Option (Any × Bytes)
  read_value zero s = none
  read_value (suc f) [] = none
  read_value (suc f) (c ∷ s) =
      let items = read_items f s in
      let fields = read_fields f s in
      let (n, r) = read_digits 0 s in
      let (m, q) = read_digits 0 (c ∷ s) in
      if c == b'n'
      then (strip (codes "ull") s >>= λ t. some (null, t))
      else if c == b'"'
      then (read_quoted false [] s >>= λ t. some (text t.0, t.1))
      else if c == b'['
      then (elim (strip (codes "]") s) [
        | some t ↦ some (list nil, t)
        | none ↦ items >>= λ t. some (list t.0, t.1)
      ])
      else if c == b'{'
      then (elim (strip (codes "}") s) [
        | some t ↦ some (object end, t)
        | none ↦ fields >>= λ t. some (object t.0, t.1)
      ])
      else if c == b'-'
      then (if starts_with_number s then some (int (negative n), r) else none)
      else if starts_with_number (c ∷ s)
      then some (int (pos m), q)
      else none

  pub read_items : ℕ → Bytes → Option (Items × Bytes)
  read_items zero s = none
  read_items (suc f) s = read_value f s >>= λ v. elim (strip (codes "]") v.1) [
    | some t ↦ some (cons v.0 nil, t)
    | none ↦ strip (codes ", ") v.1 >>= λ t. read_items f t >>= λ xs. some (cons v.0 xs.0, xs.1)
  ]

  pub read_fields : ℕ → Bytes → Option (Fields × Bytes)
  read_fields zero s = none
  read_fields (suc f) s = strip (codes "\"") s >>= λ a. read_quoted false [] a >>= λ k.
      strip (codes ": ") k.1 >>= λ b. read_value f b >>= λ v. elim (strip (codes "}") v.1) [
        | some t ↦ some (field k.0 v.0 end, t)
        | none ↦ strip (codes ", ") v.1 >>= λ t.
            read_fields f t >>= λ fs. some (field k.0 v.0 fs.0, fs.1)
      ]
