-- ===== src/Tools/Decimal.antt =====
-- Decimal numbers: `atoui64`, and what `<<` and `std::to_string` print of an unsigned number.
-- (Modules/Tools/StringUtils.cpp)
pub mod Laws
use cpp_client_rabbit_mq.Common.{
  ℤ, pos, negsuc, ℕ, zero, suc, ◌+◌, ◌-◌, ◌*◌, ◌/◌, ◌%◌, ◌^◌, Bytes, [], ◌∷◌, ltb, ◌==◌,
  if◌then◌else◌,
}

-- The digits of the number, in front of those that are there already. The fuel is at least the
-- number of digits.
print_digits : ℕ → ℕ → Bytes → Bytes
print_digits zero n out = out
print_digits (suc f) n out =
    let rest = print_digits f (n / 10) ((b'0' + n % 10) ∷ out) in
    if ltb n 10 then (b'0' + n) ∷ out else rest

unfoldable pub decimal : ℕ → Bytes
unfolding print_digits
decimal n = print_digits (suc n) n []

-- `*ptr - '0'`, converted to `uint64_t`; a `char` from 128 on is negative.
char_value : ℕ → ℕ
char_value c = if ltb c 128 then c + 2 ^ 64 - b'0' else c + 2 ^ 64 - 256 - b'0'

-- The loop stops at the first NUL.
accumulate : Bytes → ℕ → ℕ
accumulate [] result = result
accumulate (c ∷ s) result =
    let rest = accumulate s ((result * 10 + char_value c) % 2 ^ 64) in
    if c == 0 then result else rest

unfoldable pub atoui64 : Bytes → ℕ
unfolding accumulate char_value
atoui64 value = accumulate value 0

-- The print of an `int`.
unfoldable pub show_int : ℤ → Bytes
unfolding decimal
show_int (pos n) = decimal n
show_int (negsuc n) = b'-' ∷ decimal (n + 1)
