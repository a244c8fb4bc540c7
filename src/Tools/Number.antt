-- ===== src/Tools/Number.antt =====
-- The print of a floating-point number. (include/Tools/StringUtils.h, `to_string`)
pub mod Trimming
use cpp_client_rabbit_mq.Common.{
  ℕ, zero, suc, ◌+◌, Bool, Bytes, List, [], ◌∷◌, length, reverse, take, ◌==◌, Option, none, some, ℤ,
  pos, negsuc, ◌-ℤ◌, if◌then◌else◌,
}

-- A type of floating-point numbers: `digits10`, the test for an absolute value of at least 1 with the
-- whole part of its logarithm, and the print with `std::fixed` and `std::setprecision`.
pub record Floating : Type 1 where
  pub Number : Type 0
  pub digits10 : ℕ
  pub is_one_or_more : Number → Bool
  pub log10 : Number → ℕ
  pub fixed : (precision : ℤ) → Number → Bytes

-- From the end: the place of the last character that is no 0, and the character. The text is read
-- backwards; `none` is an `at` outside of it.
unfoldable pub last_digit : Bytes → Option (ℕ × ℕ)
last_digit [] = none
last_digit (c ∷ s) = if c == b'0' then last_digit s else some (length s, c)

-- The two statements under `precision == 0`, and the `substr`.
unfoldable pub trim : Bytes → Option Bytes
unfolding last_digit
trim s = elim (last_digit (reverse s)) [
  | none ↦ none
  | some (place, c) ↦ some (take ((if c == b'.' then place + 1 else place) + 1) s)
]

module _ (floating : Floating) where
  open floating use {Number, digits10, is_one_or_more, log10, fixed}

  -- LIMIT
  unfoldable pub limit : Number → ℤ
  limit num = pos digits10 -ℤ pos (if is_one_or_more num then log10 num else 1) -ℤ pos 1

  -- to_string(num, precision)
  unfoldable pub to_string_number : Number → (precision : ℤ) → Option Bytes
  unfolding trim limit
  to_string_number num (pos zero) = trim (fixed (limit num) num)
  to_string_number num (pos (suc precision)) = some (fixed (pos (suc precision)) num)
  to_string_number num (negsuc precision) = some (fixed (limit num) num)
