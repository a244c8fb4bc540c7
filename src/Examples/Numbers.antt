-- ===== src/Examples/Numbers.antt =====
-- The print of floating-point numbers, and a date with a fraction.
-- (include/Tools/StringUtils.h, Modules/Tools/StringUtils.cpp)
use cpp_client_rabbit_mq.Common.{
  ℕ, ◌+◌, ◌*◌, ◌^◌, ◌≡◌, refl, true, codes, pos, negsuc, ◌+ℤ◌, ◌-ℤ◌, some,
}
use cpp_client_rabbit_mq.Tools.Decimal.{decimal}
use cpp_client_rabbit_mq.Tools.Number.{Floating, trim, last_digit, limit, to_string_number}
use cpp_client_rabbit_mq.Tools.Dates.{make_time_gmt}
use cpp_client_rabbit_mq.Tools.Dates.Fraction.{
  Doubles, find_point, read_digit, read_fraction, make_time_gmt_mili,
}
use cpp_client_rabbit_mq.Examples.Dates.{july}

trimmed : trim (codes "2.500") ≡ some (codes "2.5")
unfolding trim last_digit
trimmed = refl

whole : trim (codes "3.000") ≡ some (codes "3.0")
unfolding trim last_digit
whole = refl

-- A number of 15 digits is printed with no point.
abbrev round : Floating
round = record {
  Number = ℕ;
  digits10 = 15;
  is_one_or_more = λ n. true;
  log10 = λ n. 14;
  fixed = λ precision n. decimal n;
}

cut_off : to_string_number round (10 ^ 14) (pos 0) ≡ some (codes "1")
unfolding to_string_number trim last_digit limit ◌-ℤ◌ decimal
cut_off = refl

-- Exact numbers: a count of parts of the given power of ten.
abbrev exact : Doubles
exact = record {
  Double = ℕ × ℕ;
  of_int = λ n. elim n [ pos k ↦ (k, 0) | negsuc k ↦ (0, 0) ];
  null = (0, 0);
  add = λ a b. (a.0 * 10 ^ b.1 + b.0, b.1);
  add_digit = λ a d. (a.0 + d * 10 ^ a.1, a.1);
  tenth = λ a. (a.0, a.1 + 1);
}

with_fraction : make_time_gmt_mili exact july (codes "1970-01-12T13:46:40.250Z") ≡ (1003600250, 3)
unfolding make_time_gmt_mili find_point read_fraction read_digit make_time_gmt ◌+ℤ◌ ◌-ℤ◌
with_fraction = refl
