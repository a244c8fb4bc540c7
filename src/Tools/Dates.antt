-- ===== src/Tools/Dates.antt =====
-- Dates read and printed. (Modules/Tools/StringUtils.cpp, `make_time_gmt`, `make_time_local` and the
-- functions `to_string` of a time)
pub mod Zone
pub mod Fraction
use cpp_client_rabbit_mq.Common.{
  ℕ, zero, suc, ◌-◌, ◌/◌, ◌%◌, Bool, true, false, Bytes, [], ◌∷◌, ◌++◌, length, codes, ℤ, pos, ◌+ℤ◌,
  ◌-ℤ◌, if◌then◌else◌,
}
use cpp_client_rabbit_mq.Tools.Decimal.{decimal}

-- The C library: broken-down times, and how the zone of the process relates them to seconds.
-- `get_time` reads into a broken-down time of zeros, and `with_isdst` sets `tm_isdst` to -1.
pub record Calendar : Type 1 where
  pub Tm : Type 0
  pub get_time : (format value : Bytes) → Tm
  pub put_time : (format : Bytes) → Tm → Bytes
  pub with_isdst : Tm → Tm
  pub mktime : Tm → ℤ
  pub localtime : ℤ → Tm
  pub gmtime : ℤ → Tm

-- std::setfill('0'), std::setw(width), std::right
abbrev zeros : ℕ → Bytes
zeros zero = []
zeros (suc n) = b'0' ∷ zeros n

unfoldable pub pad_left : (width : ℕ) → Bytes → Bytes
pad_left width s = zeros (width - length s) ++ s

module _ (calendar : Calendar) where
  open calendar use {Tm, get_time, put_time, with_isdst, mktime, localtime, gmtime}

  unfoldable pub make_time_gmt : (value : Bytes) → ℤ
  make_time_gmt value =
      let basetime = mktime (get_time (codes "%Y-%m-%dT%H:%M:%S") value) in
      let diff = mktime (with_isdst (localtime basetime)) in
      let diff' = diff -ℤ mktime (with_isdst (gmtime basetime)) in basetime +ℤ diff'

  unfoldable pub make_time_local : (value format : Bytes) → ℤ
  make_time_local value format = mktime (get_time format value)

  -- to_string(now), with the microseconds since the epoch
  unfoldable pub to_string_micros : (micros : ℕ) → Bytes
  unfolding pad_left
  to_string_micros micros =
      put_time (codes "%Y-%m-%dT%X.") (gmtime (pos (micros / 1000000)))
      ++ (pad_left 6 (decimal (micros % 1000000)) ++ codes "Z")

  -- to_string(now, format, gmt) and to_string(dt, format, gmt), with the seconds since the epoch
  unfoldable pub to_string_format : ℤ → (format : Bytes) (gmt : Bool) → Bytes
  to_string_format seconds format gmt =
      if gmt then put_time format (gmtime seconds) else put_time format (localtime seconds)
