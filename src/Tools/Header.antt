-- ===== src/Tools/Header.antt =====
-- Numbers in front of a message, the most significant byte first.
-- (include/Tools/StringUtils.h, `encode_header` and `decode_header`)
pub mod Bits
pub mod Laws
use cpp_client_rabbit_mq.Common.{
  ℕ, zero, suc, ◌+◌, ◌*◌, ◌/◌, ◌%◌, ◌^◌, bit_or, Bytes, [], ◌∷◌, Option, some, none, leb,
  if◌then◌else◌, ◌==◌,
}

-- The size in bytes, where 0 stands for that of the type.
abbrev pub size_number : (size_of tam : ℕ) → ℕ
size_number size_of tam = if tam == 0 then size_of else tam

-- The loop from the last position to the first: as many bytes in front of those that are there.
-- `(value >> offset) & 0xFF`
encode_loop : (positions offset value : ℕ) → Bytes → Bytes
encode_loop zero offset value msg = msg
encode_loop (suc n) offset value msg =
    encode_loop n (offset + 8) value ((value / 2 ^ offset) % 256 ∷ msg)

-- The number is stored in a `std::size_t`. A shift of it by 64 or more is undefined: `none`.
unfoldable pub encode_header : (size_of number tam : ℕ) → Option Bytes
unfolding encode_loop
encode_header size_of number tam =
    if leb (size_number size_of tam) 8
    then some (encode_loop (size_number size_of tam) 0 (number % 2 ^ 64) [])
    else none

-- ( number <<= 8 ) |= msg[ n ], for a number of `8 * size_of` bits; a position behind the end of the
-- message is read: `none`.
decode_loop : (bits positions number : ℕ) → Bytes → Option ℕ
decode_loop bits zero number msg = some number
decode_loop bits (suc n) number [] = none
decode_loop bits (suc n) number (c ∷ msg) =
    decode_loop bits n (bit_or (number * 256 % 2 ^ bits) c) msg

unfoldable pub decode_header : (size_of : ℕ) (msg : Bytes) (tam : ℕ) → Option ℕ
unfolding decode_loop
decode_header size_of msg tam = decode_loop (8 * size_of) (size_number size_of tam) 0 msg
