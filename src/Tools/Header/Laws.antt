-- ===== src/Tools/Header/Laws.antt =====
-- What is encoded is decoded again.
use native.Mathlib.Nat.{div-div-eq-div-mul, mod-eq_of_lt}
use native.Mathlib.Numerals.{unary_clauses}
use cpp_client_rabbit_mq.Common.{
  ℕ, zero, suc, ◌+◌, ◌*◌, ◌/◌, ◌%◌, ◌^◌, ◌<◌, ◌≡◌, refl, bit_or, Bytes, [], ◌∷◌, some, none, leb,
  Bool, true, false, arith, ap, sym, ◌∙◌, if◌then◌else◌,
}
use cpp_client_rabbit_mq.Tools.Header.{
  size_number, encode_loop, encode_header, decode_loop, decode_header,
}
use cpp_client_rabbit_mq.Tools.Header.Bits.{bit_or-byte}

-- The last `n` digits of a number to the base 256, in front of others.
big_endian : ℕ → ℕ → Bytes → Bytes
big_endian zero v msg = msg
big_endian (suc n) v msg = big_endian n (v / 256) (v % 256 ∷ msg)

-- a * 256 ^ n
scale : ℕ → ℕ → ℕ
scale zero a = a
scale (suc n) a = scale n a * 256

encode_loop_digits :
    (n offset v : ℕ) (msg : Bytes) → encode_loop n offset v msg ≡ big_endian n (v / 2 ^ offset) msg
unfolding encode_loop big_endian
encode_loop_digits zero offset v msg = refl
encode_loop_digits (suc n) offset v msg =
    let e : 2 ^ (offset + 8) ≡ 2 ^ offset * 256 = simp unary_clauses (omega arith) in
    rw (encode_loop_digits n (offset + 8) v, e, div-div-eq-div-mul v (2 ^ offset) 256) refl

-- The digits are read into a number that has room for them.
decode_loop_digits :
    (bits n m a v : ℕ) (msg : Bytes)
    → scale n a + v < 2 ^ bits
    → v < scale n 1
    → decode_loop bits (n + m) a (big_endian n v msg) ≡ decode_loop bits m (scale n a + v) msg
unfolding decode_loop big_endian scale
decode_loop_digits bits zero m a v msg h k =
    let e : 0 + m ≡ m = omega arith in let f : a + v ≡ a = omega arith in rw (e, f) refl
decode_loop_digits bits (suc n) m a v msg h k =
    let A = scale n a + v / 256 in
    let ih : decode_loop bits (n + suc m) a (big_endian n (v / 256) (v % 256 ∷ msg))
        ≡ decode_loop bits (suc m) A (v % 256 ∷ msg) =
      decode_loop_digits bits n (suc m) a (v / 256) (v % 256 ∷ msg) (omega arith) (omega arith) in
    let e : suc n + m ≡ n + suc m = omega arith in
    let fits : A * 256 % 2 ^ bits ≡ A * 256 = mod-eq_of_lt (omega arith) in
    let byte : bit_or (A * 256) (v % 256) ≡ scale n a * 256 + v =
      bit_or-byte A (v % 256) (omega arith) ∙ omega arith in
    rw e (ih ∙ ap (λ number. decode_loop bits m number msg) (rw fits byte))

scale_zero : (n : ℕ) → scale n 0 ≡ 0
unfolding scale
scale_zero zero = refl
scale_zero (suc n) = omega (arith, scale_zero n)

scale_pow : (n : ℕ) → scale n 1 ≡ 256 ^ n
unfolding scale
scale_pow zero = refl
scale_pow (suc n) = simp (unary_clauses, scale_pow n) refl

decode_loop-encode_loop :
    (bits n v : ℕ)
    → v < scale n 1
    → v < 2 ^ bits
    → decode_loop bits n 0 (encode_loop n 0 v []) ≡ some v
unfolding decode_loop
decode_loop-encode_loop bits n v h k =
    let e : n + 0 ≡ n = omega arith in
    let whole : v / 2 ^ 0 ≡ v = omega arith in
    let room : scale n 0 + v ≡ v = omega (arith, scale_zero n) in
    rw (encode_loop_digits n 0 v [], whole)
      (ap (λ j. decode_loop bits j 0 (big_endian n v [])) (sym e)
        ∙ decode_loop_digits bits n 0 0 v [] (omega (arith, scale_zero n)) h
        ∙ ap some room)

chosen : (b : Bool) (x msg : Bytes) → (if b then some x else none) ≡ some msg → x ≡ msg
chosen true x msg h = cc
chosen false x msg h = cc

-- A number that fits into the bytes of the message and into the type that it is read into is read
-- back, whatever the types of the two sides, if both use as many bytes.
pub decode_header-encode_header :
    (size_from size_to tam number : ℕ) (msg : Bytes)
    → encode_header size_from number tam ≡ some msg
    → size_number size_from tam ≡ size_number size_to tam
    → number < 2 ^ 64
    → number < 256 ^ size_number size_to tam
    → number < 2 ^ (8 * size_to)
    → decode_header size_to msg tam ≡ some number
unfolding encode_header decode_header
decode_header-encode_header size_from size_to tam number msg h k h1 h2 h3 =
    let n = size_number size_to tam in
    let v : number % 2 ^ 64 ≡ number = mod-eq_of_lt h1 in
    let e : encode_loop n 0 number [] ≡ msg = chosen (leb n 8) _ msg (rw (k, v) at h) in
    rw e at (decode_loop-encode_loop (8 * size_to) n number (rw (scale_pow n) h2) h3)
