-- ===== src/Tools/Decimal/Laws.antt =====
-- Reading back what was printed, and what is read from any digits.
use cpp_client_rabbit_mq.Common.{
  ◌≢◌, is_empty, false, inl, inr, ltb, Bool-cases, ℕ, zero, suc, ◌+◌, ◌-◌, ◌*◌, ◌/◌, ◌%◌, ◌^◌, ◌≤◌,
  ◌<◌, ◌≡◌, refl, Bytes, [], ◌∷◌, arith,
}
use cpp_client_rabbit_mq.Tools.Decimal.{print_digits, decimal, char_value, accumulate, atoui64}

abbrev pub IsDigit : ℕ → Type 0
IsDigit c = (b'0' ≤ c) × (c ≤ b'9')

abbrev pub AreDigits : Bytes → Type 0
AreDigits [] = Unit {0}
AreDigits (c ∷ s) = IsDigit c × AreDigits s

-- The number that digits spell behind `n`, with no bound.
abbrev pub value : ℕ → Bytes → ℕ
value n [] = n
value n (c ∷ s) = value (n * 10 + (c - b'0')) s

print_digits-AreDigits : (f n : ℕ) (out : Bytes) → AreDigits out → AreDigits (print_digits f n out)
unfolding print_digits
print_digits-AreDigits zero n out h = h
print_digits-AreDigits (suc f) n out h =
    ground (arith, print_digits-AreDigits f (n / 10) ((b'0' + n % 10) ∷ out))

value-print_digits : (f n : ℕ) (out : Bytes) → n < f → value 0 (print_digits f n out) ≡ value n out
unfolding print_digits
value-print_digits zero n out h = elim h [ ]
value-print_digits (suc f) n out h =
    ground (arith, value-print_digits f (n / 10) ((b'0' + n % 10) ∷ out))

accumulate-value :
    (s : Bytes) (n : ℕ) → AreDigits s → accumulate s (n % 2 ^ 64) ≡ value n s % 2 ^ 64
unfolding accumulate char_value
accumulate-value [] n h = refl
accumulate-value (c ∷ s) n (hc, hs) =
    ground (arith, accumulate-value s (n * 10 + (c - b'0')) hs, step)
  where
    step : (n % 2 ^ 64 * 10 + (c + 2 ^ 64 - b'0')) % 2 ^ 64 ≡ (n * 10 + (c - b'0')) % 2 ^ 64
    step = omega arith

pub decimal-AreDigits : (n : ℕ) → AreDigits (decimal n)
unfolding decimal
decimal-AreDigits n = print_digits-AreDigits (suc n) n [] tt

is_empty-print_digits :
    (f n : ℕ) (out : Bytes) → is_empty out ≡ false → is_empty (print_digits f n out) ≡ false
unfolding print_digits
is_empty-print_digits zero n out h = h
is_empty-print_digits (suc f) n out h =
    ground (arith, is_empty-print_digits f (n / 10) ((b'0' + n % 10) ∷ out) refl)

pub is_empty-decimal : (n : ℕ) → is_empty (decimal n) ≡ false
unfolding decimal print_digits
is_empty-decimal n = ground (arith, is_empty-print_digits n (n / 10) ((b'0' + n % 10) ∷ []) refl)

pub value-decimal : (n : ℕ) → value 0 (decimal n) ≡ n
unfolding decimal
value-decimal n = value-print_digits (suc n) n [] (omega arith)

-- On digits, `atoui64` is their value modulo 2 ^ 64: a larger number wraps around silently.
pub atoui64-value : (s : Bytes) → AreDigits s → atoui64 s ≡ value 0 s % 2 ^ 64
unfolding atoui64
atoui64-value s h = accumulate-value s 0 h

-- `atoui64` reads back the decimal print of every 64-bit number.
pub atoui64-decimal : (n : ℕ) → n < 2 ^ 64 → atoui64 (decimal n) ≡ n
atoui64-decimal n h =
    ground (arith, atoui64-value (decimal n) (decimal-AreDigits n), value-decimal n)

-- Numbers with the same print are the same number.
pub decimal-injective : (m n : ℕ) → decimal m ≡ decimal n → m ≡ n
decimal-injective m n e = cc (value-decimal m, value-decimal n)

print_digits-cons :
    (f n c : ℕ) (out : Bytes) → (d : ℕ) × (s : Bytes) × (print_digits f n (c ∷ out) ≡ d ∷ s)
unfolding print_digits
print_digits-cons zero n c out = (c, out, refl)
print_digits-cons (suc f) n c out =
    let (d, s, e) = print_digits-cons f (n / 10) (b'0' + n % 10) (c ∷ out) in
    elim (Bool-cases (ltb n 10)) [ inl k ↦ (b'0' + n, c ∷ out, rw k refl) | inr k ↦ (d, s, rw k e) ]

-- A number has a digit.
pub decimal-cons : (n : ℕ) → (d : ℕ) × (s : Bytes) × (decimal n ≡ d ∷ s)
unfolding decimal print_digits
decimal-cons n =
    let (d, s, e) = print_digits-cons n (n / 10) (b'0' + n % 10) [] in
    elim (Bool-cases (ltb n 10)) [ inl k ↦ (b'0' + n, [], rw k refl) | inr k ↦ (d, s, rw k e) ]

-- The digits of a number above 0 do not begin with 0.
print_digits-leading :
    (f n : ℕ) (out : Bytes)
    → n < f
    → 0 < n
    → (d : ℕ) × (s : Bytes) × (print_digits f n out ≡ d ∷ s) × (d ≢ b'0')
unfolding print_digits
print_digits-leading zero n out h k = absurd (omega arith)
print_digits-leading (suc f) n out h k = elim (Bool-cases (ltb n 10)) [
  | inl small ↦ (b'0' + n, out, rw small refl, λ e. absurd (omega arith))
  | inr large ↦
      let ge : 10 ≤ n = ground arith in
      let (d, s, e, ne) =
        print_digits-leading f (n / 10) ((b'0' + n % 10) ∷ out) (omega arith) (omega arith) in
      (d, s, rw large e, ne)
]

pub decimal-leading : (n : ℕ) → 0 < n → (d : ℕ) × (s : Bytes) × (decimal n ≡ d ∷ s) × (d ≢ b'0')
unfolding decimal
decimal-leading n h = print_digits-leading (suc n) n [] (omega arith) h

pub AreDigits-head : (u : Bytes) (d : ℕ) (s : Bytes) → u ≡ d ∷ s → AreDigits u → IsDigit d
AreDigits-head [] d s e h = cc
AreDigits-head (c ∷ u) d s e (hc, hs) = ground arith
