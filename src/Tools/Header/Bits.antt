-- ===== src/Tools/Header/Bits.antt =====
-- A byte under a number that is shifted by a byte.
use Prim.Native.Nat.{max, digits, bit_or-bitwise}
use cpp_client_rabbit_mq.Common.{
  ℕ, zero, suc, ◌+◌, ◌*◌, ◌/◌, ◌%◌, ◌≤◌, ◌<◌, ◌≡◌, refl, bit_or, arith,
}

-- More digits than the first number has do not matter.
more_digits : (n m a b : ℕ) → a ≤ n → a ≤ m → digits (λ y. y) max n a b ≡ digits (λ y. y) max m a b
more_digits zero zero a b h k = refl
more_digits zero (suc m) zero b h k = refl
more_digits zero (suc m) (suc a) b h k = absurd (omega arith)
more_digits (suc n) zero zero b h k = refl
more_digits (suc n) zero (suc a) b h k = absurd (omega arith)
more_digits (suc n) (suc m) zero b h k = refl
more_digits (suc n) (suc m) (suc a) b h k =
    omega (arith, more_digits n m (suc a / 2) (b / 2) (omega arith) (omega arith))

-- The lowest digit apart.
halves : (a b : ℕ) → bit_or a b ≡ bit_or (a / 2) (b / 2) * 2 + max (a % 2) (b % 2)
halves zero b = simp bit_or-bitwise (omega arith)
halves (suc a) b =
    let e = more_digits a (suc a / 2) (suc a / 2) (b / 2) (omega arith) (omega arith) in
    simp bit_or-bitwise (omega (arith, e))

or_nothing_below : (n a : ℕ) → a ≤ n → bit_or a 0 ≡ a
or_nothing_below n zero h = simp bit_or-bitwise refl
or_nothing_below zero (suc a) h = absurd (omega arith)
or_nothing_below (suc n) (suc a) h =
    omega (arith, halves (suc a) 0, or_nothing_below n (suc a / 2) (omega arith))

abbrev doubled : ℕ → ℕ → ℕ
doubled zero q = q
doubled (suc k) q = doubled k q * 2

shifted : (k q r : ℕ) → r < doubled k 1 → bit_or (doubled k q) r ≡ doubled k q + r
shifted zero q zero h = omega (arith, or_nothing_below q q (omega arith))
shifted zero q (suc r) h = absurd (omega arith)
shifted (suc k) q r h =
    let half : doubled k q * 2 / 2 ≡ doubled k q = omega arith in
    let step : bit_or (doubled k q * 2) r
        ≡ bit_or (doubled k q) (r / 2) * 2 + max (doubled k q * 2 % 2) (r % 2) =
      rw half at (halves (doubled k q * 2) r) in
    omega (arith, step, shifted k q (r / 2) (omega arith))

pub bit_or-byte : (q r : ℕ) → r < 256 → bit_or (q * 256) r ≡ q * 256 + r
bit_or-byte q r h = let e : doubled 8 q ≡ q * 256 = omega arith in rw e at (shifted 8 q r h)
