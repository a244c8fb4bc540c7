-- ===== src/Tools/Number/Trimming.antt =====
-- What is left of the zeros at the end of a number.
use cpp_client_rabbit_mq.Common.{
  ℕ, zero, suc, ◌+◌, ◌≡◌, refl, ap, ◌∙◌, false, Bytes, [], ◌∷◌, ◌++◌, length, length-append,
  length-reverse, reverse, reverse-append, take, take-append, append_assoc, ◌==◌, some, arith,
}
use cpp_client_rabbit_mq.Tools.Number.{last_digit, trim}

abbrev pub zeros : ℕ → Bytes
zeros zero = []
zeros (suc n) = b'0' ∷ zeros n

last_digit-zeros : (n : ℕ) (s : Bytes) → last_digit (reverse (zeros n) ++ s) ≡ last_digit s
unfolding last_digit
last_digit-zeros zero s = refl
last_digit-zeros (suc n) s =
    ap last_digit (append_assoc (reverse (zeros n)) (b'0' ∷ []) s) ∙ last_digit-zeros n (b'0' ∷ s)

last_digit-found :
    (s : Bytes) (c n : ℕ)
    → (c == b'0') ≡ false
    → last_digit (reverse (s ++ c ∷ zeros n)) ≡ some (length s, c)
unfolding last_digit
last_digit-found s c n h =
    ap last_digit
      (reverse-append s (c ∷ zeros n) ∙ append_assoc (reverse (zeros n)) (c ∷ []) (reverse s))
    ∙ last_digit-zeros n (c ∷ reverse s)
    ∙ rw h (ap (λ k. some (k, c)) (length-reverse s))

take_more : (s t u : Bytes) (k : ℕ) → k ≡ length (s ++ t) → take k (s ++ (t ++ u)) ≡ s ++ t
take_more s t u k h = rw (h, ← append_assoc s t u) (take-append (s ++ t) u)

-- The zeros behind the last other digit are taken off, whether there is a point in front of them or
-- not; of zeros that follow the point one is left.
pub trim-zeros :
    (s : Bytes) (c n : ℕ)
    → (c == b'0') ≡ false
    → (c == b'.') ≡ false
    → (trim (s ++ c ∷ zeros n) ≡ some (s ++ c ∷ []))
      × (trim (s ++ b'.' ∷ zeros (suc n)) ≡ some (s ++ b'.' ∷ b'0' ∷ []))
unfolding trim
trim-zeros s c n h k = (
  rw (trim, last_digit-found s c n h, k)
      (ap some
        (take_more s (c ∷ []) (zeros n) (length s + 1) (omega (arith, length-append s (c ∷ []))))),
  rw (trim, last_digit-found s b'.' (suc n) refl)
      (ap some (
        take_more s (b'.' ∷ b'0' ∷ []) (zeros n) (length s + 1 + 1)
          (omega (arith, length-append s (b'.' ∷ b'0' ∷ []))))),
)
