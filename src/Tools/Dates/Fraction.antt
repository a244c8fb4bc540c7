-- ===== src/Tools/Dates/Fraction.antt =====
-- A date with a fraction of a second. (Modules/Tools/StringUtils.cpp, `make_time_gmt_mili`)
use cpp_client_rabbit_mq.Common.{
  ℕ, suc, ◌-◌, ◌≡◌, refl, ap, ◌∙◌, false, Bytes, [], ◌∷◌, ◌++◌, length, length-append,
  length-reverse, reverse-append, take-append, reverse, take, leb, ◌==◌, ◌&&◌, Option, none, some,
  ℤ, if◌then◌else◌, arith,
}
use cpp_client_rabbit_mq.Tools.Dates.{Calendar, make_time_gmt}

-- The operations of `double`.
pub record Doubles : Type 1 where
  pub Double : Type 0
  pub of_int : ℤ → Double
  pub null : Double
  pub add : Double → Double → Double
  pub add_digit : Double → ℕ → Double
  pub tenth : Double → Double

-- value.find( "." )
unfoldable pub find_point : Bytes → Option ℕ
find_point [] = none
find_point (c ∷ s) =
    if c == b'.' then some 0 else elim (find_point s) [ none ↦ none | some n ↦ some (suc n) ]

module _ (doubles : Doubles) where
  open doubles use {Double, of_int, null, add, add_digit, tenth}

  -- The body of the loop.
  unfoldable pub read_digit : Double → ℕ → Double
  read_digit tdec c = if leb b'0' c && leb c b'9' then tenth (add_digit tdec (c - b'0')) else tdec

  -- The loop, over what it has not read.
  unfoldable pub read_fraction : Double → Bytes → Double
  unfolding read_digit
  read_fraction tdec [] = tdec
  read_fraction tdec (c ∷ s) = read_fraction (read_digit tdec c) s

  -- From the end up to the point.
  unfoldable pub make_time_gmt_mili : Calendar → (value : Bytes) → Double
  unfolding find_point read_fraction
  make_time_gmt_mili calendar value =
      let finaltime = of_int (make_time_gmt calendar value) in
      elim (find_point value) [
        | none ↦ finaltime
        | some pos ↦ add finaltime (read_fraction null (take (length value - pos) (reverse value)))
      ]

  -- The fraction, read from the left.
  abbrev pub fraction_of : Bytes → Double
  fraction_of [] = null
  fraction_of (c ∷ s) = read_digit (fraction_of s) c

  read_fraction-append :
      (s t : Bytes) (d : Double) → read_fraction d (s ++ t) ≡ read_fraction (read_fraction d s) t
  unfolding read_fraction
  read_fraction-append [] t d = refl
  read_fraction-append (c ∷ s) t d = read_fraction-append s t (read_digit d c)

  read_fraction-reverse : (s : Bytes) → read_fraction null (reverse s) ≡ fraction_of s
  unfolding read_fraction
  read_fraction-reverse [] = refl
  read_fraction-reverse (c ∷ s) =
      read_fraction-append (reverse s) (c ∷ []) null
      ∙ ap (λ d. read_digit d c) (read_fraction-reverse s)

abbrev pub HasNoPoint : Bytes → Type 0
HasNoPoint [] = Unit {0}
HasNoPoint (c ∷ s) = (c == b'.' ≡ false) × HasNoPoint s

find_point-append : (s t : Bytes) → HasNoPoint s → find_point (s ++ b'.' ∷ t) ≡ some (length s)
unfolding find_point
find_point-append [] t h = refl
find_point-append (c ∷ s) t h = rw (h.0, find_point-append s t h.1) refl

module _ (doubles : Doubles) (calendar : Calendar) where
  open doubles use {Double, of_int, null, add, add_digit, tenth}

  no_point : (s : Bytes) → HasNoPoint s → find_point s ≡ none
  unfolding find_point
  no_point [] h = refl
  no_point (c ∷ s) h = rw (h.0, no_point s h.1) refl

  from_point :
      (s t : Bytes)
      → take (length (s ++ b'.' ∷ t) - length s) (reverse (s ++ b'.' ∷ t)) ≡ reverse (b'.' ∷ t)
  from_point s t =
      let e : length (s ++ b'.' ∷ t) - length s ≡ length (reverse (b'.' ∷ t)) =
        omega (arith, length-append s (b'.' ∷ t), length-reverse (b'.' ∷ t)) in
      rw (e, reverse-append s (b'.' ∷ t)) (take-append (reverse (b'.' ∷ t)) (reverse s))

  -- A text with no point gives the time without a fraction. Otherwise what stands behind the first
  -- point is added: its digits, read from the left, each worth a tenth of the one before it, with all
  -- that is no digit passed over.
  pub make_time_gmt_mili_lem :
      (s t : Bytes)
      → HasNoPoint s
      → (make_time_gmt_mili doubles calendar s ≡ of_int (make_time_gmt calendar s))
        × (make_time_gmt_mili doubles calendar (s ++ b'.' ∷ t)
            ≡ add (of_int (make_time_gmt calendar (s ++ b'.' ∷ t))) (fraction_of doubles t))
  unfolding make_time_gmt_mili
  make_time_gmt_mili_lem s t h = (
    rw (make_time_gmt_mili, no_point s h) refl,
    rw (make_time_gmt_mili, find_point-append s t h, from_point s t)
        (ap (λ d. add (of_int (make_time_gmt calendar (s ++ b'.' ∷ t))) d)
          (read_fraction-reverse doubles (b'.' ∷ t))),
  )
