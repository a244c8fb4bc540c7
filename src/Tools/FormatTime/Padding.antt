-- ===== src/Tools/FormatTime/Padding.antt =====
-- What `check_format_time` makes of a text.
use cpp_client_rabbit_mq.Common.{
  ℕ, ◌≡◌, ◌≢◌, refl, ap, ◌∙◌, Bool, true, false, ◌&&◌, ◌||◌, not, Bytes, [], ◌∷◌, if◌then◌else◌,
  arith, Bool-cases, inl, inr,
}
use cpp_client_rabbit_mq.Tools.FormatTime.{
  is_digit, pad_front, pad_middle, pad_end, zeros, check_format_time,
}

abbrev pub starts_with_digit : Bytes → Bool
starts_with_digit [] = false
starts_with_digit (c ∷ s) = is_digit c

-- The reference: a digit with no digit beside it gets a zero in front. The first argument tells
-- whether there is a digit in front of the text.
unfoldable pub pad : Bool → Bytes → Bytes
pad before [] = []
pad before (c ∷ s) =
    let rest = pad (is_digit c) s in
    if not before && is_digit c && not (starts_with_digit s) then b'0' ∷ c ∷ rest else c ∷ rest

abbrev pub HasNoAt : Bytes → Type 0
HasNoAt [] = Unit {0}
HasNoAt (c ∷ s) = (c ≢ b'@') × HasNoAt s

zeros_id : (s : Bytes) → HasNoAt s → zeros s ≡ s
unfolding zeros
zeros_id [] h = refl
zeros_id (c ∷ s) (hc, hs) = ground (arith, zeros_id s hs)

zeros-pad_front : (s : Bytes) → HasNoAt s → zeros (pad_front b'@' s) ≡ pad_front b'0' s
unfolding zeros pad_front
zeros-pad_front [] h = refl
zeros-pad_front (d ∷ []) h = ground arith
zeros-pad_front (d ∷ c ∷ s) (hd, (hc, hs)) = ground (arith, zeros_id s hs)

zeros-pad_middle : (s : Bytes) → HasNoAt s → zeros (pad_middle b'@' s) ≡ pad_middle b'0' s
unfolding zeros pad_middle
zeros-pad_middle [] h = refl
zeros-pad_middle (a ∷ []) h = ground arith
zeros-pad_middle (a ∷ d ∷ []) h = ground arith
zeros-pad_middle (a ∷ d ∷ c ∷ s) (ha, (hd, (hc, hs))) =
    ground (arith, zeros-pad_middle (c ∷ s) (hc, hs), zeros-pad_middle (d ∷ c ∷ s) (hd, (hc, hs)))

zeros-pad_end : (s : Bytes) → HasNoAt s → zeros (pad_end b'@' s) ≡ pad_end b'0' s
unfolding zeros pad_end
zeros-pad_end [] h = refl
zeros-pad_end (a ∷ []) h = ground arith
zeros-pad_end (a ∷ d ∷ []) h = ground arith
zeros-pad_end (a ∷ d ∷ c ∷ s) (ha, (hd, (hc, hs))) =
    ground (arith, zeros-pad_end (d ∷ c ∷ s) (hd, (hc, hs)))

pad_front-HasNoAt : (s : Bytes) → HasNoAt s → HasNoAt (pad_front b'0' s)
unfolding pad_front
pad_front-HasNoAt [] h = tt
pad_front-HasNoAt (d ∷ []) h = h
pad_front-HasNoAt (d ∷ c ∷ s) h = ground arith

pad_middle-HasNoAt : (s : Bytes) → HasNoAt s → HasNoAt (pad_middle b'0' s)
unfolding pad_middle
pad_middle-HasNoAt [] h = tt
pad_middle-HasNoAt (a ∷ []) h = h
pad_middle-HasNoAt (a ∷ d ∷ []) h = h
pad_middle-HasNoAt (a ∷ d ∷ c ∷ s) (ha, (hd, (hc, hs))) =
    ground
      (arith, pad_middle-HasNoAt (c ∷ s) (hc, hs), pad_middle-HasNoAt (d ∷ c ∷ s) (hd, (hc, hs)))

-- Where there is no `@`, the zeros are put in at once.
passes_lem :
    (s : Bytes)
    → HasNoAt s
    → check_format_time s ≡ pad_end b'0' (pad_middle b'0' (pad_front b'0' s))
unfolding check_format_time
passes_lem s h =
    let front = pad_front-HasNoAt s h in
    rw
      (
        zeros-pad_front s h,
        zeros-pad_middle (pad_front b'0' s) front,
        zeros-pad_end _ (pad_middle-HasNoAt (pad_front b'0' s) front),
      )
      refl

-- The passes behind the first leave the first character where it is.
pad_middle-cons : (c : ℕ) (s : Bytes) → (t : Bytes) × (pad_middle b'0' (c ∷ s) ≡ c ∷ t)
unfolding pad_middle
pad_middle-cons c [] = ([], refl)
pad_middle-cons c (d ∷ []) = (d ∷ [], refl)
pad_middle-cons a (d ∷ c ∷ s) =
    elim (Bool-cases (not (is_digit a) && is_digit d && not (is_digit c))) [
      | inl e ↦ (b'0' ∷ d ∷ pad_middle b'0' (c ∷ s), rw e refl)
      | inr e ↦ (pad_middle b'0' (d ∷ c ∷ s), rw e refl)
    ]

pad_end_skip : (a d c : ℕ) (s : Bytes) → pad_end b'0' (a ∷ d ∷ c ∷ s) ≡ a ∷ pad_end b'0' (d ∷ c ∷ s)
unfolding pad_end
pad_end_skip a d c s = refl

-- Behind a digit nothing is padded.
pad_end_digit :
    (d c : ℕ) (s : Bytes) → is_digit d ≡ true → pad_end b'0' (d ∷ c ∷ s) ≡ d ∷ pad_end b'0' (c ∷ s)
unfolding pad_end
pad_end_digit d c [] h = ground arith
pad_end_digit d c (b ∷ s) h = refl

-- Two characters in front of a third: what the second pass leaves first.
pad_middle-cons-cons :
    (a d : ℕ) (s : Bytes) → (e : ℕ) × (t : Bytes) × (pad_middle b'0' (a ∷ d ∷ s) ≡ a ∷ e ∷ t)
unfolding pad_middle
pad_middle-cons-cons a d [] = (d, [], refl)
pad_middle-cons-cons a d (c ∷ s) =
    let (t, p) = pad_middle-cons d (c ∷ s) in
    elim (Bool-cases (not (is_digit a) && is_digit d && not (is_digit c))) [
      | inl e ↦ (b'0', d ∷ pad_middle b'0' (c ∷ s), rw e refl)
      | inr e ↦ (d, t, rw e (ap (λ u. a ∷ u) p))
    ]

-- The third pass, in front of what the second leaves of a longer text.
end_matched :
    (a d c : ℕ) (s : Bytes)
    → is_digit d ≡ true
    → pad_end b'0' (a ∷ b'0' ∷ d ∷ pad_middle b'0' (c ∷ s))
      ≡ a ∷ b'0' ∷ d ∷ pad_end b'0' (pad_middle b'0' (c ∷ s))
end_matched a d c s h =
    let (t, p) = pad_middle-cons c s in
    rw (p, pad_end_skip, pad_end_skip, pad_end_digit d c t h) refl

end_passed :
    (a d c : ℕ) (s : Bytes)
    → pad_end b'0' (a ∷ pad_middle b'0' (d ∷ c ∷ s))
      ≡ a ∷ pad_end b'0' (pad_middle b'0' (d ∷ c ∷ s))
end_passed a d c s = let (e, t, p) = pad_middle-cons-cons d c s in rw (p, pad_end_skip) refl

pad_digit : (c : ℕ) (s : Bytes) → pad true (c ∷ s) ≡ c ∷ pad (is_digit c) s
unfolding pad
pad_digit c s = refl

-- The second and the third pass, behind any character.
passes-pad : (a : ℕ) (s : Bytes) → pad_end b'0' (pad_middle b'0' (a ∷ s)) ≡ a ∷ pad (is_digit a) s
unfolding pad_middle pad_end pad
passes-pad a [] = refl
passes-pad a (d ∷ []) = ground arith
passes-pad a (d ∷ c ∷ s) = ground (
  arith,
  end_matched a d c s,
  end_passed a d c s,
  passes-pad c s,
  passes-pad d (c ∷ s),
  pad_digit c s,
)

abbrev pub is_one : Bytes → Bool
is_one [] = false
is_one (c ∷ []) = true
is_one (c ∷ d ∷ s) = false

pad_of_passes :
    (s : Bytes) → is_one s ≡ false → pad_end b'0' (pad_middle b'0' (pad_front b'0' s)) ≡ pad false s
unfolding pad_front pad is_digit
pad_of_passes [] h = unfold pad_middle pad_end in refl
pad_of_passes (d ∷ []) h = cc
pad_of_passes (d ∷ c ∷ s) h = ground (arith, passes-pad b'0' (d ∷ c ∷ s), passes-pad d (c ∷ s))

-- Each digit has one beside it.
abbrev pub are_wide : Bool → Bytes → Bool
are_wide before [] = true
are_wide before (c ∷ s) =
    (not (is_digit c) || before || starts_with_digit s) && are_wide (is_digit c) s

starts_with_digit-pad : (s : Bytes) → starts_with_digit (pad true s) ≡ starts_with_digit s
unfolding pad
starts_with_digit-pad [] = refl
starts_with_digit-pad (c ∷ s) = refl

pad-are_wide : (before : Bool) (s : Bytes) → are_wide before (pad before s) ≡ true
unfolding pad is_digit
pad-are_wide before [] = refl
pad-are_wide before (c ∷ s) = ground (arith, pad-are_wide (is_digit c) s, starts_with_digit-pad s)

pad_wide : (before : Bool) (s : Bytes) → are_wide before s ≡ true → pad before s ≡ s
unfolding pad
pad_wide before [] h = refl
pad_wide before (c ∷ s) h = ground (arith, pad_wide (is_digit c) s)

pad-HasNoAt : (before : Bool) (s : Bytes) → HasNoAt s → HasNoAt (pad before s)
unfolding pad
pad-HasNoAt before [] h = tt
pad-HasNoAt before (c ∷ s) (hc, hs) = ground (arith, pad-HasNoAt (is_digit c) s hs)

is_one-pad : (before : Bool) (s : Bytes) → is_one s ≡ false → is_one (pad before s) ≡ false
unfolding pad
is_one-pad before [] h = refl
is_one-pad before (c ∷ []) h = cc
is_one-pad before (c ∷ d ∷ s) h = ground arith

-- A text of another length than one with no `@` is padded as it is meant to: each digit that has
-- none beside it gets a zero in front, and nothing else is changed. So no digit of the result
-- stands alone, and padding the result again changes nothing.
pub check_format_time-pad :
    (value : Bytes)
    → HasNoAt value
    → is_one value ≡ false
    → let padded = check_format_time value in
      (padded ≡ pad false value)
      × (are_wide false padded ≡ true)
      × (check_format_time padded ≡ padded)
check_format_time-pad value h n =
    let e = passes_lem value h ∙ pad_of_passes value n in
    let again =
      passes_lem (pad false value) (pad-HasNoAt false value h)
      ∙ pad_of_passes (pad false value) (is_one-pad false value n)
      ∙ pad_wide false (pad false value) (pad-are_wide false value) in
    (e, rw e (pad-are_wide false value), rw e again)
