-- ===== src/Tools/Split/Laws.antt =====
-- The parts spell the text, hold no separator, and how the two functions differ.
use cpp_client_rabbit_mq.Common.{
  ℕ, ◌≡◌, Bool, true, ◌&&◌, not, Option, none, some, List, [], ◌∷◌, ◌++◌, Bytes, ◌==◌, is_empty,
  if◌then◌else◌, arith, append_assoc, append-nil, c_string, c_string_id, HasNoNul, refl,
}
use cpp_client_rabbit_mq.Tools.Split.{part, extend, cut, split, get_lines, split_string}

-- The reference: a text is cut at every separator.
abbrev pub parts_of : ℕ → Bytes → Bytes → List Bytes
parts_of delimiter current [] = current ∷ []
parts_of delimiter current (c ∷ s) =
    if c == delimiter
    then current ∷ parts_of delimiter [] s
    else parts_of delimiter (current ++ c ∷ []) s

part-extend : (start : Option Bytes) (c : ℕ) → part (extend start c) ≡ part start ++ c ∷ []
part-extend none c = refl
part-extend (some w) c = refl

cut_parts :
    (d : ℕ) (s : Bytes) (elements : List Bytes) (start : Option Bytes)
    → cut d s elements start ≡ elements ++ parts_of d (part start) (c_string s)
unfolding cut c_string
cut_parts d [] elements start = refl
cut_parts d (c ∷ s) elements start = ground (
  arith,
  cut_parts d s (elements ++ part start ∷ []) none,
  cut_parts d s elements (extend start c),
  part-extend start c,
  append_assoc elements (part start ∷ []) (parts_of d [] (c_string s)),
)

-- `split` cuts the text in front of its first NUL at every separator.
split_parts : (s : Bytes) (d : ℕ) → split s d ≡ parts_of d [] (c_string s)
unfolding split
split_parts s d = cut_parts d s [] none

-- The text between the separators.
abbrev pub join : ℕ → List Bytes → Bytes
join d [] = []
join d (p ∷ []) = p
join d (p ∷ q ∷ ps) = p ++ d ∷ join d (q ∷ ps)

-- No character of the text is the separator.
abbrev pub lacks : ℕ → Bytes → Bool
lacks d [] = true
lacks d (c ∷ s) = not (c == d) && lacks d s

abbrev pub all_lack : ℕ → List Bytes → Bool
all_lack d [] = true
all_lack d (p ∷ ps) = lacks d p && all_lack d ps

lacks-append : (d : ℕ) (s : Bytes) (c : ℕ) → lacks d (s ++ c ∷ []) ≡ (lacks d s && not (c == d))
lacks-append d [] c = ground arith
lacks-append d (b ∷ s) c = ground (arith, lacks-append d s c)

all_lack-parts_of : (d : ℕ) (w s : Bytes) → lacks d w ≡ true → all_lack d (parts_of d w s) ≡ true
all_lack-parts_of d w [] h = ground arith
all_lack-parts_of d w (c ∷ s) h =
    ground
      (arith, all_lack-parts_of d [] s, all_lack-parts_of d (w ++ c ∷ []) s, lacks-append d w c)

-- There is always a part behind a separator.
join-cons : (d : ℕ) (p w s : Bytes) → join d (p ∷ parts_of d w s) ≡ p ++ d ∷ join d (parts_of d w s)
join-cons d p w [] = refl
join-cons d p w (c ∷ s) = ground (arith, join-cons d p (w ++ c ∷ []) s)

join-parts_of : (d : ℕ) (w s : Bytes) → join d (parts_of d w s) ≡ w ++ s
join-parts_of d w [] = rw append-nil
join-parts_of d w (c ∷ s) = ground (
  arith,
  join-cons d w [] s,
  join-parts_of d [] s,
  join-parts_of d (w ++ c ∷ []) s,
  append_assoc w (c ∷ []) s,
)

-- The parts that `split` gives are joined again to the text in front of its first NUL, and none of
-- them holds the separator.
pub join-split :
    (s : Bytes) (d : ℕ) → (join d (split s d) ≡ c_string s) × (all_lack d (split s d) ≡ true)
join-split s d =
    rw split_parts (join-parts_of d [] (c_string s), all_lack-parts_of d [] (c_string s) refl)

parts_of-piece : (d : ℕ) (w p : Bytes) → lacks d p ≡ true → parts_of d w p ≡ (w ++ p) ∷ []
parts_of-piece d w [] h = rw append-nil refl
parts_of-piece d w (c ∷ p) h =
    ground (arith, parts_of-piece d (w ++ c ∷ []) p, append_assoc w (c ∷ []) p)

parts_of-piece_cons :
    (d : ℕ) (w p s : Bytes)
    → lacks d p ≡ true
    → parts_of d w (p ++ d ∷ s) ≡ (w ++ p) ∷ parts_of d [] s
parts_of-piece_cons d w [] s h = ground (arith, append-nil w)
parts_of-piece_cons d w (c ∷ p) s h =
    ground (arith, parts_of-piece_cons d (w ++ c ∷ []) p s, append_assoc w (c ∷ []) p)

parts_of-join :
    (d : ℕ) (p : Bytes) (ps : List Bytes)
    → all_lack d (p ∷ ps) ≡ true
    → parts_of d [] (join d (p ∷ ps)) ≡ p ∷ ps
parts_of-join d p [] h = ground (arith, parts_of-piece d [] p)
parts_of-join d p (q ∷ ps) h =
    ground (arith, parts_of-piece_cons d [] p (join d (q ∷ ps)), parts_of-join d q ps)

-- Texts with no separator and no NUL, at least one, are split apart again.
pub split-join :
    (d : ℕ) (p : Bytes) (ps : List Bytes)
    → all_lack d (p ∷ ps) ≡ true
    → c_string (join d (p ∷ ps)) ≡ join d (p ∷ ps)
    → split (join d (p ∷ ps)) d ≡ p ∷ ps
split-join d p ps h k = rw (split_parts, k) (parts_of-join d p ps h)

-- What `getline` leaves out: the part behind the last separator, if it is empty.
abbrev pub drop_empty_end : List Bytes → List Bytes
drop_empty_end [] = []
drop_empty_end (p ∷ []) = if is_empty p then [] else p ∷ []
drop_empty_end (p ∷ q ∷ ps) = p ∷ drop_empty_end (q ∷ ps)

drop_empty_end-cons :
    (d : ℕ) (p w s : Bytes)
    → drop_empty_end (p ∷ parts_of d w s) ≡ p ∷ drop_empty_end (parts_of d w s)
drop_empty_end-cons d p w [] = refl
drop_empty_end-cons d p w (c ∷ s) = ground (arith, drop_empty_end-cons d p (w ++ c ∷ []) s)

get_lines_parts : (d : ℕ) (w s : Bytes) → get_lines d w s ≡ drop_empty_end (parts_of d w s)
unfolding get_lines
get_lines_parts d w [] = refl
get_lines_parts d w (c ∷ s) =
    ground (
      arith,
      drop_empty_end-cons d w [] s,
      get_lines_parts d [] s,
      get_lines_parts d (w ++ c ∷ []) s,
    )

-- On a text with no NUL, `splitString` gives the parts of `split` but for an empty last one.
pub split_string-split :
    (s : Bytes) (d : ℕ) → HasNoNul s → split_string s d ≡ drop_empty_end (split s d)
unfolding split_string
split_string-split s d h = rw (split_parts, c_string_id s h) (get_lines_parts d [] s)
