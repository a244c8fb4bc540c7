-- ===== src/Tools/Split.antt =====
-- Cutting a text at a separator. (Modules/Tools/StringUtils.cpp, `split` and `splitString`)
pub mod Laws
use cpp_client_rabbit_mq.Common.{
  ℕ, Option, none, some, Bool, true, false, List, [], ◌∷◌, ◌++◌, Bytes, ◌==◌, is_empty,
  if◌then◌else◌,
}

-- `itV1`: null, or the characters from the start of the part up to the one that is read.
-- The part that ends here: empty where the pointer is null.
abbrev part : Option Bytes → Bytes
part none = []
part (some w) = w

-- `if (! itV1) itV1=it`, and the character is read.
abbrev extend : Option Bytes → ℕ → Option Bytes
extend none c = some (c ∷ [])
extend (some w) c = some (w ++ c ∷ [])

-- `while (*it)`, and what follows the loop. The parts so far are the third argument.
unfoldable pub cut : ℕ → Bytes → List Bytes → Option Bytes → List Bytes
cut delimiter [] elements start = elements ++ part start ∷ []
cut delimiter (c ∷ s) elements start =
    if c == 0
    then elements ++ part start ∷ []
    else cut delimiter s (if c == delimiter then elements ++ part start ∷ [] else elements)
        (if c == delimiter then none else extend start c)

-- With the count that a caller gives, which only reserves room; `none` is the assertion that fails
-- for the count 0.
unfoldable pub split_count : Bytes → ℕ → ℕ → Option (List Bytes)
unfolding cut
split_count input delimiter count = if count == 0 then none else some (cut delimiter input [] none)

-- split(input, delimiter), which is split(input, delimiter, 1)
unfoldable pub split : Bytes → ℕ → List Bytes
unfolding cut
split input delimiter = cut delimiter input [] none

-- `while (getline(stream, element, delimiter))`: a line ends at a delimiter or at the end of the
-- text, where there is none if no character is left. The second argument is the line so far.
get_lines : ℕ → Bytes → Bytes → List Bytes
get_lines delimiter line [] = if is_empty line then [] else line ∷ []
get_lines delimiter line (c ∷ s) =
    let next = get_lines delimiter [] s in
    let more = get_lines delimiter (line ++ c ∷ []) s in
    if c == delimiter then line ∷ next else more

unfoldable pub split_string : Bytes → ℕ → List Bytes
unfolding get_lines
split_string input delimiter = get_lines delimiter [] input
