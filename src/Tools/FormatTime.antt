-- ===== src/Tools/FormatTime.antt =====
-- Zeros in front of single digits of a date. (Modules/Tools/StringUtils.cpp, `check_format_time`)
pub mod Padding
use cpp_client_rabbit_mq.Common.{ℕ, Bool, ◌&&◌, not, Bytes, [], ◌∷◌, ◌==◌, leb, map, if◌then◌else◌}

-- \d
unfoldable pub is_digit : ℕ → Bool
is_digit c = leb b'0' c && leb c b'9'

-- The replacements of `FORMATTERS` put the character `mark` in front of a digit.
-- ^(\d)([^\d])
unfoldable pub pad_front : (mark : ℕ) → Bytes → Bytes
pad_front mark [] = []
pad_front mark (d ∷ []) = d ∷ []
pad_front mark (d ∷ c ∷ s) = if is_digit d && not (is_digit c) then mark ∷ d ∷ c ∷ s else d ∷ c ∷ s

-- ([^\d])(\d)(?=[^\d]), at every place from the left; a match takes two characters.
unfoldable pub pad_middle : (mark : ℕ) → Bytes → Bytes
pad_middle mark [] = []
pad_middle mark (a ∷ []) = a ∷ []
pad_middle mark (a ∷ d ∷ []) = a ∷ d ∷ []
pad_middle mark (a ∷ d ∷ c ∷ s) =
    let matched = a ∷ mark ∷ d ∷ pad_middle mark (c ∷ s) in
    let passed = a ∷ pad_middle mark (d ∷ c ∷ s) in
    if not (is_digit a) && is_digit d && not (is_digit c) then matched else passed

-- ([^\d])(\d)$
unfoldable pub pad_end : (mark : ℕ) → Bytes → Bytes
pad_end mark [] = []
pad_end mark (a ∷ []) = a ∷ []
pad_end mark (a ∷ d ∷ []) = if not (is_digit a) && is_digit d then a ∷ mark ∷ d ∷ [] else a ∷ d ∷ []
pad_end mark (a ∷ d ∷ c ∷ s) = a ∷ pad_end mark (d ∷ c ∷ s)

-- std::replace(value.begin(), value.end(), '@', '0')
unfoldable pub zeros : Bytes → Bytes
zeros [] = []
zeros (c ∷ s) = (if c == b'@' then b'0' else c) ∷ zeros s

unfoldable pub check_format_time : (value : Bytes) → Bytes
unfolding pad_front pad_middle pad_end zeros
check_format_time value =
    zeros (pad_end b'@' (zeros (pad_middle b'@' (zeros (pad_front b'@' value)))))
