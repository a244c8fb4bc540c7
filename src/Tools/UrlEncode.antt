-- ===== src/Tools/UrlEncode.antt =====
-- Percent encoding. (Modules/Tools/StringUtils.cpp, `urlEncode`)
pub mod Laws
pub mod Exact
use cpp_client_rabbit_mq.Common.{
  ℕ, zero, suc, ◌+◌, ◌-◌, ◌*◌, ◌/◌, ◌%◌, Bool, true, false, ◌&&◌, ◌||◌, Option, none, some, List,
  [], ◌∷◌, ◌++◌, Bytes, codes, ◌==◌, leb, ltb, if◌then◌else◌,
}

-- `isalnum`, in the locale "C"
is_alnum : ℕ → Bool
is_alnum c = leb b'0' c && leb c b'9' || leb b'A' c && leb c b'Z' || leb b'a' c && leb c b'z'

-- strchr(dont_escape, c) != NULL: the NUL at the end of the text is found too.
contains : Bytes → ℕ → Bool
contains [] c = c == 0
contains (d ∷ s) c = c == d || contains s c

-- hex[n] for n from 0 to 15
hex : ℕ → ℕ
hex n = if ltb n 10 then b'0' + n else b'a' + (n - 10)

-- What one character gives. For a `char` from 128 on, which is negative, `(*src) >> 4` is negative
-- and the table is read in front of its start: `none`.
unfoldable pub encode_char : ℕ → Option Bytes
unfolding is_alnum contains hex
encode_char c =
    if leb 128 c
    then none
    else if is_alnum c || contains (codes "._-$,;~()") c
    then some (c ∷ [])
    else some (b'%' ∷ hex (c / 16) ∷ hex (c % 16) ∷ [])

unfoldable pub url_encode : Bytes → Option Bytes
unfolding encode_char
url_encode [] = some []
url_encode (c ∷ s) = elim (encode_char c) [
  | none ↦ none
  | some e ↦ elim (url_encode s) [ none ↦ none | some rest ↦ some (e ++ rest) ]
]
