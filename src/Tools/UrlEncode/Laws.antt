-- ===== src/Tools/UrlEncode/Laws.antt =====
-- What is encoded can be decoded, and what cannot be encoded.
use cpp_client_rabbit_mq.Common.{
  ℕ, ◌+◌, ◌-◌, ◌*◌, ◌≡◌, refl, Bool, true, false, Option, none, some, [], ◌∷◌, ◌++◌, Bytes, ◌==◌,
  leb, ltb, ◌&&◌, arith, if◌then◌else◌, Option-cases, inl, inr,
}
use cpp_client_rabbit_mq.Tools.UrlEncode.{encode_char, url_encode}

-- The value of a hexadecimal digit.
abbrev pub hex_value : ℕ → ℕ
hex_value c = if leb c b'9' then c - b'0' else c - b'a' + 10

-- A decoder of percent encoding. The first argument tells what was read of an escape: nothing, its
-- percent sign, or its first digit too.
abbrev pub url_decode : Option (Option ℕ) → Bytes → Bytes
url_decode state [] = []
url_decode none (c ∷ s) = if c == b'%' then url_decode (some none) s else c ∷ url_decode none s
url_decode (some none) (c ∷ s) = url_decode (some (some c)) s
url_decode (some (some h)) (c ∷ s) = (hex_value h * 16 + hex_value c) ∷ url_decode none s

-- All characters are of ASCII.
abbrev pub all_ascii : Bytes → Bool
all_ascii [] = true
all_ascii (c ∷ s) = ltb c 128 && all_ascii s

-- What one character gives is read as this character.
decode_char :
    (c : ℕ) (e rest : Bytes)
    → encode_char c ≡ some e
    → url_decode none (e ++ rest) ≡ c ∷ url_decode none rest
unfolding encode_char
decode_char c e rest h = ground arith

abbrev pub is_some : Option Bytes → Bool
is_some none = false
is_some (some e) = true

pub is_some-encode_char : (c : ℕ) → is_some (encode_char c) ≡ ltb c 128
unfolding encode_char
is_some-encode_char c = ground arith

-- The text is encoded exactly when all its characters are of ASCII: any other one makes the
-- function read outside its table.
pub url_encode_total : (s : Bytes) → is_some (url_encode s) ≡ all_ascii s
unfolding url_encode
url_encode_total [] = refl
url_encode_total (c ∷ s) = ground (arith, is_some-encode_char c, url_encode_total s)

-- Decoding what was encoded gives the text back.
pub url_decode-url_encode : (s e : Bytes) → url_encode s ≡ some e → url_decode none e ≡ s
unfolding url_encode
url_decode-url_encode [] e h = ground arith
url_decode-url_encode (c ∷ s) e h = elim (Option-cases (encode_char c)) [
  | inl bad ↦ cc (bad)
  | inr (d, good) ↦ elim (Option-cases (url_encode s)) [
    | inl stuck ↦ cc (good, stuck)
    | inr (rest, encoded) ↦
        cc (good, encoded, decode_char c d rest good, url_decode-url_encode s rest encoded)
  ]
]
