-- ===== src/Tools/UrlEncode/Exact.antt =====
-- Which texts are encoded, and as what.
use cpp_client_rabbit_mq.Common.{
  sym, ap, ◌∙◌, ◌/◌, ◌%◌, ◌<◌, Bool-cases, ℕ, ◌+◌, ◌*◌, ◌≡◌, refl, Bool, true, false, Option, none,
  some, [], ◌∷◌, ◌++◌, Bytes, ◌==◌, leb, ltb, ◌&&◌, ◌||◌, not, arith, if◌then◌else◌, Option-cases,
  inl, inr,
}
use cpp_client_rabbit_mq.Tools.UrlEncode.{encode_char, hex, url_encode}
use cpp_client_rabbit_mq.Tools.UrlEncode.Laws.{
  hex_value, url_decode, is_some-encode_char, url_decode-url_encode,
}

-- The characters that stand for themselves: letters, digits, `._-$,;~()`, and the NUL.
abbrev pub is_plain : ℕ → Bool
is_plain c =
    leb 48 c && leb c 57
    || leb 65 c && leb c 90
    || leb 97 c && leb c 122
    || c == 46
    || c == 95
    || c == 45
    || c == 36
    || c == 44
    || c == 59
    || c == 126
    || c == 40
    || c == 41
    || c == 0

-- Two digits of an escape: below 128, in small letters, and for a character that is not plain.
abbrev pub is_escape : (high low : ℕ) → Bool
is_escape high low =
    leb 48 high
    && leb high 55
    && (leb 48 low && leb low 57 || leb 97 low && leb low 102)
    && not (is_plain (hex_value high * 16 + hex_value low))

-- A text of plain characters and escapes.
abbrev pub is_encoded : Option (Option ℕ) → Bytes → Bool
is_encoded none [] = true
is_encoded (some h) [] = false
is_encoded none (c ∷ s) =
    if c == b'%' then is_encoded (some none) s else is_plain c && is_encoded none s
is_encoded (some none) (c ∷ s) = is_encoded (some (some c)) s
is_encoded (some (some h)) (c ∷ s) = is_escape h c && is_encoded none s

encode_char_plain : (c : ℕ) → is_plain c ≡ true → encode_char c ≡ some (c ∷ [])
unfolding encode_char
encode_char_plain c h = ground arith

encode_char_escape :
    (h l : ℕ)
    → is_escape h l ≡ true
    → encode_char (hex_value h * 16 + hex_value l) ≡ some (b'%' ∷ h ∷ l ∷ [])
unfolding encode_char
encode_char_escape h l k = ground arith

encode_char_digits :
    (c : ℕ)
    → is_plain c ≡ false
    → ltb c 128 ≡ true
    → encode_char c ≡ some (b'%' ∷ hex (c / 16) ∷ hex (c % 16) ∷ [])
unfolding encode_char
encode_char_digits c p a = ground arith

hex_value-hex : (n : ℕ) → n < 16 → hex_value (hex n) ≡ n
unfolding hex
hex_value-hex n h = ground arith

is_escape-hex :
    (c : ℕ) → is_plain c ≡ false → ltb c 128 ≡ true → is_escape (hex (c / 16)) (hex (c % 16)) ≡ true
unfolding hex
is_escape-hex c p a =
    let high = hex_value-hex (c / 16) (ground arith) in
    let low = hex_value-hex (c % 16) (omega arith) in
    let whole : c / 16 * 16 + c % 16 ≡ c = omega arith in rw (high, low, whole, p) (ground arith)

is_plain_no_percent : (c : ℕ) → is_plain c ≡ true → (c == b'%') ≡ false
is_plain_no_percent c h = ground arith

is_encoded-encode_char :
    (c : ℕ) (rest : Bytes)
    → ltb c 128 ≡ true
    → (d : Bytes) × (encode_char c ≡ some d) × (is_encoded none (d ++ rest) ≡ is_encoded none rest)
is_encoded-encode_char c rest a = elim (Bool-cases (is_plain c)) [
  | inl plain ↦ (c ∷ [], encode_char_plain c plain, rw (is_plain_no_percent c plain, plain) refl)
  | inr other ↦ (_, encode_char_digits c other a, rw (is_escape-hex c other a) refl)
]

is_encoded-url_encode : (s e : Bytes) → url_encode s ≡ some e → is_encoded none e ≡ true
unfolding url_encode
is_encoded-url_encode [] e h = ground arith
is_encoded-url_encode (c ∷ s) e h = elim (Bool-cases (ltb c 128)) [
  | inl ascii ↦ elim (Option-cases (url_encode s)) [
    | inl stuck ↦ cc (is_encoded-encode_char c [] ascii).1
    | inr (rest, encoded) ↦
        let (d, good, kept) = is_encoded-encode_char c rest ascii in
        cc (good, encoded, kept, is_encoded-url_encode s rest encoded)
  ]
  | inr wide ↦ grind (arith, is_some-encode_char c)
]

url_encode_cons :
    (c : ℕ) (s d e : Bytes)
    → encode_char c ≡ some d
    → url_encode s ≡ some e
    → url_encode (c ∷ s) ≡ some (d ++ e)
unfolding url_encode
url_encode_cons c s d e h k = ground arith

-- The text is given back from its decoding.
abbrev IsRestored : Bytes → Type 0
IsRestored e = is_encoded none e ≡ true → url_encode (url_decode none e) ≡ some e

plain_head : (c : ℕ) (e : Bytes) → (c == b'%') ≡ false → IsRestored e → IsRestored (c ∷ e)
plain_head c e other restored h =
    let parts : (is_plain c ≡ true) × (is_encoded none e ≡ true) = ground arith in
    rw other (url_encode_cons c _ (c ∷ []) e (encode_char_plain c parts.0) (restored parts.1))

parts_of : (b p q x : Bool) → b ≡ true → (if b then p && q else x) ≡ true → (p ≡ true) × (q ≡ true)
parts_of b p q x h k = ground arith

escape_head :
    (c h l : ℕ) (e : Bytes) → (c == b'%') ≡ true → IsRestored e → IsRestored (c ∷ h ∷ l ∷ e)
escape_head c h l e percent restored k =
    let parts : (is_escape h l ≡ true) × (is_encoded none e ≡ true) =
      parts_of (c == b'%') (is_escape h l) (is_encoded none e) _ percent k in
    let same : c ≡ b'%' = ground arith in
    rw (percent, same)
      (url_encode_cons _ _ (b'%' ∷ h ∷ l ∷ []) e (encode_char_escape h l parts.0)
        (restored parts.1))

url_encode-url_decode : (e : Bytes) → IsRestored e
unfolding url_encode
url_encode-url_decode [] = λ h. refl
url_encode-url_decode (c ∷ []) = elim (Bool-cases (c == b'%')) [
  | inl percent ↦ λ h. ground arith
  | inr other ↦ plain_head c [] other (url_encode-url_decode [])
]
url_encode-url_decode (c ∷ l ∷ []) = elim (Bool-cases (c == b'%')) [
  | inl percent ↦ λ h. ground arith
  | inr other ↦ plain_head c (l ∷ []) other (url_encode-url_decode (l ∷ []))
]
url_encode-url_decode (c ∷ k ∷ l ∷ e) = elim (Bool-cases (c == b'%')) [
  | inl percent ↦ escape_head c k l e percent (url_encode-url_decode e)
  | inr other ↦ plain_head c (k ∷ l ∷ e) other (url_encode-url_decode (k ∷ l ∷ e))
]

-- The text `s` is encoded as `e` exactly if `e` is made of plain characters and of escapes of
-- others below 128, and is decoded as `s`. So no two texts are encoded alike, and a text that
-- holds any other character is not encoded.
pub url_encode_iff :
    (s e : Bytes)
    → (url_encode s ≡ some e → (is_encoded none e ≡ true) × (url_decode none e ≡ s))
      × ((is_encoded none e ≡ true) × (url_decode none e ≡ s) → url_encode s ≡ some e)
url_encode_iff s e = (
  λ h. (is_encoded-url_encode s e h, url_decode-url_encode s e h),
  λ h. sym (ap url_encode h.1) ∙ url_encode-url_decode e h.0,
)
