-- ===== src/Tools/JsonUtils/Loading.antt =====
-- The length that `loadConfigFromJson` returns.
use cpp_client_rabbit_mq.Common.{
  ℕ, zero, suc, ◌≡◌, refl, Bool, Bytes, [], ◌∷◌, ◌++◌, length, take, HasNoNul, ltb, some, none,
  if◌then◌else◌, arith, Bool-cases, inl, inr,
}
use cpp_client_rabbit_mq.Tools.JsonUtils.{strlen, load_config_from_json}

strlen_nul : (s rest : Bytes) → HasNoNul s → strlen (s ++ 0 ∷ rest) ≡ some (length s)
unfolding strlen
strlen_nul [] rest h = refl
strlen_nul (c ∷ s) rest (hc, hs) = ground (arith, strlen_nul s rest hs)

strlen_unterminated : (s : Bytes) → HasNoNul s → strlen s ≡ none
unfolding strlen
strlen_unterminated [] h = refl
strlen_unterminated (c ∷ s) (hc, hs) = ground (arith, strlen_unterminated s hs)

take-HasNoNul : (n : ℕ) (s : Bytes) → HasNoNul s → HasNoNul (take n s)
take-HasNoNul zero s h = tt
take-HasNoNul (suc n) [] h = tt
take-HasNoNul (suc n) (c ∷ s) (hc, hs) = (hc, take-HasNoNul n s hs)

-- What the stream leaves in a buffer of `size` bytes: the front of the file, and a NUL behind it
-- where there is room, in front of what was in the buffer.
abbrev pub first_block : ℕ → Bytes → Bytes → Bytes
first_block size rest contents =
    if ltb (length contents) size then contents ++ 0 ∷ rest else take size contents

-- A file with no NUL: if it is shorter than the buffer, its length is returned where the parser
-- finds no error, and 0 where it does. If it is as long as the buffer or longer, `strlen` reads
-- behind the end of the buffer.
pub load_config_from_json_lem :
    (read_block : Bytes → Bytes) (has_parse_error : Bytes → Bool) (contents rest : Bytes)
    → read_block contents ≡ first_block 65536 rest contents
    → HasNoNul contents
    → load_config_from_json read_block has_parse_error (some contents) ≡ (
        if ltb (length contents) 65536
        then some (if has_parse_error contents then 0 else length contents)
        else none)
unfolding load_config_from_json
load_config_from_json_lem read_block has_parse_error contents rest h clean =
    elim (Bool-cases (ltb (length contents) 65536)) [
      | inl short ↦
          let e : read_block contents ≡ contents ++ 0 ∷ rest = rw short at h in
          rw (e, strlen_nul contents rest clean, short, load_config_from_json) refl
      | inr long ↦
          let e : read_block contents ≡ take 65536 contents = rw long at h in
          let unterminated =
            strlen_unterminated (take 65536 contents) (take-HasNoNul 65536 contents clean) in
          rw (e, unterminated, long, load_config_from_json) refl
    ]
