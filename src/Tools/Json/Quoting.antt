-- ===== src/Tools/Json/Quoting.antt =====
-- Quoted texts can be read back.
use cpp_client_rabbit_mq.Common.{
  ◌&&◌, ◌||◌, leb, ◌≡◌, Bool, true, false, Option, none, some, [], ◌∷◌, ◌++◌, ◌==◌, Bytes, arith,
  append_assoc, append-nil, if◌then◌else◌,
}
use cpp_client_rabbit_mq.Tools.Json.{escape, quoted}

-- What stands behind the first character.
abbrev pub drop_quote : Bytes → Bytes
drop_quote [] = []
drop_quote (c ∷ s) = s

-- JSON has no control characters in a text, unless they are written with an escape.
abbrev pub no_control : Bytes → Bool
no_control [] = true
no_control (c ∷ s) = leb 32 c && no_control s

-- A reader of quoted text behind its first quote: up to the first quote with no backslash in
-- front. It gives the text and what follows the quote. The flag tells that a backslash was read; of
-- the escapes it takes those in which the character stands for itself. A control character is an
-- error.
unfoldable pub read_quoted : Bool → Bytes → Bytes → Option (Bytes × Bytes)
read_quoted pending out [] = none
read_quoted true out (c ∷ s) =
    let keep = read_quoted false (out ++ c ∷ []) s in
    if c == b'"' || c == b'\\' || c == b'/' then keep else none
read_quoted false out (c ∷ s) =
    let skip = read_quoted true out s in
    let keep = read_quoted false (out ++ c ∷ []) s in
    if c == b'"'
    then some (out, s)
    else if c == b'\\'
    then skip
    else if leb 32 c
    then keep
    else none

pub read_quoted-escape :
    (s rest out : Bytes)
    → no_control s ≡ true
    → read_quoted false out (escape s ++ b'"' ∷ rest) ≡ some (out ++ s, rest)
unfolding escape read_quoted
read_quoted-escape [] rest out h = rw append-nil
read_quoted-escape (c ∷ s) rest out h =
    ground (arith, read_quoted-escape s rest (out ++ c ∷ []), append_assoc out (c ∷ []) s)

-- A text without control characters can be read back between its quotes, whatever follows.
pub read_quoted-quoted :
    (s rest : Bytes)
    → no_control s ≡ true
    → read_quoted false [] (drop_quote (quoted s ++ rest)) ≡ some (s, rest)
unfolding quoted
read_quoted-quoted s rest h = rw append_assoc (read_quoted-escape s rest [] h)
