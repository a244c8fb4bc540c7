-- ===== src/Broker/Dump.antt =====
-- The hexadecimal print of a buffer. (Modules/Broker/utils.cpp, `amqp_dump`)
pub mod Restoring
use cpp_client_rabbit_mq.Common.{
  ℕ, zero, suc, ◌+◌, ◌-◌, ◌/◌, ◌%◌, Bool, true, false, not, ◌&&◌, Bytes, List, [], ◌∷◌, ◌++◌, codes,
  length, ltb, leb, ◌==◌, bytes_eq, if◌then◌else◌,
}

-- A line of the print: a row of at most 16 bytes with its place in the buffer, the dots that stand
-- for rows that repeat the one before, and the size of the buffer at the end.
pub data Line : Type 0 where
  row_at : (place : ℕ) → Bytes → Line
  dots : Line
  total : (count : ℕ) → Line

-- The variables of the loop: `row` holds the first `numinrow` elements of `chs`, and the lines are
-- those printed so far, the newest first.
pub record Dump : Type 0 where
  pub count : ℕ
  pub row : Bytes
  pub old_row : Bytes
  pub showed_dots : Bool
  pub lines : List Line

abbrev pub replicate : ℕ → ℕ → Bytes
replicate zero c = []
replicate (suc n) c = c ∷ replicate n c

abbrev pub fresh_dump : Dump
fresh_dump = record {
  count = 0;
  row = [];
  old_row = replicate 16 0;
  showed_dots = false;
  lines = [];
}

-- Whether two full rows are the same.
abbrev pub rows_eq : Bytes → Bytes → Bool
rows_eq a b = bytes_eq a b

-- What is done with a row that is full.
unfoldable pub flush : Dump → Dump
flush d =
    if rows_eq d.old_row d.row
    then record d {
      old_row = d.row;
      row = [];
      showed_dots = true;
      lines = if d.showed_dots then d.lines else dots ∷ d.lines;
    }
    else record d {
      old_row = d.row;
      row = [];
      showed_dots = false;
      lines = Line.row_at (d.count - length d.row) d.row ∷ d.lines;
    }

unfoldable pub take_byte : ℕ → Dump → Dump
unfolding flush
take_byte ch d =
    let d' = if length d.row == 16 then flush d else d in
    record d' { count = d'.count + 1; row = d'.row ++ ch ∷ [] }

unfoldable pub take_bytes : Bytes → Dump → Dump
unfolding take_byte
take_bytes [] d = d
take_bytes (ch ∷ buf) d = take_bytes buf (take_byte ch d)

-- The last row is printed whatever it is.
unfoldable pub finish_dump : Dump → List Line
finish_dump d =
    let last = Line.row_at (d.count - length d.row) d.row ∷ d.lines in
    if length d.row == 0 then last else total d.count ∷ last

-- The lines, the newest first.
unfoldable pub amqp_dump : Bytes → List Line
unfolding take_bytes finish_dump
amqp_dump buf = finish_dump (take_bytes buf fresh_dump)

-- %lX, with at least `width` digits; the fuel is at least the number of digits.
unfoldable pub upper_hex_digit : ℕ → ℕ
upper_hex_digit n = if ltb n 10 then b'0' + n else b'A' + (n - 10)

unfoldable pub upper_hex_digits : ℕ → (width n : ℕ) → Bytes → Bytes
upper_hex_digits zero width n out = out
upper_hex_digits (suc f) width n out =
    let rest = upper_hex_digits f (width - 1) (n / 16) (upper_hex_digit (n % 16) ∷ out) in
    if n == 0 && width == 0 then out else rest

unfoldable pub upper_hex : (width n : ℕ) → Bytes
upper_hex width n = upper_hex_digits (width + n + 1) width n []

-- `if (i == 8) printf(" :")`
unfoldable pub colon : ℕ → Bytes
colon i = if i == 8 then codes " :" else []

unfoldable pub cells : ℕ → Bytes → Bytes
cells i [] = []
cells i (c ∷ row) = colon i ++ (b' ' ∷ (upper_hex 2 c ++ cells (i + 1) row))

unfoldable pub blanks : ℕ → ℕ → Bytes
blanks zero i = []
blanks (suc n) i = colon i ++ (codes "   " ++ blanks n (i + 1))

-- isprint
unfoldable pub printable : Bytes → Bytes
printable [] = []
printable (c ∷ row) = (if leb 32 c && leb c 126 then c else b'.') ∷ printable row

-- What the printf calls write for a line: `dump_row` for a row, and the two of `amqp_dump`.
unfoldable pub line_text : Line → Bytes
unfolding upper_hex upper_hex_digits upper_hex_digit cells blanks colon printable
line_text (row_at place bytes) =
    upper_hex 8 place
    ++ (b':'
        ∷ (if length bytes == 0
            then []
            else cells 0 bytes
              ++ (blanks (16 - length bytes) (length bytes) ++ (codes "  " ++ printable bytes))))
    ++ 10 ∷ []
line_text dots = codes "          .. .. .. .. .. .. .. .. : .. .. .. .. .. .. .. .." ++ 10 ∷ []
line_text (total count) = upper_hex 8 count ++ codes ":" ++ 10 ∷ []
