-- ===== src/Broker/Dump/Restoring.antt =====
-- The buffer can be restored from its print.
use cpp_client_rabbit_mq.Common.{
  ℕ, zero, suc, ◌+◌, ◌-◌, ◌*◌, ◌/◌, ◌≤◌, ◌<◌, ◌≡◌, refl, ap, sym, ◌∙◌, Bool, true, false, Bytes,
  List, [], ◌∷◌, ◌++◌, append_assoc, append-nil, length, length-append, ◌==◌, bytes_eq,
  bytes_eq_iff, Bool-cases, inl, inr, if◌then◌else◌, arith,
}
use cpp_client_rabbit_mq.Broker.Dump.{
  Line, row_at, dots, total, Dump, fresh_dump, replicate, flush, take_byte, take_bytes, finish_dump,
  amqp_dump,
}

abbrev pub copies : ℕ → Bytes → Bytes
copies zero s = []
copies (suc n) s = s ++ copies n s

-- What a reader makes of a line: in front of a row, the row before is repeated as often as there is
-- room for up to its place. The second part is the last row.
abbrev pub restore_line : Line → Bytes × Bytes → Bytes × Bytes
restore_line (row_at place bytes) (buf, last) =
    (buf ++ copies ((place - length buf) / 16) last ++ bytes, bytes)
restore_line dots s = s
restore_line (total count) s = s

abbrev pub restore : List Line → Bytes × Bytes
restore [] = ([], replicate 16 0)
restore (l ∷ lines) = restore_line l (restore lines)

-- What was read is what the lines restore, some repetitions of their last row, and the row that is
-- not full yet.
record Reads (buf : Bytes) (d : Dump) : Type 0 where
  repeated : ℕ
  parts : buf ≡ (restore d.lines).0 ++ (copies repeated d.old_row ++ d.row)
  last : (restore d.lines).1 ≡ d.old_row
  width : length d.old_row ≡ 16
  within : length d.row ≤ 16
  counted : d.count ≡ length buf

length-copies : (n : ℕ) (s : Bytes) → length s ≡ 16 → length (copies n s) ≡ 16 * n
length-copies zero s h = omega arith
length-copies (suc n) s h = omega (arith, length-append s (copies n s), length-copies n s h)

-- The lines with a row behind them restore what was read up to that row.
restore_row :
    (buf : Bytes) (d : Dump)
    → (r : Reads buf d)
    → restore (Line.row_at (d.count - length d.row) d.row ∷ d.lines) ≡ (buf, d.row)
restore_row buf d r =
    let before = (restore d.lines).0 in
    let between = copies r.repeated d.old_row in
    let all : length buf ≡ length before + (length between + length d.row) =
      ap length r.parts
      ∙ (length-append before (between ++ d.row)
          ∙ ap (λ n. length before + n) (length-append between d.row)) in
    let e : (d.count - length d.row - length before) / 16 ≡ r.repeated =
      omega (arith, all, r.counted, length-copies r.repeated d.old_row r.width) in
    rw (e, r.last) (ap (λ s. (s, d.row)) (append_assoc before between d.row ∙ sym r.parts))

copies-append : (n : ℕ) (s : Bytes) → copies n s ++ s ≡ s ++ copies n s
copies-append zero s = sym (append-nil s)
copies-append (suc n) s = append_assoc s (copies n s) s ∙ ap (λ u. s ++ u) (copies-append n s)

restore_dots :
    (printable : Bool) (lines : List Line)
    → restore (if printable then lines else dots ∷ lines) ≡ restore lines
restore_dots true lines = refl
restore_dots false lines = refl

flushed_same :
    (buf : Bytes) (d : Dump)
    → Reads buf d
    → length d.row ≡ 16
    → d.old_row ≡ d.row
    → Reads buf (record d {
      old_row = d.row;
      row = [];
      showed_dots = true;
      lines = if d.showed_dots then d.lines else dots ∷ d.lines;
    })
flushed_same buf d r h same =
    let e = restore_dots d.showed_dots d.lines in
    let before = (restore d.lines).0 in
    record {
      repeated = suc r.repeated;
      parts =
          r.parts
          ∙ ap (λ s. before ++ (copies r.repeated s ++ d.row)) same
          ∙ ap (λ s. before ++ s)
              (copies-append r.repeated d.row ∙ sym (append-nil (copies (suc r.repeated) d.row)))
          ∙ ap (λ p. p.0 ++ (copies (suc r.repeated) d.row ++ [])) (sym e);
      last = ap (λ p. p.1) e ∙ r.last ∙ same;
      width = h;
      within = omega arith;
      counted = r.counted;
    }

flushed_new :
    (buf : Bytes) (d : Dump)
    → Reads buf d
    → length d.row ≡ 16
    → Reads buf (record d {
      old_row = d.row;
      row = [];
      showed_dots = false;
      lines = Line.row_at (d.count - length d.row) d.row ∷ d.lines;
    })
flushed_new buf d r h =
    let e = restore_row buf d r in
    record {
      repeated = 0;
      parts = sym (append-nil buf) ∙ ap (λ p. p.0 ++ []) (sym e);
      last = ap (λ p. p.1) e;
      width = h;
      within = omega arith;
      counted = r.counted;
    }

flush-Reads : (buf : Bytes) (d : Dump) → Reads buf d → length d.row ≡ 16 → Reads buf (flush d)
unfolding flush
flush-Reads buf d r h = elim (Bool-cases (bytes_eq d.old_row d.row)) [
  | inl k ↦ rw k (flushed_same buf d r h ((bytes_eq_iff d.old_row d.row).0 k))
  | inr k ↦ rw k (flushed_new buf d r h)
]

add-Reads :
    (ch : ℕ) (buf : Bytes) (d : Dump)
    → Reads buf d
    → length d.row < 16
    → Reads (buf ++ ch ∷ []) (record d { count = d.count + 1; row = d.row ++ ch ∷ [] })
add-Reads ch buf d r h =
    let before = (restore d.lines).0 in
    let between = copies r.repeated d.old_row in
    record {
      repeated = r.repeated;
      parts =
          ap (λ s. s ++ ch ∷ []) r.parts
          ∙ append_assoc before (between ++ d.row) (ch ∷ [])
          ∙ ap (λ s. before ++ s) (append_assoc between d.row (ch ∷ []));
      last = r.last;
      width = r.width;
      within = omega (arith, length-append d.row (ch ∷ []));
      counted = omega (arith, r.counted, length-append buf (ch ∷ []));
    }

flush-row : (d : Dump) → length (flush d).row < 16
unfolding flush
flush-row d = ground arith

take_byte-Reads :
    (ch : ℕ) (buf : Bytes) (d : Dump) → Reads buf d → Reads (buf ++ ch ∷ []) (take_byte ch d)
unfolding take_byte
take_byte-Reads ch buf d r = elim (Bool-cases (length d.row == 16)) [
  | inl k ↦ rw k (add-Reads ch buf (flush d) (flush-Reads buf d r (ground arith)) (flush-row d))
  | inr k ↦ let within : length d.row ≤ 16 = r.within in rw k (add-Reads ch buf d r (ground arith))
]

take_bytes-Reads :
    (more buf : Bytes) (d : Dump) → Reads buf d → Reads (buf ++ more) (take_bytes more d)
unfolding take_bytes
take_bytes-Reads [] buf d r = rw append-nil r
take_bytes-Reads (ch ∷ more) buf d r =
    rw (← append_assoc buf (ch ∷ []) more)
      (take_bytes-Reads more (buf ++ ch ∷ []) (take_byte ch d) (take_byte-Reads ch buf d r))

fresh-Reads : Reads [] fresh_dump
fresh-Reads = record {
  repeated = 0;
  parts = refl;
  last = refl;
  width = refl;
  within = omega arith;
  counted = refl;
}

finish_dump-restore :
    (d : Dump)
    → restore (finish_dump d) ≡ restore (Line.row_at (d.count - length d.row) d.row ∷ d.lines)
unfolding finish_dump
finish_dump-restore d = elim (Bool-cases (length d.row == 0)) [
  | inl k ↦ rw k refl
  | inr k ↦ rw k refl
]

-- The print of a buffer loses nothing, although it leaves out rows that repeat the one before, or
-- that are zero at the start: who repeats the last row in front of each row, as often as its place
-- leaves room for, has the buffer again.
pub amqp_dump-restore : (buf : Bytes) → (restore (amqp_dump buf)).0 ≡ buf
unfolding amqp_dump
amqp_dump-restore buf =
    let d = take_bytes buf fresh_dump in
    ap (λ p. p.0)
      (finish_dump-restore d ∙ restore_row buf d (take_bytes-Reads buf [] fresh_dump fresh-Reads))
