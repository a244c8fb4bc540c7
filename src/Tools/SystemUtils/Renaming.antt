-- ===== src/Tools/SystemUtils/Renaming.antt =====
-- The two functions that rename files do the same, and one of them compresses the result.
use cpp_client_rabbit_mq.Common.{
  ◌≡◌, refl, sym, ap, ◌∙◌, Bool, true, false, ◌&&◌, not, Bytes, List, [], ◌∷◌, ◌++◌, map,
  append-nil, append_assoc, map, map-append, c_string, is_empty, Option-cases, Bool-cases, ◌⊎◌, inl,
  inr, arith, if◌then◌else◌,
}
use cpp_client_rabbit_mq.Tools.Step.{
  State, Ending, returned, raised, aborted, continue, pure, ◌>>=◌, ◌>>◌,
}
use cpp_client_rabbit_mq.Tools.SystemUtils.{
  Call, FileSystem, name_file, is_file, rename_file, rename_round, rename_loop, rename_files,
  renamed_round, renamed_loop, compress_files, rename_and_compress_files,
}

-- The end of `rename_loop`, with some files.
abbrev with_files : List Bytes → Ending Bool → Ending (Bool × List Bytes)
with_files files (returned ok) = returned (ok, files)
with_files files (raised m) = raised m
with_files files aborted = aborted

Ending-cases :
    {A : Type 0} (e : Ending A)
    → ((a : A) × (e ≡ returned a)) ⊎ (((m : Bytes) × (e ≡ raised m)) ⊎ (e ≡ aborted))
Ending-cases (returned a) = inl (a, refl)
Ending-cases (raised m) = inr (inl (m, refl))
Ending-cases aborted = inr (inr refl)

module _ (fs : FileSystem) where
  -- The new names of the files that were renamed in some calls, the first one first.
  abbrev pub moved : List Call → List Bytes
  moved [] = []
  moved (Call.rename from to ∷ calls) =
      if fs.is_renamed_of (Call.rename from to ∷ calls) then moved calls ++ to ∷ [] else moved calls
  moved (Call.entries path ∷ calls) = moved calls
  moved (Call.is_regular_file name ∷ calls) = moved calls
  moved (Call.is_symlink name ∷ calls) = moved calls
  moved (Call.last_write_time name ∷ calls) = moved calls
  moved (Call.system command ∷ calls) = moved calls

  is_file-moved :
      (name : Bytes) (s : State (Unit {0}) Call) → moved (is_file fs name s).1.calls ≡ moved s.calls
  unfolding is_file
  is_file-moved name s = ground arith

  -- What a round of the one and of the other loop have in common.
  abbrev Agree :
      List Bytes
      → List Bytes
      → State (Unit {0}) Call
      → Ending Bool × State (Unit {0}) Call
      → Ending (Bool × List Bytes) × State (Unit {0}) Call
      → Type 0
  Agree before new s r r' =
      (moved r.1.calls ≡ moved s.calls ++ map c_string new)
      × (r' ≡ (with_files (before ++ new) r.0, r.1))

  module _ (extension format : Bytes) where
    -- The same for the work on a file that is to be renamed.
    renaming-Agree :
        (name : Bytes) (ok : Bool) (before : List Bytes) (s : State (Unit {0}) Call)
        → (new : List Bytes) × Agree before new s
            ((rename_file fs name extension format >>= λ r. pure (ok && r.1)) s)
            ((rename_file fs name extension format >>= λ r.
                pure (if r.1 then (ok, before ++ r.0 ∷ []) else (false, before)))
              s)
    unfolding rename_file
    renaming-Agree name ok before s =
        let asked = Call.last_write_time name ∷ s.calls in
        elim (Option-cases (fs.time_of asked)) [
          | inl e ↦ ([], (ground (arith, append-nil (moved s.calls)), ground arith))
          | inr (time, e) ↦
              let to = name_file name (fs.put_time time format) extension in
              elim (Bool-cases
                (fs.is_renamed_of (Call.rename (c_string name) (c_string to) ∷ asked))) [
                  | inl k ↦ (to ∷ [], (ground arith, ground arith))
                  | inr k ↦ (
                    [],
                    (ground (arith, append-nil (moved s.calls)), ground (arith, append-nil before)),
                  )
                ]
        ]

    -- Nothing is renamed, and the one and the other end in the same way.
    idle-Agree :
        (before : List Bytes) (s s' : State (Unit {0}) Call) (e : Ending Bool)
        → moved s'.calls ≡ moved s.calls
        → (new : List Bytes) × Agree before new s (e, s') (with_files before e, s')
    idle-Agree before s s' e h =
        ([], (h ∙ sym (append-nil (moved s.calls)), rw (append-nil before) refl))

    round-Agree :
        (name : Bytes) (ok : Bool) (before : List Bytes) (s : State (Unit {0}) Call)
        → (new : List Bytes) × Agree before new s
            (rename_round fs name extension format ok s)
            (renamed_round fs name extension format (ok, before) s)
    unfolding rename_round renamed_round
    round-Agree name ok before s =
        let h = is_file-moved name s in
        let s' = (is_file fs name s).1 in
        elim (Ending-cases (is_file fs name s).0) [
          | inl (file, e) ↦ elim (Bool-cases (file && not (is_empty format))) [
            | inl k ↦ rw (e, continue, k, ← h) (renaming-Agree name ok before s')
            | inr k ↦ rw (e, continue, k) (idle-Agree before s s' (returned ok) h)
          ]
          | inr (inl (m, e)) ↦ rw e (idle-Agree before s s' (raised m) h)
          | inr (inr e) ↦ rw e (idle-Agree before s s' aborted h)
        ]

    loop-Agree :
        (names : List Bytes) (ok : Bool) (before : List Bytes) (s : State (Unit {0}) Call)
        → (new : List Bytes) × Agree before new s
            (rename_loop fs names extension format ok s)
            (renamed_loop fs names extension format (ok, before) s)
    unfolding rename_loop renamed_loop
    loop-Agree [] ok before s = idle-Agree before s s (returned ok) refl
    loop-Agree (name ∷ names) ok before s =
        let r = rename_round fs name extension format ok s in
        let (new, (h, e)) = round-Agree name ok before s in
        elim (Ending-cases r.0) [
          | inl (ok', k) ↦
              let (more, (h', e')) = loop-Agree names ok' (before ++ new) r.1 in
              (
                new ++ more,
                (
                  rw (k, continue)
                      (h'
                        ∙ ap (λ u. u ++ map c_string more) h
                        ∙ append_assoc (moved s.calls) (map c_string new) (map c_string more)
                        ∙ ap (λ u. moved s.calls ++ u) (sym (map-append c_string new more))),
                  rw (e, k, continue) (rw (← append_assoc before new more) e'),
                ),
              )
          | inr (inl (m, k)) ↦ (new, (rw (k, continue) h, rw (e, k, continue) refl))
          | inr (inr k) ↦ (new, (rw (k, continue) h, rw (e, k, continue) refl))
        ]

  -- Where `rename_files` returns, `rename_and_compress_files` asks the same of the file system, in
  -- the same order, then compresses the files that were renamed in this, under their new names,
  -- and returns the same.
  pub rename_and_compress_files-rename_files :
      (files : List Bytes) (extension format : Bytes) (s s' : State (Unit {0}) Call) (sucess : Bool)
      → rename_files fs files extension format s ≡ (returned sucess, s')
      → (renamed : List Bytes) × (moved s'.calls ≡ moved s.calls ++ map c_string renamed)
        × (rename_and_compress_files fs files extension format s
            ≡ (compress_files fs renamed >> pure sucess) s')
  unfolding rename_files rename_and_compress_files compress_files
  rename_and_compress_files-rename_files [] extension format s s' sucess h =
      ([], ap (λ r. moved r.1.calls) (sym h) ∙ sym (append-nil (moved s.calls)), h)
  rename_and_compress_files-rename_files (name ∷ names) extension format s s' sucess h =
      let (new, (m, e)) = loop-Agree extension (c_string format) (name ∷ names) true [] s in
      (new, rw h at m, rw (e, h, continue) refl)
