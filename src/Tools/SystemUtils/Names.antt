-- ===== src/Tools/SystemUtils/Names.antt =====
-- The names of files before and after they are renamed.
use cpp_client_rabbit_mq.Common.{
  ℕ, zero, suc, ◌+◌, ◌-◌, ◌%◌, ◌^◌, ◌≤◌, ◌<◌, ◌≡◌, refl, sym, ap, ◌∙◌, Bool, true, false, ◌||◌,
  Bytes, List, [], ◌∷◌, ◌++◌, length, length-append, take, drop, bytes_eq, bytes_eq_iff, arith,
  Bool-cases, Option-cases, inl, inr, is_empty,
}
use cpp_client_rabbit_mq.Tools.Step.{State, returned, raised}
use cpp_client_rabbit_mq.Tools.SystemUtils.{
  Call, FileSystem, find_files_directory, has_extension, select, name_file,
}

take-append : (s t : Bytes) → take (length s) (s ++ t) ≡ s
take-append [] t = refl
take-append (c ∷ s) t = ap (λ u. c ∷ u) (take-append s t)

drop-append : (s t : Bytes) → drop (length s) (s ++ t) ≡ t
drop-append [] t = refl
drop-append (c ∷ s) t = drop-append s t

take_all : (n : ℕ) (s : Bytes) → length s ≤ n → take n s ≡ s
take_all zero [] h = refl
take_all zero (c ∷ s) h = absurd (omega arith)
take_all (suc n) [] h = refl
take_all (suc n) (c ∷ s) h = ap (λ u. c ∷ u) (take_all n s (omega arith))

take-drop : (n : ℕ) (s : Bytes) → take n s ++ drop n s ≡ s
take-drop zero s = refl
take-drop (suc n) [] = refl
take-drop (suc n) (c ∷ s) = ap (λ u. c ∷ u) (take-drop n s)

length-drop : (n : ℕ) (s : Bytes) → length (drop n s) ≡ length s - n
length-drop zero s = omega arith
length-drop (suc n) [] = omega arith
length-drop (suc n) (c ∷ s) = omega (arith, length-drop n s)

has_extension-append :
    (base extension : Bytes)
    → is_empty base ≡ false
    → has_extension (base ++ extension) extension ≡ true
unfolding has_extension
has_extension-append [] extension h = cc
has_extension-append (c ∷ base) extension h =
    let b = c ∷ base in
    let n : length (b ++ extension) ≡ length b + length extension = length-append b extension in
    let k : length (b ++ extension) - length extension ≡ length b = omega (arith, n) in
    let e : take (length extension)
          (drop (length (b ++ extension) - length extension) (b ++ extension))
        ≡ extension =
      rw (k, drop-append b extension) (take_all (length extension) extension (omega arith)) in
    let t : bytes_eq extension extension ≡ true = (bytes_eq_iff extension extension).1 refl in
    ground (arith, n, e, t)

take-not_empty : (n : ℕ) (s : Bytes) → 0 < n → 0 < length s → is_empty (take n s) ≡ false
take-not_empty zero s h k = absurd (omega arith)
take-not_empty (suc n) [] h k = absurd (omega arith)
take-not_empty (suc n) (c ∷ s) h k = refl

-- A name with the extension is the extension behind something.
has_extension→append :
    (name extension : Bytes)
    → has_extension name extension ≡ true
    → (base : Bytes) × (is_empty base ≡ false) × (name ≡ base ++ extension)
unfolding has_extension
has_extension→append name extension h =
    let n = length name - length extension in
    let l : length extension < length name = ground arith in
    let tail : bytes_eq extension (take (length extension) (drop n name)) ≡ true = ground arith in
    let whole : take (length extension) (drop n name) ≡ drop n name =
      take_all (length extension) (drop n name) (omega (arith, length-drop n name)) in
    let e : extension ≡ drop n name = (bytes_eq_iff extension _).0 tail ∙ whole in
    (
      take n name,
      take-not_empty n name (omega arith) (omega arith),
      sym (take-drop n name) ∙ ap (λ u. take n name ++ u) (sym e),
    )

name_file-append :
    (base date extension : Bytes)
    → length (base ++ extension) < 2 ^ 64
    → name_file (base ++ extension) date extension ≡ base ++ (b'.' ∷ date) ++ extension
unfolding name_file
name_file-append base date extension h =
    let n = length-append base extension in
    let k : (length (base ++ extension) + 2 ^ 64 - length extension) % 2 ^ 64 ≡ length base =
      omega (arith, n) in
    rw (k, take-append base extension) refl

abbrev pub has_name : Bytes → List Bytes → Bool
has_name name [] = false
has_name name (n ∷ names) = bytes_eq n name || has_name name names

has_name-select :
    (name extension : Bytes) (names : List Bytes)
    → has_name name (select extension names) ≡ true
    → has_extension name extension ≡ true
unfolding select
has_name-select name extension [] h = cc
has_name-select name extension (n ∷ names) h = elim (Bool-cases (bytes_eq n name)) [
  | inl e ↦
      let same = (bytes_eq_iff n name).0 e in
      let k : has_extension n extension ≡ has_extension name extension =
        ap (λ u. has_extension u extension) same in
      ground (arith, has_name-select name extension names, k)
  | inr e ↦ ground (arith, has_name-select name extension names)
]

not_returned : {A : Type 0} {m : Bytes} {a : A} → raised m ≡ returned a → ⊥
not_returned h = cc

returned_inj : {A : Type 0} {a b : A} → returned a ≡ returned b → b ≡ a
returned_inj h = cc

selected :
    (fs : FileSystem) (path extension : Bytes) (s : State (Unit {0}) Call) (names : List Bytes)
    → (find_files_directory fs path extension s).0 ≡ returned names
    → (listed : List Bytes) × (names ≡ select extension listed)
unfolding find_files_directory
selected fs path extension s names h =
    elim (Option-cases (fs.entries_of (Call.entries path ∷ s.calls))) [
      | inl e ↦ absurd (not_returned (rw e at h))
      | inr (listed, e) ↦ (listed, returned_inj (rw e at h))
    ]

not_empty-append : (s : Bytes) (c : ℕ) (t : Bytes) → is_empty (s ++ c ∷ t) ≡ false
not_empty-append [] c t = refl
not_empty-append (d ∷ s) c t = refl

-- A file that `find_files_directory` has found for an extension, with a name that a `size_t` can
-- measure, is something that is not empty with the extension behind it. The name that it is given
-- has the date between these two, so that it is found again for the same extension.
pub find_files_directory-name_file :
    (fs : FileSystem) (path extension date name : Bytes) (s : State (Unit {0}) Call)
    (names : List Bytes)
    → (find_files_directory fs path extension s).0 ≡ returned names
    → has_name name names ≡ true
    → length name < 2 ^ 64
    → (base : Bytes) × (is_empty base ≡ false)
      × (name ≡ base ++ extension)
      × (name_file name date extension ≡ base ++ (b'.' ∷ date) ++ extension)
      × (has_extension (name_file name date extension) extension ≡ true)
find_files_directory-name_file fs path extension date name s names found h small =
    let (listed, e) = selected fs path extension s names found in
    let member : has_name name (select extension listed) ≡ true = rw (← e) h in
    let (base, full, split) =
      has_extension→append name extension (has_name-select name extension listed member) in
    let renamed : name_file name date extension ≡ base ++ (b'.' ∷ date) ++ extension =
      ap (λ u. name_file u date extension) split
      ∙ name_file-append base date extension (rw split at small) in
    (
      base,
      full,
      split,
      renamed,
      rw renamed
          (has_extension-append (base ++ b'.' ∷ date) extension (not_empty-append base b'.' date)),
    )
