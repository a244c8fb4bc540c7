-- ===== src/Tools/SystemUtils.antt =====
-- Files of a directory: finding, renaming and compressing them.
-- (include/Tools/SystemUtils.h, Modules/Tools/SystemUtils.cpp)
pub mod Names
pub mod Renaming
use cpp_client_rabbit_mq.Common.{
  ℕ, zero, suc, ◌+◌, ◌-◌, ◌%◌, ◌^◌, Bool, true, false, ◌&&◌, not, Bytes, List, [], ◌∷◌, ◌++◌, ◌==◌,
  length, is_empty, take, drop, codes, c_string, bytes_eq, leb, Option, some, none, if◌then◌else◌,
}
use cpp_client_rabbit_mq.Tools.Step.{Step, pure, raise, invoke, run, ◌>>=◌, ◌>>◌}

-- The calls of the file system and of the shell.
pub data Call : Type 0 where
  entries : (path : Bytes) → Call
  is_regular_file is_symlink last_write_time : (name : Bytes) → Call
  rename : (from to : Bytes) → Call
  system : (command : Bytes) → Call

-- What they answer to the last of some calls, and the print of a time in a format, which depends on
-- the time zone. `none` is a `std::filesystem::filesystem_error`.
pub record FileSystem : Type 0 where
  pub entries_of : List Call → Option (List Bytes)
  pub is_regular_of : List Call → Option Bool
  pub is_symlink_of : List Call → Option Bool
  pub time_of : List Call → Option ℕ
  pub is_renamed_of : List Call → Bool
  pub put_time : (time : ℕ) (format : Bytes) → Bytes

-- The text of the exception stands for what the library says.
abbrev pub FileStep : Type 0 → Type 0
FileStep A = Step (Unit {0}) Call A

abbrev checked : {A : Type 0} → Option A → FileStep A
checked none = raise (codes "filesystem_error")
checked (some a) = pure a

-- The test of the loop: the name is longer than the extension and ends with it.
unfoldable pub has_extension : (name extension : Bytes) → Bool
has_extension name extension =
    not (leb (length name) (length extension))
    && bytes_eq extension (take (length extension) (drop (length name - length extension) name))

unfoldable pub select : (extension : Bytes) → List Bytes → List Bytes
select extension [] = []
select extension (name ∷ names) =
    if has_extension name extension then name ∷ select extension names else select extension names

-- fl.substr(0, fl.size() - extension.size()) + ss.str() + extension, with `size_t`
unfoldable pub name_file : (file date extension : Bytes) → Bytes
name_file file date extension =
    take ((length file + 2 ^ 64 - length extension) % 2 ^ 64) file ++ (b'.' ∷ date) ++ extension

module _ (fs : FileSystem) where
  unfoldable pub find_files_directory : (path extension : Bytes) → FileStep (List Bytes)
  find_files_directory path extension = do
    found ← invoke (Call.entries path) (fs.entries_of)
    names ← checked found
    pure (select extension names)

  -- The two tests in front of each loop's work.
  unfoldable pub is_file : (name : Bytes) → FileStep Bool
  is_file name = do
    answer ← invoke (Call.is_regular_file name) (fs.is_regular_of)
    regular ← checked answer
    if regular
        then (do
          answer ← invoke (Call.is_symlink name) (fs.is_symlink_of)
          symlink ← checked answer
          pure (not symlink))
        else pure false

  -- The loop over the files: `idx` and the text of the command.
  unfoldable pub compress_loop : List Bytes → (idx : ℕ) (command : Bytes) → FileStep (ℕ × Bytes)
  compress_loop [] idx command = pure (idx, command)
  compress_loop (name ∷ names) idx command = do
    file ← is_file name
    compress_loop names (if file then idx + 1 else idx)
        (if file then command ++ (b' ' ∷ name) else command)

  unfoldable pub compress_files : List Bytes → FileStep (Unit {0})
  compress_files [] = pure tt
  compress_files (name ∷ names) = do
    counted ← compress_loop (name ∷ names) 0 (codes "xz -fz ")
    if counted.0 == 0 then pure tt else run (Call.system (c_string (counted.1 ++ codes " &")))

  -- compress_files(pathDir, extension)
  unfoldable pub compress_directory : (path extension : Bytes) → FileStep (Unit {0})
  unfolding find_files_directory compress_files
  compress_directory path extension = do
    files ← find_files_directory path extension
    compress_files files

  -- The new name of a file, and whether it was renamed.
  unfoldable pub rename_file : (name extension format : Bytes) → FileStep (Bytes × Bool)
  rename_file name extension format = do
    answer ← invoke (Call.last_write_time name) (fs.time_of)
    time ← checked answer
    let new_name = name_file name (fs.put_time time format) extension
    renamed ← invoke (Call.rename (c_string name) (c_string new_name)) (fs.is_renamed_of)
    pure (new_name, renamed)

  -- One round of the loop of `rename_files`.
  unfoldable pub rename_round : (name extension format : Bytes) (sucess : Bool) → FileStep Bool
  rename_round name extension format sucess = do
    file ← is_file name
    if file && not (is_empty format)
        then (do renamed ← rename_file name extension format; pure (sucess && renamed.1))
        else pure sucess

  unfoldable pub rename_loop :
      List Bytes → (extension format : Bytes) (sucess : Bool) → FileStep Bool
  rename_loop [] extension format sucess = pure sucess
  rename_loop (name ∷ names) extension format sucess = do
    sucess' ← rename_round name extension format sucess
    rename_loop names extension format sucess'

  -- rename_files(files, extension, formatDate)
  unfoldable pub rename_files : List Bytes → (extension format : Bytes) → FileStep Bool
  rename_files [] extension format = pure true
  rename_files (name ∷ names) extension format =
      rename_loop (name ∷ names) extension (c_string format) true

  -- One round of the loop of `rename_and_compress_files`, with the files that were renamed.
  unfoldable pub renamed_round :
      (name extension format : Bytes) → Bool × List Bytes → FileStep (Bool × List Bytes)
  renamed_round name extension format (sucess, files_renamed) = do
    file ← is_file name
    if file && not (is_empty format)
        then (do
          renamed ← rename_file name extension format
          pure (
              if renamed.1
              then (sucess, files_renamed ++ renamed.0 ∷ [])
              else (false, files_renamed)))
        else pure (sucess, files_renamed)

  unfoldable pub renamed_loop :
      List Bytes → (extension format : Bytes) → Bool × List Bytes → FileStep (Bool × List Bytes)
  renamed_loop [] extension format done = pure done
  renamed_loop (name ∷ names) extension format done = do
    done' ← renamed_round name extension format done
    renamed_loop names extension format done'

  unfoldable pub rename_and_compress_files : List Bytes → (extension format : Bytes) → FileStep Bool
  rename_and_compress_files [] extension format = pure true
  rename_and_compress_files (name ∷ names) extension format = do
    done ← renamed_loop (name ∷ names) extension (c_string format) (true, [])
    compress_files done.1
    pure done.0
