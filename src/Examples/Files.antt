-- ===== src/Examples/Files.antt =====
-- Dates with zeros, and files that are renamed and compressed.
use cpp_client_rabbit_mq.Common.{
  ◌≡◌, refl, true, false, Bytes, List, [], ◌∷◌, ◌++◌, map, codes, c_string, some, arith, bytes_eq,
}
use cpp_client_rabbit_mq.Tools.Step.{State, returned, pure, ◌>>◌}
use cpp_client_rabbit_mq.Tools.FormatTime.{is_digit, check_format_time}
use cpp_client_rabbit_mq.Tools.FormatTime.Padding.{pad, are_wide, check_format_time-pad}
use cpp_client_rabbit_mq.Tools.SystemUtils.{
  Call, FileSystem, has_extension, name_file, find_files_directory, select, is_file, rename_file,
  rename_round, rename_loop, rename_files, compress_files, rename_and_compress_files,
}
use cpp_client_rabbit_mq.Tools.SystemUtils.Names.{has_name}
use cpp_client_rabbit_mq.Tools.SystemUtils.Renaming.{moved, rename_and_compress_files-rename_files}

padded : check_format_time (codes "1/2/2023 3:04:5") ≡ codes "01/02/2023 03:04:05"
unfolding check_format_time is_digit
padded = refl

check_format_time-pad_example :
    let padded = check_format_time (codes "1:2") in
    (padded ≡ pad false (codes "1:2"))
    × (are_wide false padded ≡ true)
    × (check_format_time padded ≡ padded)
check_format_time-pad_example = check_format_time-pad (codes "1:2") (omega arith) refl

-- A directory with two files, of which one is a log.
abbrev disk : FileSystem
disk = record {
  entries_of = λ calls. some (codes "a.log" ∷ codes "b.txt" ∷ []);
  is_regular_of = λ calls. some true;
  is_symlink_of = λ calls. some false;
  time_of = λ calls. some 7;
  is_renamed_of = λ calls. true;
  put_time = λ time format. codes "2023";
}

abbrev start : State (Unit {0}) Call
start = record { object = tt; calls = [] }

found :
    (find_files_directory disk (codes "logs") (codes ".log") start).0
    ≡ returned (codes "a.log" ∷ [])
unfolding find_files_directory has_extension select bytes_eq
found = refl

member : has_name (codes "a.log") (codes "a.log" ∷ []) ≡ true
unfolding bytes_eq
member = refl

abbrev renamed : State (Unit {0}) Call
renamed = record start {
  calls =
      Call.rename (codes "a.log") (codes "a.2023.log")
      ∷ Call.last_write_time (codes "a.log")
      ∷ Call.is_symlink (codes "a.log")
      ∷ Call.is_regular_file (codes "a.log")
      ∷ [];
}

renaming :
    rename_files disk (codes "a.log" ∷ []) (codes ".log") (codes "%Y") start
    ≡ (returned true, renamed)
unfolding rename_files rename_loop rename_round rename_file is_file name_file c_string
renaming = refl

rename_and_compress_files-rename_files_example :
    (files : List Bytes) × (moved disk renamed.calls ≡ moved disk start.calls ++ map c_string files)
    × (rename_and_compress_files disk (codes "a.log" ∷ []) (codes ".log") (codes "%Y") start
        ≡ (compress_files disk files >> pure true) renamed)
rename_and_compress_files-rename_files_example =
    rename_and_compress_files-rename_files disk (codes "a.log" ∷ []) (codes ".log") (codes "%Y")
      start renamed true renaming
