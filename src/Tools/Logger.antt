-- ===== src/Tools/Logger.antt =====
-- The log of the program. (Modules/Tools/Logger.cpp)
pub mod Laws
use cpp_client_rabbit_mq.Common.{
  ◌∷◌, ◌++◌, [], ℕ, ◌*◌, ◌%◌, ◌^◌, ◌==◌, Bool, true, false, not, Bytes, codes, List, if◌then◌else◌,
}
use cpp_client_rabbit_mq.Tools.Decimal.{decimal}
use cpp_client_rabbit_mq.Tools.Step.{Step, pure, invoke, run, this, put, ◌>>=◌, ◌>>◌}

-- The calls of spdlog and of the system. A level is a number. Nothing follows `exit`.
pub data Call : Type 0 where
  get drop : (name : Bytes) → Call
  rotating_logger : (name : Bytes) (max_size max_files : ℕ) → Call
  daily_logger : (name : Bytes) → Call
  set_level : (level : ℕ) → Call
  flush_every : (seconds : ℕ) → Call
  signal : (number : ℕ) → Call
  backtrace : (size : ℕ) → Call
  strsignal : (number : ℕ) → Call
  critical : Bytes → Call
  puts : Bytes → Call
  exit : (status : ℕ) → Call

-- Whether a logger is registered under the name that was asked for, the level for a text, the lines
-- of a trace, and the name of a signal. That the loggers can be made is taken for granted.
pub record Spdlog : Type 0 where
  pub is_registered_of : List Call → Bool
  pub level_of : Bytes → ℕ
  pub trace_of : List Call → List Bytes
  pub signal_name_of : List Call → Bytes

-- The level of `_log`, and `__initializedLog`.
pub record Logger : Type 0 where
  pub level : ℕ
  pub initialized : Bool

-- spdlog::level::info, which a logger has when it is made
abbrev pub info_level : ℕ
info_level = 2

-- `_log` and `__initializedLog` at the start: a logger on the console, and no calls yet.
abbrev pub first_logger : Logger
first_logger = record { level = info_level; initialized = false }

abbrev pub name_logger : Bytes
name_logger = codes "daily_logger"

-- ss << strings[i] << std::endl
unfoldable pub join_lines : List Bytes → Bytes
join_lines [] = []
join_lines (t ∷ ts) = t ++ 10 ∷ join_lines ts

module _ (spdlog : Spdlog) where
  unfoldable pub set_level_logger : (level : Bytes) → Step Logger Call (Unit {0})
  set_level_logger level = do
    l ← this
    run (Call.set_level (spdlog.level_of level))
    put (record l { level = spdlog.level_of level })

  -- The size is a `size_t`.
  unfoldable pub set_rotate_logger : (size_max_mb size_max_files : ℕ) → Step Logger Call (Unit {0})
  set_rotate_logger size_max_mb size_max_files = do
    registered ← invoke (Call.get name_logger) (spdlog.is_registered_of)
    if registered then run (Call.drop name_logger) else pure tt
    if size_max_files == 0
        then run (Call.daily_logger name_logger)
        else run (
            Call.rotating_logger name_logger ((size_max_mb * (1024 * 1024)) % 2 ^ 64)
              size_max_files)
    l ← this
    run (Call.set_level l.level)
    put (record l { initialized = true })

  -- SIGSEGV, SIGILL, SIGABRT and SIGFPE
  unfoldable pub init_logger : Step Logger Call (Unit {0})
  unfolding set_rotate_logger
  init_logger = do
    l ← this
    if not l.initialized then set_rotate_logger 0 0 else pure tt
    run (Call.flush_every 1)
    run (Call.signal 11)
    run (Call.signal 4)
    run (Call.signal 6)
    run (Call.signal 8)

  -- The handler of these signals.
  unfoldable pub print_trace : (sig : ℕ) → Step Logger Call (Unit {0})
  unfolding join_lines
  print_trace sig = do
    strings ← invoke (Call.backtrace 1024) (spdlog.trace_of)
    name ← invoke (Call.strsignal sig) (spdlog.signal_name_of)
    run (
        Call.critical (
          codes "** - Received Signal "
          ++ decimal sig
          ++ codes " - "
          ++ name
          ++ codes "\n"
          ++ join_lines strings))
    run (Call.puts [])
    run (Call.exit 1)
