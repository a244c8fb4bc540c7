-- ===== src/Examples/Logs.antt =====
-- The log of a program that sets its level, and starts the log twice.
use cpp_client_rabbit_mq.Common.{
  List, [], ◌∷◌, Bool, true, false, ◌≡◌, refl, codes, bytes_eq, if◌then◌else◌,
}
use cpp_client_rabbit_mq.Tools.Step.{State}
use cpp_client_rabbit_mq.Tools.Logger.{Call, Spdlog, Logger, first_logger}
use cpp_client_rabbit_mq.Tools.Logger.Laws.{
  Operation, Registry, operations, IsKept, made, operations-IsKept,
}

-- Whether there is a logger: the one on the console, at the start.
abbrev is_registered : List Call → Bool
is_registered [] = true
is_registered (Call.drop n ∷ h) = false
is_registered (Call.daily_logger n ∷ h) = true
is_registered (Call.rotating_logger n s f ∷ h) = true
is_registered (c ∷ h) = is_registered h

abbrev spdlog : Spdlog
spdlog = record {
  is_registered_of = is_registered;
  level_of = λ t. if bytes_eq t (codes "debug") then 1 else 6;
  trace_of = λ h. [];
  signal_name_of = λ h. [];
}

registry : Registry spdlog
registry = record { dropped = λ h. refl; got = λ h. refl }

abbrev start : State Logger Call
start = record { object = first_logger; calls = [] }

abbrev asked : List Operation
asked =
    Operation.set_level (codes "debug")
    ∷ Operation.init
    ∷ Operation.set_rotate 5 3
    ∷ Operation.init
    ∷ []

operations-IsKept_example :
    let s' = (operations spdlog asked start).1 in IsKept spdlog s' × (made s'.calls ≡ 2)
operations-IsKept_example = operations-IsKept spdlog registry asked start (refl, refl)
