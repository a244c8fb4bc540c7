-- ===== src/Tools/Logger/Laws.antt =====
-- The log is replaced, never doubled, and keeps its level.
use cpp_client_rabbit_mq.Tools.Step.{returned, State, Step, pure, ◌>>◌}
use cpp_client_rabbit_mq.Common.{
  List, [], ◌∷◌, Bytes, ℕ, ◌+◌, ◌≡◌, Bool, true, false, not, ◌&&◌, arith, if◌then◌else◌,
}
use cpp_client_rabbit_mq.Tools.Logger.{
  Call, Spdlog, Logger, name_logger, info_level, set_level_logger, set_rotate_logger, init_logger,
}

-- What a program asks of the log.
pub data Operation : Type 0 where
  set_level : (level : Bytes) → Operation
  set_rotate : (size_max_mb size_max_files : ℕ) → Operation
  init : Operation

-- What spdlog documents of its registry: a name that was dropped is free, and only making a logger
-- takes a name.
pub record Registry (spdlog : Spdlog) : Type 0 where
  pub dropped : (h : List Call) → spdlog.is_registered_of (Call.drop name_logger ∷ h) ≡ false
  pub got :
      (h : List Call)
      → spdlog.is_registered_of (Call.get name_logger ∷ h) ≡ spdlog.is_registered_of h

-- Making a logger under a name that is taken throws: it never happens in these calls.
abbrev pub never_twice : (spdlog : Spdlog) → List Call → Bool
never_twice spdlog [] = true
never_twice spdlog (Call.rotating_logger n s f ∷ h) =
    not (spdlog.is_registered_of h) && never_twice spdlog h
never_twice spdlog (Call.daily_logger n ∷ h) =
    not (spdlog.is_registered_of h) && never_twice spdlog h
never_twice spdlog (c ∷ h) = never_twice spdlog h

-- The level of the logger that was made last: the one that was set last, if one was set since.
abbrev pub level_in : List Call → ℕ
level_in [] = info_level
level_in (Call.set_level n ∷ h) = n
level_in (Call.rotating_logger n s f ∷ h) = info_level
level_in (Call.daily_logger n ∷ h) = info_level
level_in (c ∷ h) = level_in h

-- How often a logger was made.
abbrev pub made : List Call → ℕ
made [] = 0
made (Call.rotating_logger n s f ∷ h) = made h + 1
made (Call.daily_logger n ∷ h) = made h + 1
made (c ∷ h) = made h

-- Whether there is a logger of the program after an operation, and how many the operation makes: one
-- for a `set_rotate`, and one for an `init` if there was none before.
abbrev pub is_made : Operation → (initialized : Bool) → Bool
is_made (Operation.set_level level) initialized = initialized
is_made (Operation.set_rotate mb files) initialized = true
is_made Operation.init initialized = true

abbrev pub makes : Operation → (initialized : Bool) → ℕ
makes (Operation.set_level level) initialized = 0
makes (Operation.set_rotate mb files) initialized = 1
makes Operation.init initialized = if initialized then 0 else 1

abbrev pub loggers_of : List Operation → (initialized : Bool) → ℕ
loggers_of [] initialized = 0
loggers_of (o ∷ os) initialized = makes o initialized + loggers_of os (is_made o initialized)

module _ (spdlog : Spdlog) where
  abbrev pub perform : Operation → Step Logger Call (Unit {0})
  perform (Operation.set_level level) = set_level_logger spdlog level
  perform (Operation.set_rotate mb files) = set_rotate_logger spdlog mb files
  perform Operation.init = init_logger spdlog

  abbrev pub operations : List Operation → Step Logger Call (Unit {0})
  operations [] = pure tt
  operations (o ∷ os) = perform o >> operations os

  abbrev pub IsKept : State Logger Call → Type 0
  IsKept s = (never_twice spdlog s.calls ≡ true) × (level_in s.calls ≡ s.object.level)

  module _ (registry : Registry spdlog) where
    perform-IsKept :
        (o : Operation) (s : State Logger Call)
        → IsKept s
        → let s' = (perform o s).1 in
          (perform o s ≡ (returned tt, s'))
          × IsKept s'
          × (made s'.calls ≡ made s.calls + makes o s.object.initialized)
          × (s'.object.initialized ≡ is_made o s.object.initialized)
    unfolding set_level_logger set_rotate_logger init_logger
    perform-IsKept (Operation.set_level level) s k = ground arith
    perform-IsKept (Operation.set_rotate mb files) s k =
        ground (arith, registry.got s.calls, registry.dropped (Call.get name_logger ∷ s.calls))
    perform-IsKept Operation.init s k =
        ground (arith, registry.got s.calls, registry.dropped (Call.get name_logger ∷ s.calls))

    -- Let spdlog take a dropped name for free, and let the log be as at the start: no logger
    -- was made under a name that is taken, which would throw, and the one in use has the
    -- level that was set last. Whatever a program then asks of the log, and in whatever
    -- order, both still hold. One logger is made for each `SetRotateLogger`, and one by an
    -- `InitLogger` that comes first.
    pub operations-IsKept :
        (os : List Operation) (s : State Logger Call)
        → IsKept s
        → let s' = (operations os s).1 in
          IsKept s' × (made s'.calls ≡ made s.calls + loggers_of os s.object.initialized)
    operations-IsKept [] s k = (k, omega arith)
    operations-IsKept (o ∷ os) s k =
        let (ends, kept, count, is_set) = perform-IsKept o s k in
        let rest = operations-IsKept os (perform o s).1 kept in
        rw ends (rest.0, grind (arith, rest.1, count, is_set))
