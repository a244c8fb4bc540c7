-- ===== src/Tools/ProgramOptions/Laws.antt =====
-- When a choice of options is accepted.
use cpp_client_rabbit_mq.Common.{◌≡◌, ◌↔◌, ◌⊎◌, false, Bytes, some, arith}
use cpp_client_rabbit_mq.Tools.Step.{returned}
use cpp_client_rabbit_mq.Tools.ProgramOptions.{Variables, conflicting_options, option_dependency}

-- The option was given, and not left at its default.
abbrev pub IsGiven : Variables → Bytes → Type 0
IsGiven vm option = vm option ≡ some false

-- Two options are accepted together exactly when one of them was not given, in either order; and
-- one option and its requirement are accepted exactly when the first was not given or the second
-- was. Options at their default values count as not given.
pub options_lem :
    (vm : Variables) (a b : Bytes)
    → ((conflicting_options vm a b ≡ returned tt) ↔ (IsGiven vm a × IsGiven vm b → ⊥))
      × ((conflicting_options vm b a ≡ returned tt) ↔ (IsGiven vm a × IsGiven vm b → ⊥))
      × ((option_dependency vm a b ≡ returned tt) ↔ ((IsGiven vm a → ⊥) ⊎ IsGiven vm b))
unfolding conflicting_options option_dependency
options_lem vm a b = ground arith
