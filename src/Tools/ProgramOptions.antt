-- ===== src/Tools/ProgramOptions.antt =====
-- Options that exclude or require each other.
-- (include/Tools/ProgramOptionsUtils.h, Modules/Tools/ProgramOptionsUtils.cpp)
pub mod Laws
use cpp_client_rabbit_mq.Common.{
  Bool, true, false, ◌&&◌, ◌||◌, not, Bytes, ◌++◌, codes, Option, some, none, if◌then◌else◌,
}
use cpp_client_rabbit_mq.Tools.Step.{Ending, returned, raised}

-- The variables that the library has read: of each option that has a value, whether it is the
-- default one.
abbrev pub Variables : Type 0
Variables = (option : Bytes) → Option Bool

-- vm.count(option), as a test, and vm[option].defaulted(), which is false for one that is not there
abbrev pub count : Variables → Bytes → Bool
count vm option = elim (vm option) [ none ↦ false | some d ↦ true ]

abbrev pub defaulted : Variables → Bytes → Bool
defaulted vm option = elim (vm option) [ none ↦ false | some d ↦ d ]

-- A `std::logic_error` with its text.
unfoldable pub conflicting_options : Variables → (opt1 opt2 : Bytes) → Ending (Unit {0})
conflicting_options vm opt1 opt2 =
    if count vm opt1 && not (defaulted vm opt1) && count vm opt2 && not (defaulted vm opt2)
    then raised (codes "Conflicting options '" ++ opt1 ++ codes "' and '" ++ opt2 ++ codes "'.")
    else returned tt

unfoldable pub option_dependency :
    Variables → (for_what required_option : Bytes) → Ending (Unit {0})
option_dependency vm for_what required_option =
    if count vm for_what && not (defaulted vm for_what)
    then (if not (count vm required_option) || defaulted vm required_option
        then raised (
            codes "Option '"
            ++ for_what
            ++ codes "' requires option '"
            ++ required_option
            ++ codes "'.")
        else returned tt)
    else returned tt
