-- ===== src/Examples/Options.antt =====
-- Options on a command line.
use cpp_client_rabbit_mq.Common.{refl, ◌≡◌, true, false, codes, bytes_eq, some, none, if◌then◌else◌}
use cpp_client_rabbit_mq.Tools.Step.{raised}
use cpp_client_rabbit_mq.Tools.ProgramOptions.{Variables, option_dependency}

-- `port` was given, and `host` has its default.
abbrev variables : Variables
variables option =
    if bytes_eq option (codes "port")
    then some false
    else if bytes_eq option (codes "host")
    then some true
    else none

requires_host :
    option_dependency variables (codes "port") (codes "host")
    ≡ raised (codes "Option 'port' requires option 'host'.")
unfolding option_dependency bytes_eq
requires_host = refl
