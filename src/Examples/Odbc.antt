-- ===== src/Examples/Odbc.antt =====
-- Connections and statements of a database.
use cpp_client_rabbit_mq.Common.{
  some, arith, ℕ, ◌≡◌, refl, true, List, [], ◌∷◌, length, codes, pos, negsuc,
}
use cpp_client_rabbit_mq.Tools.Step.{State, returned}
use cpp_client_rabbit_mq.Tools.Odbc.{Odbc, Call}
use cpp_client_rabbit_mq.Tools.Odbc.Connect.{OdbcConnect, fresh_connect, connect, allocate}
use cpp_client_rabbit_mq.Tools.Odbc.Connect.{reconnect, close}
use cpp_client_rabbit_mq.Tools.Odbc.Connect.Balance.{
  Operation, connects, reconnects, GivesHandles, perform, environments_made, environments_freed,
  connections_made, connections_freed,
}
use cpp_client_rabbit_mq.Tools.Odbc.Connect.Freed.{run_all, run_all-close}
use cpp_client_rabbit_mq.Tools.Odbc.Statement.{OdbcStatement, fresh_statement}
use cpp_client_rabbit_mq.Tools.Odbc.Statement.Types.{sql_integer, sql_unknown_type}
use cpp_client_rabbit_mq.Tools.Odbc.Statement.Parameters.{
  SqlParameter, ParameterValue, set_bind_parameter,
}
use cpp_client_rabbit_mq.Tools.Odbc.Statement.Numbers.{IsNumbered, set_bind_parameter-IsNumbered}

-- Every call succeeds, and a handle is the number of the calls so far.
abbrev working : Odbc
working = record {
  retcode_of = λ calls. pos 0;
  handle_of = λ calls. length calls;
  message_of = λ calls. [];
  rows_of = λ calls. pos 1;
}

abbrev start : State OdbcConnect Call
start = record { object = fresh_connect; calls = [] }

connected : (connect working (codes "DSN=a") start).0 ≡ returned true
unfolding connect allocate
connected = refl

abbrev statement : State OdbcStatement Call
statement = record { object = record (fresh_statement 1 3) { stmt = 7 }; calls = [] }

abbrev parameters : List SqlParameter
parameters =
    record {
      value = ParameterValue.int (negsuc 2);
      sql_type = sql_unknown_type;
      col_def = 0;
      col_scale = pos 0;
    }
    ∷ record {
      value = ParameterValue.string [];
      sql_type = sql_integer;
      col_def = 0;
      col_scale = pos 0;
    }
    ∷ []

set_bind_parameter-IsNumbered_example :
    let r = set_bind_parameter working parameters statement in
    (k : ℕ) × IsNumbered k statement r.1 × (r.0 ≡ returned tt → k ≡ length parameters)
set_bind_parameter-IsNumbered_example = set_bind_parameter-IsNumbered working parameters statement

gives_handles : GivesHandles working
gives_handles = record { environment = λ h k. ground arith; connection = λ e h k. ground arith }

abbrev operations : List Operation
operations = connects (codes "DSN=a") ∷ reconnects ∷ []

abbrev reconnected : State OdbcConnect Call
reconnected = (perform working reconnects (perform working (connects (codes "DSN=a")) start).1).1

runs : run_all working operations start ≡ some reconnected
unfolding connect allocate reconnect close
runs = refl

run_all-close_example :
    let u = (close reconnected).1 in
    (environments_made u.calls ≡ environments_freed u.calls)
    × (connections_made u.calls ≡ connections_freed u.calls)
run_all-close_example = run_all-close working operations reconnected gives_handles runs
