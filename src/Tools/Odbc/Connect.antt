-- ===== src/Tools/Odbc/Connect.antt =====
-- A connection to a database. (include/Tools/OdbcConnect.h, Modules/Tools/OdbcConnect.cpp)
pub mod Laws
pub mod Balance
pub mod Freed
use cpp_client_rabbit_mq.Common.{
  ℕ, ◌==◌, Bool, true, false, ◌&&◌, ◌||◌, not, Bytes, [], ◌++◌, codes, c_string, is_empty, has_text,
  ℤ, is_zero, if◌then◌else◌,
}
use cpp_client_rabbit_mq.Tools.Decimal.{show_int}
use cpp_client_rabbit_mq.Tools.Step.{Step, pure, raise, invoke, run, this, put, assert, ◌>>=◌, ◌>>◌}
use cpp_client_rabbit_mq.Tools.Odbc.{Odbc, Call, succeeded}

-- The members of `OdbcConnect`.
pub record OdbcConnect : Type 0 where
  pub environment : ℕ
  pub database_conn : ℕ
  pub name : Bytes
  pub is_transaction : Bool
  pub connect_string : Bytes
  pub server_name : Bytes
  pub username : Bytes
  pub password : Bytes

-- OdbcConnect()
abbrev pub fresh_connect : OdbcConnect
fresh_connect = record {
  environment = 0;
  database_conn = 0;
  name = [];
  is_transaction = false;
  connect_string = [];
  server_name = [];
  username = [];
  password = [];
}

-- The copy has the settings of the other, and no handle.
abbrev pub copy : OdbcConnect → OdbcConnect
copy c = record c { environment = 0; database_conn = 0; is_transaction = false }

set_name : Bytes → OdbcConnect → OdbcConnect
set_name value c = record c { name = value }

abbrev pub set_is_transaction : Bool → Step OdbcConnect Call (Unit {0})
set_is_transaction b = do c ← this; put (record c { is_transaction = b })

-- if (databaseConn_) { ... }: each handle is freed twice, by the new call and by the old one
close_database : Step OdbcConnect Call (Unit {0})
close_database = do
  c ← this
  if c.database_conn == 0 then pure tt else (do
    run (Call.disconnect c.database_conn)
    run (Call.free_handle_dbc c.database_conn)
    run (Call.free_connect c.database_conn)
    put (record c { database_conn = 0 }))

-- if (environment_) { ... }
close_environment : Step OdbcConnect Call (Unit {0})
close_environment = do
  c ← this
  if c.environment == 0 then pure tt else (do
    run (Call.free_handle_env c.environment)
    run (Call.free_env c.environment)
    put (record c { environment = 0 }))

unfoldable pub close : Step OdbcConnect Call (Unit {0})
unfolding close_database close_environment
close = do
  close_database
  close_environment
  set_is_transaction false
  c ← this
  assert (c.environment == 0)
  assert (c.database_conn == 0)

module _ (odbc : Odbc) where
  -- A call that has to succeed.
  abbrev demand : Call → Step OdbcConnect Call (Unit {0})
  demand call = do retcode ← invoke call (odbc.retcode_of); assert (succeeded retcode)

  -- The part that both kinds of `connect` share: two handles and their attributes.
  unfoldable pub allocate : Step OdbcConnect Call (Unit {0})
  allocate = do
    environment ← invoke Call.alloc_env (odbc.handle_of)
    c ← this
    put (record c { environment = environment })
    retcode ← (λ s. pure (odbc.retcode_of s.calls) s)
    assert (succeeded retcode)
    demand (Call.set_odbc_version environment)
    database_conn ← invoke (Call.alloc_dbc environment) (odbc.handle_of)
    c ← this
    put (record c { database_conn = database_conn })
    retcode ← (λ s. pure (odbc.retcode_of s.calls) s)
    assert (succeeded retcode)
    demand (Call.set_cursors database_conn)

  unfoldable pub connect_server :
      (server_name username password : Bytes) → Step OdbcConnect Call Bool
  connect_server server_name username password = do
    c ← this
    assert (c.environment == 0)
    assert (c.database_conn == 0)
    put (record c {
      connect_string = [];
      server_name = server_name;
      username = username;
      password = password;
    })
    allocate
    c ← this
    retcode ←
        invoke
          (Call.sql_connect c.database_conn (c_string server_name) (c_string username)
            (c_string password))
          (odbc.retcode_of)
    set_is_transaction false
    pure (succeeded retcode)

  unfoldable pub connect : (connect_string : Bytes) → Step OdbcConnect Call Bool
  connect connect_string = do
    c ← this
    assert (c.environment == 0)
    assert (c.database_conn == 0)
    put (record c {
      connect_string = connect_string;
      server_name = [];
      username = [];
      password = [];
    })
    allocate
    c ← this
    retcode ←
        invoke (Call.driver_connect c.database_conn (c_string connect_string)) (odbc.retcode_of)
    set_is_transaction false
    pure (succeeded retcode)

  -- The second branch tests the same member as the first.
  unfoldable pub reconnect : Step OdbcConnect Call (Unit {0})
  reconnect = do
    c ← this
    assert (not (is_empty c.connect_string) || not (is_empty c.server_name))
    close
    c ← this
    if not (is_empty c.connect_string)
        then (do connect c.connect_string; pure tt)
        else if not (is_empty c.connect_string)
        then (do connect_server c.server_name c.username c.password; pure tt)
        else pure tt

  unfoldable pub check_error_odbc : Step OdbcConnect Call Bytes
  check_error_odbc = do
    c ← this
    if c.environment == 0 then pure [] else (do
      retcode ← invoke (Call.sql_error c.environment c.database_conn) (odbc.retcode_of)
      message ← (λ s. pure (odbc.message_of s.calls) s)
      pure (if is_zero retcode then c_string message else []))

  unfoldable pub is_connect_failure : Step OdbcConnect Call Bool
  is_connect_failure = do
    message ← check_error_odbc
    pure (has_text (codes "Communication link failure") message)

  -- What follows the call that begins or ends a transaction: the flag is set before the return code
  -- is looked at.
  unfoldable pub conclude : Bytes → Bool → ℤ → Step OdbcConnect Call Bool
  conclude function flag retcode = do
    set_is_transaction flag
    if succeeded retcode then pure true else (do
      message ← check_error_odbc
      raise (
          codes "OdbcStatement::"
          ++ function
          ++ codes " - \""
          ++ show_int retcode
          ++ codes " - "
          ++ message
          ++ codes "\""))

  unfoldable pub begin_transaction : Step OdbcConnect Call Bool
  begin_transaction = do
    c ← this
    retcode ← invoke (Call.set_autocommit c.database_conn false) (odbc.retcode_of)
    conclude (codes "beginTransaction") true retcode

  unfoldable pub commit : Step OdbcConnect Call Bool
  commit = do
    c ← this
    retcode ← invoke (Call.end_tran c.database_conn true) (odbc.retcode_of)
    conclude (codes "Commit") false retcode

  unfoldable pub rollback : Step OdbcConnect Call Bool
  rollback = do
    c ← this
    retcode ← invoke (Call.end_tran c.database_conn false) (odbc.retcode_of)
    conclude (codes "Rollback") false retcode
