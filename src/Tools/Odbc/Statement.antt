-- ===== src/Tools/Odbc/Statement.antt =====
-- A statement: its parameters, its columns and its execution.
-- (include/Tools/OdbcStatement.h, Modules/Tools/OdbcStatement.cpp)
pub mod Types
pub mod Parameters
pub mod Numbers
pub mod Laws
use cpp_client_rabbit_mq.Common.{
  ℕ, ◌+◌, ◌%◌, ◌^◌, ◌==◌, Bool, true, false, ◌&&◌, ◌||◌, not, Bytes, List, [], ◌++◌, codes,
  c_string, ℤ, pos, negsuc, is_negative, if◌then◌else◌,
}
use cpp_client_rabbit_mq.Tools.Decimal.{show_int}
use cpp_client_rabbit_mq.Tools.Step.{Step, pure, raise, invoke, run, this, put, assert, ◌>>=◌, ◌>>◌}
use cpp_client_rabbit_mq.Tools.Odbc.{Odbc, Call, Double, HandleType, Indicator, succeeded}

-- The members of `OdbcStatement`; the handles of the connection are references to its members.
pub record OdbcStatement : Type 0 where
  pub environment : ℕ
  pub database_conn : ℕ
  pub stmt : ℕ
  pub rows_fetched : ℤ
  pub columns_bind : ℕ
  pub fetch_rows_size : ℤ
  pub size_model : ℕ
  pub param_int : List ℤ
  pub param_double : List Double
  pub param_str : List Bytes
  pub param_values : List Bytes

-- `createStatement`, before the handle is made
abbrev pub fresh_statement : (environment database_conn : ℕ) → OdbcStatement
fresh_statement environment database_conn = record {
  environment = environment;
  database_conn = database_conn;
  stmt = 0;
  rows_fetched = negsuc 0;
  columns_bind = 0;
  fetch_rows_size = pos 1;
  size_model = 0;
  param_int = [];
  param_double = [];
  param_str = [];
  param_values = [];
}

unfoldable pub clear_parameters : OdbcStatement → OdbcStatement
clear_parameters c = record c {
  param_int = [];
  param_double = [];
  param_values = [];
  param_str = [];
  rows_fetched = negsuc 0;
  size_model = 0;
  fetch_rows_size = pos 1;
}

unfoldable pub set_fetch_rows_size : ℤ → ℕ → OdbcStatement → OdbcStatement
set_fetch_rows_size fetch_rows_size size_model c = record c {
  fetch_rows_size = fetch_rows_size;
  size_model = size_model;
}

-- ~OdbcStatement()
destroy_statement : Step OdbcStatement Call (Unit {0})
destroy_statement = do
  c ← this
  if c.stmt == 0
      then pure tt
      else (do run (Call.close_cursor c.stmt); run (Call.free_handle_stmt c.stmt))
  put (record c { stmt = 0 })

-- The row size is what `SQL_BIND_BY_COLUMN`, which is 0, stands for where there is no model.
unfoldable pub prepare_fetch : Step OdbcStatement Call (Unit {0})
prepare_fetch = do
  c ← this
  if c.size_model == 0
      then run (Call.set_bind_type c.stmt 0)
      else run (Call.set_bind_type c.stmt c.size_model)
  run (Call.set_row_array_size c.stmt c.fetch_rows_size)

-- if (numRowsFetched_ >= 0) prepareFetch(), the count of columns, a `SQLUSMALLINT`, and the call
bind_column : ℤ → (target : ℕ) (length : ℤ) → Indicator → Step OdbcStatement Call (Unit {0})
bind_column target_type target length indicator = do
  c ← this
  if is_negative c.rows_fetched then pure tt else prepare_fetch
  let number = (c.columns_bind + 1) % 2 ^ 16
  put (record c { columns_bind = number })
  run (Call.bind_col c.stmt number target_type target length indicator)

-- SQL_INTEGER, SQL_DOUBLE and SQL_C_CHAR, with the size of the variable; a variable is a number.
unfoldable pub add_bind_column_int : (target : ℕ) → Step OdbcStatement Call (Unit {0})
unfolding bind_column
add_bind_column_int target = bind_column (pos 4) target (pos 4) Indicator.nts

unfoldable pub add_bind_column_double : (target : ℕ) → Step OdbcStatement Call (Unit {0})
unfolding bind_column
add_bind_column_double target = bind_column (pos 8) target (pos 8) Indicator.nts

unfoldable pub add_bind_column_char :
    (target : ℕ) → ℤ → Indicator → Step OdbcStatement Call (Unit {0})
unfolding bind_column
add_bind_column_char target length indicator = bind_column (pos 1) target length indicator

module _ (odbc : Odbc) where
  -- The first record that there is, of the statement, the connection and the environment.
  check_error_odbc : Step OdbcStatement Call Bytes
  check_error_odbc = do
    c ← this
    ret ← invoke (Call.get_diag_rec HandleType.stmt c.stmt) (odbc.retcode_of)
    if succeeded ret then (λ s. pure (c_string (odbc.message_of s.calls)) s) else (do
      ret ← invoke (Call.get_diag_rec HandleType.dbc c.database_conn) (odbc.retcode_of)
      if succeeded ret then (λ s. pure (c_string (odbc.message_of s.calls)) s) else (do
        ret ← invoke (Call.get_diag_rec HandleType.env c.environment) (odbc.retcode_of)
        if succeeded ret then (λ s. pure (c_string (odbc.message_of s.calls)) s) else pure []))

  -- Raises an exception with the return code and the text of the error.
  unfoldable pub fail : Bytes → ℤ → Step OdbcStatement Call (Unit {0})
  unfolding check_error_odbc
  fail context ret = do
    message ← check_error_odbc
    raise (context ++ codes " \"" ++ show_int ret ++ codes " - " ++ message ++ codes "\"")

  -- OdbcStatement(SQLHENV&&, SQLHDBC&&)
  unfoldable pub create_statement : Step OdbcStatement Call (Unit {0})
  unfolding fail check_error_odbc
  create_statement = do
    c ← this
    assert (c.stmt == 0)
    stmt ← invoke (Call.alloc_stmt c.database_conn) (odbc.handle_of)
    put (record c { stmt = stmt })
    ret ← (λ s. pure (odbc.retcode_of s.calls) s)
    if succeeded ret
        then pure tt
        else fail (codes "OdbcStatemen | SQLAllocHandle [ SQL_HANDLE_STMT ] -") ret

  -- The library may write the number of rows.
  abbrev rows_written : Step OdbcStatement Call (Unit {0})
  rows_written s = put (record (s.object) { rows_fetched = odbc.rows_of s.calls }) s

  -- SQL_NO_DATA is 100.
  abbrev is_no_data : ℤ → Bool
  is_no_data (pos n) = n == 100
  is_no_data (negsuc n) = false

  unfoldable pub execute_direct : (expression : Bytes) → Step OdbcStatement Call Bool
  unfolding prepare_fetch
  execute_direct expression = do
    c ← this
    assert (not (c.stmt == 0))
    run (Call.set_rows_fetched_ptr c.stmt)
    retcode ← invoke (Call.exec_direct c.stmt (c_string expression)) (odbc.retcode_of)
    rows_written
    if not (is_no_data retcode) && not (succeeded retcode) then pure false else (do
      if succeeded retcode && not (c.columns_bind == 0) then prepare_fetch else pure tt
      pure (succeeded retcode))

  unfoldable pub fetch_next : Step OdbcStatement Call Bool
  fetch_next = do
    c ← this
    ret ← invoke (Call.fetch_next c.stmt) (odbc.retcode_of)
    rows_written
    if is_no_data ret then pure false else pure (succeeded ret)
