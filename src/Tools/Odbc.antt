-- ===== src/Tools/Odbc.antt =====
-- The ODBC library as its clients see it: the calls, and the answers.
pub mod Connect
pub mod Statement
use cpp_client_rabbit_mq.Common.{ℕ, Bool, true, false, List, Bytes, ℤ, pos, negsuc, leb, Option}

-- The kinds of handles that `SQLGetDiagRec` is asked about.
pub data HandleType : Type 0 where
  env dbc stmt : HandleType

-- A floating-point number: whether it is 0, and its print by `std::to_string`.
pub record Double : Type 0 where
  pub is_null : Bool
  pub shown : Bytes

-- A variable that a parameter is bound to.
pub data Value : Type 0 where
  int : ℤ → Value
  double : Double → Value
  text : Bytes → Value

-- The type of a C variable in a binding.
pub data CType : Type 0 where
  c_long c_float c_double c_char : CType

-- The last argument of a binding: none, the text ends with a NUL, the value is null, or a variable
-- of the caller.
pub data Indicator : Type 0 where
  no_indicator nts null_data : Indicator
  variable : ℕ → Indicator

-- The calls, with the arguments that differ. A handle is a number, 0 where it is null.
pub data Call : Type 0 where
  alloc_env : Call
  set_odbc_version : (environment : ℕ) → Call
  alloc_dbc : (environment : ℕ) → Call
  set_cursors : (database_conn : ℕ) → Call
  sql_connect : (database_conn : ℕ) (server_name username password : Bytes) → Call
  driver_connect : (database_conn : ℕ) (connect_string : Bytes) → Call
  disconnect : (database_conn : ℕ) → Call
  free_handle_dbc free_connect : (database_conn : ℕ) → Call
  free_handle_env free_env : (environment : ℕ) → Call
  set_autocommit : (database_conn : ℕ) → Bool → Call
  end_tran : (database_conn : ℕ) (commit : Bool) → Call
  sql_error : (environment database_conn : ℕ) → Call
  alloc_stmt : (database_conn : ℕ) → Call
  close_cursor free_handle_stmt : (stmt : ℕ) → Call
  get_diag_rec : HandleType → (handle : ℕ) → Call
  bind_parameter :
      (stmt number : ℕ)
      → CType
      → (sql_type : ℤ) (column_size : ℕ) (decimal_digits : ℤ)
      → (value : Option Value) (buffer_length : ℕ) → Indicator
      → Call
  bind_col : (stmt number : ℕ) (target_type : ℤ) (target : ℕ) (length : ℤ) → Indicator → Call
  set_rows_fetched_ptr : (stmt : ℕ) → Call
  exec_direct : (stmt : ℕ) (expression : Bytes) → Call
  set_bind_type : (stmt size : ℕ) → Call
  set_row_array_size : (stmt : ℕ) (size : ℤ) → Call
  fetch_next : (stmt : ℕ) → Call

abbrev pub History : Type 0
History = List Call

-- What the library answers to the last of some calls: the return code, the handle that it writes,
-- the text of an error, and the number of rows that it writes where `set_rows_fetched_ptr` said.
pub record Odbc : Type 0 where
  pub retcode_of : History → ℤ
  pub handle_of : History → ℕ
  pub message_of : History → Bytes
  pub rows_of : History → ℤ

-- `SQL_SUCCEEDED`: the codes `SQL_SUCCESS` and `SQL_SUCCESS_WITH_INFO`
abbrev pub succeeded : ℤ → Bool
succeeded (pos n) = leb n 1
succeeded (negsuc n) = false
