-- ===== src/Tools/Odbc/Statement/Parameters.antt =====
-- The parameters of a statement, one function per overload of `addParameter`.
-- (Modules/Tools/OdbcStatement.cpp)
use cpp_client_rabbit_mq.Common.{
  ℕ, ◌+◌, ◌%◌, ◌^◌, ◌==◌, true, ◌&&◌, Bytes, List, [], ◌∷◌, ◌++◌, length, codes, c_string, Option,
  some, none, ℤ, pos, is_zero, if◌then◌else◌,
}
use cpp_client_rabbit_mq.Tools.Decimal.{decimal, show_int}
use cpp_client_rabbit_mq.Tools.Step.{Step, pure, raise, invoke, this, put, ◌>>=◌, ◌>>◌}
use cpp_client_rabbit_mq.Tools.Odbc.{Odbc, Call, CType, Double, Value, Indicator, succeeded}
use cpp_client_rabbit_mq.Tools.Odbc.Statement.{OdbcStatement, fail}
use cpp_client_rabbit_mq.Tools.Odbc.Statement.Types.{
  fn_desc_sql_types, sql_unknown_type, sql_integer, sql_float, sql_double, sql_numeric, sql_decimal,
  sql_varchar, same_type,
}

-- The text of a parameter: "{TYPE: value}"
unfoldable pub show_parameter : ℤ → Bytes → Bytes
show_parameter sql_type value =
    codes "{" ++ fn_desc_sql_types sql_type ++ codes ": " ++ value ++ codes "}"

-- What the `value` of a `SQLParameter` holds.
pub data ParameterValue : Type 0 where
  int : ℤ → ParameterValue
  float : Double → ParameterValue
  double : Double → ParameterValue
  chars : Option Bytes → ParameterValue
  string : Bytes → ParameterValue
  other : (type_name : Bytes) → ParameterValue

pub record SqlParameter : Type 0 where
  pub value : ParameterValue
  pub sql_type : ℤ
  pub col_def : ℕ
  pub col_scale : ℤ

-- The type of a number whose type was left open.
abbrev default_type : ℤ → ℤ → ℤ
default_type sql_type t = if same_type sql_type sql_unknown_type then t else sql_type

-- The number of a parameter, as `SQLBindParameter` takes it: a `SQLUSMALLINT`.
unfoldable pub parameter_number : ℕ → ℕ
parameter_number n = n % 2 ^ 16

module _ (odbc : Odbc) where
  -- What each overload does in the end: the members are set, the call is made, and there is an
  -- exception if it failed.
  unfoldable pub bound :
      OdbcStatement → Call → (context : Bytes) → Step OdbcStatement Call (Unit {0})
  bound c call context = do
    put c
    ret ← invoke call (odbc.retcode_of)
    if succeeded ret then pure tt else fail odbc context ret

  -- The value is null where it is 0 and no size is given.
  unfoldable pub add_parameter_int :
      ℤ → (sql_type : ℤ) (col_def : ℕ) (col_scale : ℤ) → Step OdbcStatement Call (Unit {0})
  add_parameter_int ivalue sql_type col_def col_scale = do
    c ← this
    let is_null = is_zero ivalue && col_def == 0
    let shown = show_parameter sql_type (if is_null then codes "null" else show_int ivalue)
    let number = length c.param_values + 1
    bound
        (record c {
          param_int = c.param_int ++ ivalue ∷ [];
          param_values = c.param_values ++ shown ∷ [];
        })
        (if is_null
          then Call.bind_parameter c.stmt (parameter_number number) CType.c_long sql_type 0 (pos 0)
              none 0 Indicator.null_data
          else Call.bind_parameter c.stmt (parameter_number number) CType.c_long sql_type col_def
              col_scale (some (Value.int ivalue)) 4 Indicator.no_indicator)
        (codes "OdbcStatement::addParameter [int] -")

  -- Both overloads on floating-point numbers: the type in C, its size, and its name.
  unfoldable pub add_parameter_number :
      CType
      → ℕ
      → Bytes
      → Double
      → (sql_type : ℤ) (col_def : ℕ) (col_scale : ℤ) → Step OdbcStatement Call (Unit {0})
  add_parameter_number c_type size type_name dvalue sql_type col_def col_scale = do
    c ← this
    let is_null = dvalue.is_null && col_def == 0
    let shown = show_parameter sql_type (if is_null then codes "null" else dvalue.shown)
    let number = length c.param_values + 1
    bound
        (record c {
          param_double = c.param_double ++ dvalue ∷ [];
          param_values = c.param_values ++ shown ∷ [];
        })
        (if is_null
          then Call.bind_parameter c.stmt (parameter_number number) c_type sql_type 0 (pos 0) none 0
              Indicator.null_data
          else Call.bind_parameter c.stmt (parameter_number number) c_type sql_type col_def
              col_scale (some (Value.double dvalue)) size Indicator.nts)
        (codes "OdbcStatement::addParameter [" ++ type_name ++ codes "] -")

  -- The variable is a `double`, and the driver is told that it is a `float`.
  abbrev pub add_parameter_float :
      Double → (sql_type : ℤ) (col_def : ℕ) (col_scale : ℤ) → Step OdbcStatement Call (Unit {0})
  add_parameter_float = add_parameter_number CType.c_float 4 (codes "float")

  abbrev pub add_parameter_double :
      Double → (sql_type : ℤ) (col_def : ℕ) (col_scale : ℤ) → Step OdbcStatement Call (Unit {0})
  add_parameter_double = add_parameter_number CType.c_double 8 (codes "double")

  -- The context of the exception has the number of the parameter, and two dashes.
  abbrev chars_context : ℕ → Bytes
  chars_context number =
      codes "OdbcStatement::addParameter [char*] - param " ++ decimal number ++ codes " --"

  unfoldable pub add_parameter_chars :
      Option Bytes
      → (sql_type : ℤ) (col_def : ℕ) (col_scale : ℤ) → Step OdbcStatement Call (Unit {0})
  add_parameter_chars none sql_type col_def col_scale = do
    c ← this
    let number = length c.param_values + 1
    bound
        (record c { param_values = c.param_values ++ show_parameter sql_type (codes "null") ∷ [] })
        (Call.bind_parameter c.stmt (parameter_number number) CType.c_char sql_type 0 (pos 0) none 0
          Indicator.null_data)
        (chars_context number)
  add_parameter_chars (some szvalue) sql_type col_def col_scale = do
    c ← this
    let value = c_string szvalue
    let number = length c.param_values + 1
    bound
        (record c {
          param_values = c.param_values ++ show_parameter sql_type value ∷ [];
          param_str = c.param_str ++ value ∷ [];
        })
        (Call.bind_parameter c.stmt (parameter_number number) CType.c_char sql_type
          (if col_def == 0 then length value + 1 else col_def) col_scale (some (Value.text value))
          (length value) Indicator.no_indicator)
        (chars_context number)

  unfoldable pub add_parameter_string :
      Bytes → (sql_type : ℤ) (col_def : ℕ) (col_scale : ℤ) → Step OdbcStatement Call (Unit {0})
  add_parameter_string svalue sql_type col_def col_scale =
      let size = if col_def == 0 then length svalue else col_def in
      let zero : Double = record { is_null = true; shown = codes "0.000000" } in
      if size == 0 && same_type sql_type sql_integer
      then add_parameter_int (pos 0) sql_type 0 col_scale
      else if size == 0 && same_type sql_type sql_float
      then add_parameter_double zero sql_type 0 col_scale
      else if size == 0 && same_type sql_type sql_double
      then add_parameter_double zero sql_type 0 col_scale
      else if size == 0 && same_type sql_type sql_numeric
      then add_parameter_chars none sql_type 0 col_scale
      else if size == 0 && same_type sql_type sql_decimal
      then add_parameter_chars none sql_type 0 col_scale
      else if size == 0 && same_type sql_type sql_varchar
      then add_parameter_chars none sql_type 0 col_scale
      else add_parameter_chars (some svalue) sql_type size col_scale

  -- The body of the loop of `setBindParameter`.
  unfoldable pub bind_value :
      ParameterValue
      → (sql_type : ℤ) (col_def : ℕ) (col_scale : ℤ) → Step OdbcStatement Call (Unit {0})
  bind_value (int v) sql_type col_def col_scale =
      add_parameter_int v (default_type sql_type sql_integer) col_def col_scale
  bind_value (float v) sql_type col_def col_scale =
      add_parameter_float v (default_type sql_type sql_float) col_def col_scale
  bind_value (double v) sql_type col_def col_scale =
      add_parameter_double v (default_type sql_type sql_double) col_def col_scale
  bind_value (chars v) sql_type col_def col_scale = add_parameter_chars v sql_type col_def col_scale
  bind_value (string v) sql_type col_def col_scale =
      add_parameter_string v sql_type col_def col_scale
  bind_value (other type_name) sql_type col_def col_scale = do
    c ← this
    raise (
        codes "OdbcStatement::setBindParameter | Tipo de dado desconhecido \""
        ++ type_name
        ++ codes "\" - idx = "
        ++ decimal (length c.param_values))

  unfoldable pub set_bind_parameter : List SqlParameter → Step OdbcStatement Call (Unit {0})
  set_bind_parameter [] = pure tt
  set_bind_parameter (p ∷ ps) = do
    bind_value p.value p.sql_type p.col_def p.col_scale
    set_bind_parameter ps
