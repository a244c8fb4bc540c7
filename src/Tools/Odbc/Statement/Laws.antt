-- ===== src/Tools/Odbc/Statement/Laws.antt =====
-- Which texts are bound as null, and how an execution ends.
use cpp_client_rabbit_mq.Common.{
  ℕ, ◌==◌, ◌≡◌, Bool, true, false, ◌&&◌, ◌||◌, not, Bytes, [], ◌∷◌, length, is_empty, Option, some,
  none, ℤ, pos, negsuc, arith, if◌then◌else◌, c_string, codes,
}
use cpp_client_rabbit_mq.Tools.Step.{State, returned}
use cpp_client_rabbit_mq.Tools.Odbc.{Odbc, Call, History, CType, Value, succeeded}
use cpp_client_rabbit_mq.Tools.Odbc.Statement.{
  OdbcStatement, fail, check_error_odbc, execute_direct, prepare_fetch,
}
use cpp_client_rabbit_mq.Tools.Odbc.Statement.Parameters.{
  bound, add_parameter_int, add_parameter_number, add_parameter_chars, add_parameter_string,
}

abbrev pub is_none : Option Value → Bool
is_none none = true
is_none (some v) = false

-- Whether the newest call that binds a parameter binds null.
abbrev pub newest_is_null : History → Bool
newest_is_null [] = false
newest_is_null (c ∷ calls) = elim c [
  | Call.bind_parameter stmt number t st size digits value length i ↦ is_none value
  | _ ↦ newest_is_null calls
]

-- The types for which an empty text stands for null.
abbrev pub null_if_empty : ℤ → Bool
null_if_empty (pos n) = n == 2 || n == 3 || n == 4 || n == 6 || n == 8 || n == 12
null_if_empty (negsuc n) = false

module _ (odbc : Odbc) where
  fail_newest :
      (context : Bytes) (ret : ℤ) (s : State OdbcStatement Call)
      → newest_is_null (fail odbc context ret s).1.calls ≡ newest_is_null s.calls
  unfolding fail check_error_odbc
  fail_newest context ret s = ground arith

  bound_newest :
      (c : OdbcStatement) (call : Call) (context : Bytes) (s : State OdbcStatement Call)
      → newest_is_null (bound odbc c call context s).1.calls ≡ newest_is_null (call ∷ s.calls)
  unfolding bound
  bound_newest c call context s = ground (
    arith,
    fail_newest context (odbc.retcode_of (call ∷ s.calls))
        (record { object = c; calls = call ∷ s.calls }),
  )

  int_newest :
      (t : ℤ) (cs : ℤ) (s : State OdbcStatement Call)
      → newest_is_null (add_parameter_int odbc (pos 0) t 0 cs s).1.calls ≡ true
  unfolding add_parameter_int
  int_newest t cs s = bound_newest _ _ _ s

  number_newest :
      (ct : CType) (size : ℕ) (name shown : Bytes) (t : ℤ) (cs : ℤ) (s : State OdbcStatement Call)
      → newest_is_null
          (add_parameter_number odbc ct size name
            (record { is_null = true; shown = shown })
            t
            0
            cs
            s).1.calls
        ≡ true
  unfolding add_parameter_number
  number_newest ct size name shown t cs s = bound_newest _ _ _ s

  chars_newest :
      (v : Option Bytes) (t : ℤ) (cd : ℕ) (cs : ℤ) (s : State OdbcStatement Call)
      → newest_is_null (add_parameter_chars odbc v t cd cs s).1.calls
        ≡ elim v [ none ↦ true | some w ↦ false ]
  unfolding add_parameter_chars
  chars_newest none t cd cs s = bound_newest _ _ _ s
  chars_newest (some w) t cd cs s = bound_newest _ _ _ s

  -- A text is bound as null exactly when it is empty, no size is given, and the type is one of
  -- NUMERIC, DECIMAL, INTEGER, FLOAT, DOUBLE and VARCHAR; whatever else, its characters are bound.
  pub add_parameter_string_null :
      (v : Bytes) (t : ℤ) (cd : ℕ) (cs : ℤ) (s : State OdbcStatement Call)
      → newest_is_null (add_parameter_string odbc v t cd cs s).1.calls
        ≡ (is_empty v && cd == 0 && null_if_empty t)
  unfolding add_parameter_string
  add_parameter_string_null v t cd cs s = ground (
    arith,
    int_newest t cs s,
    number_newest CType.c_double 8 (codes "double") (codes "0.000000") t cs s,
    chars_newest none t 0 cs s,
    chars_newest (some v) t (if cd == 0 then length v else cd) cs s,
  )

  -- The calls of an execution, with the sizes of a fetch in the end where there are columns and the
  -- statement succeeded.
  abbrev pub execute_script : OdbcStatement → Bytes → Bool → History → History
  execute_script c expression success calls =
      let executed =
        Call.exec_direct c.stmt (c_string expression) ∷ Call.set_rows_fetched_ptr c.stmt ∷ calls in
      if success && not (c.columns_bind == 0)
      then Call.set_row_array_size c.stmt c.fetch_rows_size
        ∷ Call.set_bind_type c.stmt c.size_model
        ∷ executed
      else executed

  -- On a statement that has a handle, `executeDirect` returns whether the execution succeeded,
  -- and that there is no data counts as a failure. It changes nothing but the number of rows, and
  -- sets the sizes of a fetch exactly when it succeeded and columns are bound.
  execute_direct_lem :
      (expression : Bytes) (s : State OdbcStatement Call)
      → (s.object.stmt == 0) ≡ false
      → let c = s.object in
        let r = execute_direct odbc expression s in
        let executed = execute_script c expression false s.calls in
        let success = succeeded (odbc.retcode_of executed) in
        (r.0 ≡ returned success)
        × (r.1.object ≡ record c { rows_fetched = odbc.rows_of executed })
        × (r.1.calls ≡ execute_script c expression success s.calls)
  unfolding execute_direct prepare_fetch
  execute_direct_lem expression s h = ground arith
