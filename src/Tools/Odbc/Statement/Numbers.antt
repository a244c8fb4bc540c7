-- ===== src/Tools/Odbc/Statement/Numbers.antt =====
-- The numbers under which parameters are bound.
use cpp_client_rabbit_mq.Common.{
  ◌%◌, ◌^◌, ℕ, zero, suc, ◌+◌, ◌==◌, ◌≡◌, refl, true, Bytes, List, [], ◌∷◌, ◌++◌, length,
  length-append, Option, some, none, ℤ, pos, arith, ◌∙◌, ap, codes, if◌then◌else◌,
}
use cpp_client_rabbit_mq.Tools.Step.{Step, State, Ending, continue, returned, raised, aborted}
use cpp_client_rabbit_mq.Tools.Odbc.{Odbc, Call, History, CType, Double, succeeded}
use cpp_client_rabbit_mq.Tools.Odbc.Statement.{OdbcStatement, fail, check_error_odbc}
use cpp_client_rabbit_mq.Tools.Odbc.Statement.Parameters.{
  SqlParameter, ParameterValue, int, float, double, chars, string, other, bound, add_parameter_int,
  add_parameter_number, add_parameter_chars, add_parameter_string, bind_value, set_bind_parameter,
  parameter_number,
}

-- The numbers of the parameters that some calls bind, the newest first.
abbrev pub bound_numbers : History → List ℕ
bound_numbers [] = []
bound_numbers (c ∷ calls) = elim c [
  | Call.bind_parameter stmt number t st size digits value length i ↦ number ∷ bound_numbers calls
  | _ ↦ bound_numbers calls
]

-- The places n + k, ..., n + 1 modulo 2 ^ 16, in front of other numbers.
abbrev pub countdown : ℕ → ℕ → List ℕ → List ℕ
countdown n zero rest = rest
countdown n (suc k) rest = (n + suc k) % 2 ^ 16 ∷ countdown n k rest

-- `k` parameters were added, each bound under the number of its place modulo 2 ^ 16.
abbrev pub IsNumbered : ℕ → State OdbcStatement Call → State OdbcStatement Call → Type 0
IsNumbered k s t =
    (length t.object.param_values ≡ length s.object.param_values + k)
    × (bound_numbers t.calls ≡ countdown (length s.object.param_values) k (bound_numbers s.calls))

module _ (odbc : Odbc) where
  fail_lem :
      (context : Bytes) (ret : ℤ) (s : State OdbcStatement Call)
      → let r = fail odbc context ret s in
        (r.1.object ≡ s.object)
        × (bound_numbers r.1.calls ≡ bound_numbers s.calls)
        × (r.0 ≡ returned tt → ⊥)
  unfolding fail check_error_odbc
  fail_lem context ret s = ground arith

  -- The step that all overloads end with.
  bound_lem :
      (c : OdbcStatement) (call : Call) (context : Bytes) (s : State OdbcStatement Call)
      → let r = bound odbc c call context s in
        (r.1.object ≡ c)
        × (bound_numbers r.1.calls ≡ bound_numbers (call ∷ s.calls))
        × (r.0 ≡ returned tt → succeeded (odbc.retcode_of (call ∷ s.calls)) ≡ true)
  unfolding bound
  bound_lem c call context s = ground (
    arith,
    fail_lem context (odbc.retcode_of (call ∷ s.calls))
        (record { object = c; calls = call ∷ s.calls }),
  )

  bound-IsNumbered :
      (c : OdbcStatement) (call : Call) (context shown : Bytes) (s : State OdbcStatement Call)
      → c.param_values ≡ s.object.param_values ++ shown ∷ []
      → bound_numbers (call ∷ s.calls)
        ≡ (length s.object.param_values + 1) % 2 ^ 16 ∷ bound_numbers s.calls
      → IsNumbered 1 s (bound odbc c call context s).1
  bound-IsNumbered c call context shown s h k =
      let (o, n, _) = bound_lem c call context s in
      (rw (o, h) (length-append s.object.param_values (shown ∷ [])), n ∙ k)

  add_parameter_int-IsNumbered :
      (v t : ℤ) (cd : ℕ) (cs : ℤ) (s : State OdbcStatement Call)
      → IsNumbered 1 s (add_parameter_int odbc v t cd cs s).1
  unfolding add_parameter_int parameter_number
  add_parameter_int-IsNumbered v t cd cs s = bound-IsNumbered _ _ _ _ s refl (ground arith)

  add_parameter_number-IsNumbered :
      (ct : CType) (size : ℕ) (name : Bytes) (v : Double) (t : ℤ) (cd : ℕ) (cs : ℤ)
      (s : State OdbcStatement Call)
      → IsNumbered 1 s (add_parameter_number odbc ct size name v t cd cs s).1
  unfolding add_parameter_number parameter_number
  add_parameter_number-IsNumbered ct size name v t cd cs s =
      bound-IsNumbered _ _ _ _ s refl (ground arith)

  add_parameter_chars-IsNumbered :
      (v : Option Bytes) (t : ℤ) (cd : ℕ) (cs : ℤ) (s : State OdbcStatement Call)
      → IsNumbered 1 s (add_parameter_chars odbc v t cd cs s).1
  unfolding add_parameter_chars parameter_number
  add_parameter_chars-IsNumbered none t cd cs s = bound-IsNumbered _ _ _ _ s refl (ground arith)
  add_parameter_chars-IsNumbered (some v) t cd cs s = bound-IsNumbered _ _ _ _ s refl (ground arith)

  add_parameter_string-IsNumbered :
      (v : Bytes) (t : ℤ) (cd : ℕ) (cs : ℤ) (s : State OdbcStatement Call)
      → IsNumbered 1 s (add_parameter_string odbc v t cd cs s).1
  unfolding add_parameter_string
  add_parameter_string-IsNumbered v t cd cs s =
      let zero : Double = record { is_null = true; shown = codes "0.000000" } in
      ground (
        arith,
        add_parameter_int-IsNumbered (pos 0) t 0 cs s,
        add_parameter_number-IsNumbered CType.c_double 8 (codes "double") zero t 0 cs s,
        add_parameter_chars-IsNumbered none t 0 cs s,
        add_parameter_chars-IsNumbered (some v) t (if cd == 0 then length v else cd) cs s,
      )

  bind_value-IsNumbered :
      (v : ParameterValue) (t : ℤ) (cd : ℕ) (cs : ℤ) (s : State OdbcStatement Call)
      → let r = bind_value odbc v t cd cs s in
        (k : ℕ) × IsNumbered k s r.1 × (r.0 ≡ returned tt → k ≡ 1)
  unfolding bind_value
  bind_value-IsNumbered (int v) t cd cs s = (1, add_parameter_int-IsNumbered v _ cd cs s, λ h. refl)
  bind_value-IsNumbered (float v) t cd cs s =
      (1, add_parameter_number-IsNumbered CType.c_float 4 (codes "float") v _ cd cs s, λ h. refl)
  bind_value-IsNumbered (double v) t cd cs s =
      (1, add_parameter_number-IsNumbered CType.c_double 8 (codes "double") v _ cd cs s, λ h. refl)
  bind_value-IsNumbered (chars v) t cd cs s =
      (1, add_parameter_chars-IsNumbered v t cd cs s, λ h. refl)
  bind_value-IsNumbered (string v) t cd cs s =
      (1, add_parameter_string-IsNumbered v t cd cs s, λ h. refl)
  bind_value-IsNumbered (other n) t cd cs s = (0, (omega arith, refl), λ h. cc)

  countdown-add :
      (n k l : ℕ) (rest : List ℕ)
      → countdown (n + k) l (countdown n k rest) ≡ countdown n (l + k) rest
  countdown-add n k zero rest = ap (λ m. countdown n m rest) (omega arith)
  countdown-add n k (suc l) rest =
      let e : suc l + k ≡ suc (l + k) = omega arith in
      rw (e, countdown-add n k l rest)
        (ap (λ m. m % 2 ^ 16 ∷ countdown n (l + k) rest) (omega arith))

  IsNumbered-trans :
      (k l : ℕ) (s t u : State OdbcStatement Call)
      → IsNumbered k s t
      → IsNumbered l t u
      → IsNumbered (l + k) s u
  IsNumbered-trans k l s t u (hv, hn) (kv, kn) = (
    omega arith,
    rw (kn, hv, hn) (countdown-add (length s.object.param_values) k l (bound_numbers s.calls)),
  )

  -- The second of two actions is reached where the first returns.
  IsNumbered-continue :
      (r : Ending (Unit {0})) (n : Step OdbcStatement Call (Unit {0}))
      (s t : State OdbcStatement Call) (k l : ℕ)
      → IsNumbered k s t
      → IsNumbered l t (n t).1
      → let e = continue r (λ _. n) t in
        (m : ℕ) × IsNumbered m s e.1
        × (e.0 ≡ returned tt → (m ≡ l + k) × (r ≡ returned tt) × ((n t).0 ≡ returned tt))
  IsNumbered-continue (returned u) n s t k l h g =
      (l + k, IsNumbered-trans k l s t (n t).1 h g, λ e. (refl, refl, e))
  IsNumbered-continue (raised m) n s t k l h g = (k, h, λ e. cc)
  IsNumbered-continue aborted n s t k l h g = (k, h, λ e. cc)

  -- However it ends, `setBindParameter` has bound every parameter that it has added under its
  -- place in the list of values modulo 2 ^ 16, one after the other, and it has added all of them
  -- where it returns. Up to the 65535th parameter this number is the place itself.
  pub set_bind_parameter-IsNumbered :
      (ps : List SqlParameter) (s : State OdbcStatement Call)
      → let r = set_bind_parameter odbc ps s in
        (k : ℕ) × IsNumbered k s r.1 × (r.0 ≡ returned tt → k ≡ length ps)
  unfolding set_bind_parameter
  set_bind_parameter-IsNumbered [] s = (0, (omega arith, refl), λ h. refl)
  set_bind_parameter-IsNumbered (p ∷ ps) s =
      let first = bind_value odbc p.value p.sql_type p.col_def p.col_scale s in
      let (k, h, a) = bind_value-IsNumbered p.value p.sql_type p.col_def p.col_scale s in
      let (l, g, b) = set_bind_parameter-IsNumbered ps first.1 in
      let (m, i, c) = IsNumbered-continue first.0 (set_bind_parameter odbc ps) s first.1 k l h g in
      (m, i, λ e. let (c1, c2, c3) = c e in omega (arith, c1, a c2, b c3))
