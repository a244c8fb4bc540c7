-- ===== src/Tools/Odbc/Connect/Freed.antt =====
-- Every handle of a connection is freed.
use mathlib.Core.Path.{subst}
use cpp_client_rabbit_mq.Common.{◌≡◌, refl, List, [], ◌∷◌, Option, some, none, inl, inr, arith}
use cpp_client_rabbit_mq.Tools.Step.{State, Ending, returned, raised, aborted}
use cpp_client_rabbit_mq.Tools.Odbc.{Odbc, Call}
use cpp_client_rabbit_mq.Tools.Odbc.Connect.{OdbcConnect, fresh_connect, close}
use cpp_client_rabbit_mq.Tools.Odbc.Connect.Laws.{close_lem}
use cpp_client_rabbit_mq.Tools.Odbc.Connect.Balance.{
  environments_made, environments_freed, connections_made, connections_freed, IsBalanced, Balances,
  Operation, GivesHandles, perform, perform-Balances, closed-IsBalanced,
}

module _ (odbc : Odbc) where
  -- Some operations, one after the other. An exception is caught in between, and `none` is a failed
  -- assertion, which ends the process.
  abbrev pub after : Ending (Unit {0}) → State OdbcConnect Call → Option (State OdbcConnect Call)
  after (returned a) s = some s
  after (raised m) s = some s
  after aborted s = none

  abbrev pub run_all : List Operation → State OdbcConnect Call → Option (State OdbcConnect Call)
  run_all [] s = some s
  run_all (o ∷ os) s = elim (after (perform odbc o s).0 (perform odbc o s).1) [
    | none ↦ none
    | some t ↦ run_all os t
  ]

  after-IsBalanced :
      (os : List Operation) (r : Ending (Unit {0})) (s t : State OdbcConnect Call)
      → Balances odbc (r, s)
      → (IsBalanced s → run_all os s ≡ some t → IsBalanced t)
      → elim (after r s) [ none ↦ none | some u ↦ run_all os u ] ≡ some t
      → IsBalanced t
  after-IsBalanced os (returned a) s t b next h = elim b [
    | inl e ↦ absurd (cc e)
    | inr c ↦ next c h
  ]
  after-IsBalanced os (raised m) s t b next h = elim b [ inl e ↦ absurd (cc e) | inr c ↦ next c h ]
  after-IsBalanced os aborted s t b next h = cc

  run_all-IsBalanced :
      (os : List Operation) (s t : State OdbcConnect Call)
      → GivesHandles odbc
      → IsBalanced s
      → run_all os s ≡ some t
      → IsBalanced t
  run_all-IsBalanced [] s t g b h = let e : s ≡ t = cc h in subst IsBalanced e b
  run_all-IsBalanced (o ∷ os) s t g b h =
      after-IsBalanced os (perform odbc o s).0 (perform odbc o s).1 t
        (perform-Balances odbc o s g b) (λ c. run_all-IsBalanced os (perform odbc o s).1 t g c) h

  -- Whatever is asked of a new connection, in whatever order, and whatever fails: at the end, when
  -- the destructor has closed it, as many handles of each kind were freed by `SQLFreeHandle` as were
  -- made, if no assertion has failed and the driver gives a handle where it says so.
  pub run_all-close :
      (os : List Operation) (t : State OdbcConnect Call)
      → GivesHandles odbc
      → run_all os (record { object = fresh_connect; calls = [] }) ≡ some t
      → let u = (close t).1 in
        (environments_made u.calls ≡ environments_freed u.calls)
        × (connections_made u.calls ≡ connections_freed u.calls)
  run_all-close os t g h =
      let b = run_all-IsBalanced os _ t g (refl, refl) h in
      let (e, d) = closed-IsBalanced odbc t b in rw (close_lem t) (ground (arith, e, d))
