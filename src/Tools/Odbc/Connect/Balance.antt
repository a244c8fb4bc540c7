-- ===== src/Tools/Odbc/Connect/Balance.antt =====
-- Which handles of a connection were made and not freed yet.
use cpp_client_rabbit_mq.Common.{
  ℕ, ℤ, ◌+◌, ◌==◌, ◌≡◌, refl, Bool, true, false, Bytes, [], ◌∷◌, inl, inr, ◌⊎◌, arith,
  if◌then◌else◌,
}
use cpp_client_rabbit_mq.Tools.Step.{
  State, Step, Ending, returned, raised, aborted, continue, pure, ◌>>◌,
}
use cpp_client_rabbit_mq.Tools.Odbc.{Odbc, Call, History, succeeded}
use cpp_client_rabbit_mq.Tools.Odbc.Connect.{
  OdbcConnect, close, connect, connect_server, reconnect, allocate, conclude, begin_transaction,
  commit, rollback, check_error_odbc,
}
use cpp_client_rabbit_mq.Tools.Odbc.Connect.Laws.{close_script, closed, close_lem}

-- How many handles were made, and how many of them were freed.
abbrev pub environments_made : History → ℕ
environments_made [] = 0
environments_made (Call.alloc_env ∷ h) = environments_made h + 1
environments_made (c ∷ h) = environments_made h

abbrev pub environments_freed : History → ℕ
environments_freed [] = 0
environments_freed (Call.free_handle_env e ∷ h) = environments_freed h + 1
environments_freed (c ∷ h) = environments_freed h

abbrev pub connections_made : History → ℕ
connections_made [] = 0
connections_made (Call.alloc_dbc e ∷ h) = connections_made h + 1
connections_made (c ∷ h) = connections_made h

abbrev pub connections_freed : History → ℕ
connections_freed [] = 0
connections_freed (Call.free_handle_dbc d ∷ h) = connections_freed h + 1
connections_freed (c ∷ h) = connections_freed h

abbrev pub held : ℕ → ℕ
held handle = if handle == 0 then 0 else 1

-- What was made and not freed is what the members hold.
abbrev pub IsBalanced : State OdbcConnect Call → Type 0
IsBalanced s =
    (environments_made s.calls ≡ environments_freed s.calls + held s.object.environment)
    × (connections_made s.calls ≡ connections_freed s.calls + held s.object.database_conn)

-- What a program asks of a connection.
pub data Operation : Type 0 where
  connects : (text : Bytes) → Operation
  connects_server : (server user pass : Bytes) → Operation
  closes reconnects begins commits rolls_back : Operation

module _ (odbc : Odbc) where
  -- The driver gives a handle where it says so.
  pub record GivesHandles : Type 0 where
    pub environment :
        (h : History)
        → succeeded (odbc.retcode_of (Call.alloc_env ∷ h)) ≡ true
        → (odbc.handle_of (Call.alloc_env ∷ h) == 0) ≡ false
    pub connection :
        (e : ℕ) (h : History)
        → succeeded (odbc.retcode_of (Call.alloc_dbc e ∷ h)) ≡ true
        → (odbc.handle_of (Call.alloc_dbc e ∷ h) == 0) ≡ false

  -- The process ends with a failed assertion, or the handles are balanced.
  abbrev pub Balances : {A : Type 0} → Ending A × State OdbcConnect Call → Type 0
  Balances r = (r.0 ≡ aborted) ⊎ IsBalanced r.1

  allocate-Balances :
      (s : State OdbcConnect Call)
      → GivesHandles
      → s.object.environment ≡ 0
      → s.object.database_conn ≡ 0
      → IsBalanced s
      → Balances (allocate odbc s)
  unfolding allocate
  allocate-Balances s g e d b =
      let c1 = Call.alloc_env ∷ s.calls in
      let env = odbc.handle_of c1 in
      let c2 = Call.set_odbc_version env ∷ c1 in
      ground (arith, e, d, b, g.environment s.calls, g.connection env c2)

  abbrev pub forget : {A : Type 0} → Step OdbcConnect Call A → Step OdbcConnect Call (Unit {0})
  forget m = m >> pure tt

  abbrev pub perform : Operation → Step OdbcConnect Call (Unit {0})
  perform (connects text) = forget (connect odbc text)
  perform (connects_server server user pass) = forget (connect_server odbc server user pass)
  perform closes = close
  perform reconnects = reconnect odbc
  perform begins = forget (begin_transaction odbc)
  perform commits = forget (commit odbc)
  perform rolls_back = forget (rollback odbc)

  pub closed-IsBalanced :
      (s : State OdbcConnect Call)
      → IsBalanced s
      → IsBalanced (record { object = closed s.object; calls = close_script s.object s.calls })
  closed-IsBalanced s b = ground (arith, b)

  close-IsBalanced : (s : State OdbcConnect Call) → IsBalanced s → IsBalanced (close s).1
  close-IsBalanced s b = rw (close_lem s) (closed-IsBalanced s b)

  connect-Balances :
      (text : Bytes) (s : State OdbcConnect Call)
      → GivesHandles
      → IsBalanced s
      → Balances (connect odbc text s)
  unfolding connect
  connect-Balances text s g b =
      let s1 = record s {
        object = record (s.object) {
          connect_string = text;
          server_name = [];
          username = [];
          password = [];
        };
      } in
      ground (arith, b, allocate-Balances s1 g)

  connect_server-Balances :
      (server user pass : Bytes) (s : State OdbcConnect Call)
      → GivesHandles
      → IsBalanced s
      → Balances (connect_server odbc server user pass s)
  unfolding connect_server
  connect_server-Balances server user pass s g b =
      let s1 = record s {
        object = record (s.object) {
          connect_string = [];
          server_name = server;
          username = user;
          password = pass;
        };
      } in
      ground (arith, b, allocate-Balances s1 g)

  conclude-IsBalanced :
      (function : Bytes) (flag : Bool) (retcode : ℤ) (s : State OdbcConnect Call)
      → IsBalanced s
      → IsBalanced (conclude odbc function flag retcode s).1
  unfolding conclude check_error_odbc
  conclude-IsBalanced function flag retcode s b = ground (arith, b)

  continue-Balances :
      {A : Type 0} (r : Ending A) (s : State OdbcConnect Call)
      → Balances (r, s)
      → Balances (continue r (λ _. pure tt) s)
  continue-Balances (returned a) s b = elim b [ inl e ↦ absurd (cc e) | inr c ↦ inr c ]
  continue-Balances (raised m) s b = elim b [ inl e ↦ absurd (cc e) | inr c ↦ inr c ]
  continue-Balances aborted s b = inl refl

  forget-Balances :
      {A : Type 0} (m : Step OdbcConnect Call A) (s : State OdbcConnect Call)
      → Balances (m s)
      → Balances (forget m s)
  forget-Balances m s b = continue-Balances (m s).0 (m s).1 b

  reconnect-Balances :
      (s : State OdbcConnect Call) → GivesHandles → IsBalanced s → Balances (reconnect odbc s)
  unfolding reconnect
  reconnect-Balances s g b =
      let text = s.object.connect_string in
      let s1 : State OdbcConnect Call = record {
        object = closed s.object;
        calls = close_script s.object s.calls;
      } in
      let b1 : IsBalanced s1 = closed-IsBalanced s b in
      let b2 = forget-Balances (connect odbc text) s1 (connect-Balances text s1 g b1) in
      ground (arith, b, close_lem s, b1, b2)

  pub perform-Balances :
      (o : Operation) (s : State OdbcConnect Call)
      → GivesHandles
      → IsBalanced s
      → Balances (perform o s)
  unfolding begin_transaction commit rollback
  perform-Balances (connects text) s g b =
      forget-Balances (connect odbc text) s (connect-Balances text s g b)
  perform-Balances (connects_server server user pass) s g b =
      forget-Balances (connect_server odbc server user pass) s
        (connect_server-Balances server user pass s g b)
  perform-Balances closes s g b = inr (close-IsBalanced s b)
  perform-Balances reconnects s g b = reconnect-Balances s g b
  perform-Balances begins s g b =
      forget-Balances (begin_transaction odbc) s (inr (conclude-IsBalanced _ _ _ _ b))
  perform-Balances commits s g b =
      forget-Balances (commit odbc) s (inr (conclude-IsBalanced _ _ _ _ b))
  perform-Balances rolls_back s g b =
      forget-Balances (rollback odbc) s (inr (conclude-IsBalanced _ _ _ _ b))
