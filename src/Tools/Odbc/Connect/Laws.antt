-- ===== src/Tools/Odbc/Connect/Laws.antt =====
-- What a connection does to its handles and its flag, and which calls it makes for it.
use cpp_client_rabbit_mq.Common.{
  ℕ, ◌≡◌, ◌==◌, refl, Bool, true, false, Bytes, [], ◌∷◌, c_string, codes, is_empty, arith, ℤ,
  if◌then◌else◌,
}
use cpp_client_rabbit_mq.Tools.Step.{
  State, Ending, pure, ◌>>◌, returned, raised, aborted, returned-bind,
}
use cpp_client_rabbit_mq.Tools.Odbc.{Odbc, Call, History, succeeded}
use cpp_client_rabbit_mq.Tools.Odbc.Connect.{
  OdbcConnect, close, connect, connect_server, reconnect, allocate, conclude, begin_transaction,
  commit, rollback, check_error_odbc,
}

-- The calls that free the handles there are, each of them twice.
abbrev pub close_script : OdbcConnect → History → History
close_script c calls =
    let freed =
      if c.database_conn == 0
      then calls
      else Call.free_connect c.database_conn
        ∷ Call.free_handle_dbc c.database_conn
        ∷ Call.disconnect c.database_conn
        ∷ calls in
    if c.environment == 0
    then freed
    else Call.free_env c.environment ∷ Call.free_handle_env c.environment ∷ freed

abbrev pub closed : OdbcConnect → OdbcConnect
closed c = record c { environment = 0; database_conn = 0; is_transaction = false }

-- The calls that make the two handles.
abbrev pub allocate_script : ℕ → ℕ → History → History
allocate_script environment database_conn calls =
    Call.set_cursors database_conn
    ∷ Call.alloc_dbc environment
    ∷ Call.set_odbc_version environment
    ∷ Call.alloc_env
    ∷ calls

-- `close` ends regularly from every state. It frees the handles that are there, the connection
-- before the environment and each of them twice, leaves none and no transaction, and keeps the
-- settings.
pub close_lem :
    (s : State OdbcConnect Call)
    → close s
      ≡ (returned tt, record { object = closed s.object; calls = close_script s.object s.calls })
unfolding close
close_lem s = ground arith

module _ (odbc : Odbc) where
  allocate_returned :
      (s : State OdbcConnect Call)
      → (allocate odbc s).0 ≡ returned tt
      → let t = (allocate odbc s).1 in
        (t.object ≡ record (s.object) {
          environment = t.object.environment;
          database_conn = t.object.database_conn;
        })
        × (t.calls ≡ allocate_script t.object.environment t.object.database_conn s.calls)
  unfolding allocate
  allocate_returned s h = ground arith

  -- `connect` returns only from a state with no handles. It has then made two handles and asked the
  -- driver to connect with the given text, and returns whether it did, with the handles in place
  -- either way. The text is kept, and the settings of the other kind of `connect` are forgotten.
  pub connect_returned :
      (text : Bytes) (s : State OdbcConnect Call) (b : Bool)
      → (connect odbc text s).0 ≡ returned b
      → let t = (connect odbc text s).1 in
        (s.object.environment ≡ 0)
        × (s.object.database_conn ≡ 0)
        × (t.object ≡ record (s.object) {
          environment = t.object.environment;
          database_conn = t.object.database_conn;
          is_transaction = false;
          connect_string = text;
          server_name = [];
          username = [];
          password = [];
        })
        × (t.calls
            ≡ Call.driver_connect t.object.database_conn (c_string text)
              ∷ allocate_script t.object.environment t.object.database_conn s.calls)
        × (b ≡ succeeded (odbc.retcode_of t.calls))
  unfolding connect
  connect_returned text s b h =
      let s1 = record s {
        object = record (s.object) {
          connect_string = text;
          server_name = [];
          username = [];
          password = [];
        };
      } in
      ground (arith, allocate_returned s1)

  -- The same for a server name with a user and a password.
  pub connect_server_returned :
      (server user pass : Bytes) (s : State OdbcConnect Call) (b : Bool)
      → (connect_server odbc server user pass s).0 ≡ returned b
      → let t = (connect_server odbc server user pass s).1 in
        (s.object.environment ≡ 0)
        × (s.object.database_conn ≡ 0)
        × (t.object ≡ record (s.object) {
          environment = t.object.environment;
          database_conn = t.object.database_conn;
          is_transaction = false;
          connect_string = [];
          server_name = server;
          username = user;
          password = pass;
        })
        × (t.calls
            ≡ Call.sql_connect t.object.database_conn
                (c_string server)
                (c_string user)
                (c_string pass)
              ∷ allocate_script t.object.environment t.object.database_conn s.calls)
        × (b ≡ succeeded (odbc.retcode_of t.calls))
  unfolding connect_server
  connect_server_returned server user pass s b h =
      let s1 = record s {
        object = record (s.object) {
          connect_string = [];
          server_name = server;
          username = user;
          password = pass;
        };
      } in
      ground (arith, allocate_returned s1)

  -- A connection that was made by server name is closed by `reconnect` and not opened again.
  pub reconnect-close :
      (s : State OdbcConnect Call)
      → is_empty s.object.connect_string ≡ true
      → is_empty s.object.server_name ≡ false
      → reconnect odbc s ≡ close s
  unfolding reconnect
  reconnect-close s h k = ground (arith, close_lem s)

  -- A `reconnect` of a connection by text that returns has freed the old handles, made new ones and
  -- asked the driver to connect with the same text.
  pub reconnect_returned :
      (s : State OdbcConnect Call)
      → is_empty s.object.connect_string ≡ false
      → (reconnect odbc s).0 ≡ returned tt
      → let t = (reconnect odbc s).1 in
        (t.object.connect_string ≡ s.object.connect_string)
        × (t.calls
            ≡ Call.driver_connect t.object.database_conn (c_string s.object.connect_string)
              ∷ allocate_script t.object.environment t.object.database_conn
                  (close_script s.object s.calls))
  unfolding reconnect
  reconnect_returned s h k =
      let text = s.object.connect_string in
      let s1 : State OdbcConnect Call = record {
        object = closed s.object;
        calls = close_script s.object s.calls;
      } in
      let e : reconnect odbc s ≡ (connect odbc text >> pure tt) s1 = ground (arith, close_lem s) in
      let (b, h1, e1) = returned-bind (connect odbc text) (λ _. pure tt) s1 (rw e at k) in
      let (_, _, o, c, _) = connect_returned text s1 b h1 in rw (e, e1) (ground arith, ground arith)

  -- Every call succeeds.
  abbrev pub IsWorking : Type 0
  IsWorking = (calls : History) → succeeded (odbc.retcode_of calls) ≡ true

  allocate_total : IsWorking → (s : State OdbcConnect Call) → (allocate odbc s).0 ≡ returned tt
  unfolding allocate
  allocate_total h s =
      let c1 = Call.alloc_env ∷ s.calls in
      let e = odbc.handle_of c1 in
      let c2 = Call.set_odbc_version e ∷ c1 in
      let c3 = Call.alloc_dbc e ∷ c2 in
      let c4 = Call.set_cursors (odbc.handle_of c3) ∷ c3 in ground (arith, h c1, h c2, h c3, h c4)

  connect_total :
      IsWorking
      → (text : Bytes) (s : State OdbcConnect Call)
      → (connect odbc text (record s { object = closed s.object })).0 ≡ returned true
  unfolding connect
  connect_total h text s = rw (allocate_total h, h) refl

  -- With a driver on which every call succeeds, `reconnect` of a connection by text returns from
  -- every state, also from one that is open or in a transaction.
  pub reconnect_total :
      IsWorking
      → (s : State OdbcConnect Call) → is_empty s.object.connect_string ≡ false
      → (reconnect odbc s).0 ≡ returned tt
  unfolding reconnect
  reconnect_total h s k =
      let text = s.object.connect_string in
      let s1 : State OdbcConnect Call = record {
        object = closed s.object;
        calls = close_script s.object s.calls;
      } in
      let e : reconnect odbc s ≡ (connect odbc text >> pure tt) s1 = ground (arith, close_lem s) in
      rw (e, connect_total h text s1) refl

  -- A transaction function has returned `true` or raised an exception.
  abbrev pub succeeds : Ending Bool → Bool
  succeeds (returned b) = b
  succeeds (raised m) = false
  succeeds aborted = false

  succeeds-conclude :
      (function : Bytes) (flag : Bool) (retcode : ℤ) (s : State OdbcConnect Call)
      → (succeeds (conclude odbc function flag retcode s).0 ≡ succeeded retcode)
        × ((conclude odbc function flag retcode s).1.object
            ≡ record (s.object) { is_transaction = flag })
  unfolding conclude check_error_odbc
  succeeds-conclude function flag retcode s = ground arith

  -- The three functions return `true` when the call succeeded and raise an exception when it did
  -- not, but the flag is set either way: after a failed `begin_transaction` it tells of a
  -- transaction that there is not, and after a failed `commit` it denies one that goes on.
  pub transactions_lem :
      (s : State OdbcConnect Call)
      → let c = s.object in
        let after = λ (call : Call). succeeded (odbc.retcode_of (call ∷ s.calls)) in
        (succeeds (begin_transaction odbc s).0 ≡ after (Call.set_autocommit c.database_conn false))
        × ((begin_transaction odbc s).1.object ≡ record c { is_transaction = true })
        × (succeeds (commit odbc s).0 ≡ after (Call.end_tran c.database_conn true))
        × ((commit odbc s).1.object ≡ record c { is_transaction = false })
        × (succeeds (rollback odbc s).0 ≡ after (Call.end_tran c.database_conn false))
        × ((rollback odbc s).1.object ≡ record c { is_transaction = false })
  unfolding begin_transaction commit rollback
  transactions_lem s =
      let go = λ (call : Call) (function : Bytes) (flag : Bool).
        succeeds-conclude function flag (odbc.retcode_of (call ∷ s.calls))
          (record s { calls = call ∷ s.calls }) in
      let (b, b') =
        go (Call.set_autocommit s.object.database_conn false) (codes "beginTransaction") true in
      let (c, c') = go (Call.end_tran s.object.database_conn true) (codes "Commit") false in
      let (r, r') = go (Call.end_tran s.object.database_conn false) (codes "Rollback") false in
      (b, b', c, c', r, r')
