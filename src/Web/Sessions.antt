-- ===== src/Web/Sessions.antt =====
-- The exchange with its sessions: what the calling thread and the workers do, in any order.
-- (Modules/Web/ClientExchange.cpp with the `Start` and `Stop` of Modules/Web/WebSocketSession.cpp; the
-- `io_context`, which the sessions share, is left out)
pub mod Kept
pub mod Tidy
pub mod Leaving
pub mod Returning
pub mod Refinement
use cpp_client_rabbit_mq.Common.{
  ◌≡◌, Bool, true, false, Bytes, List, [], ◌∷◌, Option, some, none, bytes_eq, if◌then◌else◌,
}
use cpp_client_rabbit_mq.Web.Session.{Session, Place, fresh_session, ◌⟶◌}
use cpp_client_rabbit_mq.Web.Session.Reachable.{is_work}

-- Where the calling thread is: outside the exchange, in the `join` of `Stop` for the symbol that it
-- unsubscribes, in the loop of `stop` with the symbols that are left, or in the `join` there for one
-- symbol, with those that are left behind it.
pub data Task : Type 0 where
  ready : Task
  unsubscribing : (symbol : Bytes) → Task
  stopping : (symbols : List Bytes) → Task
  joining : (symbol : Bytes) (symbols : List Bytes) → Task

-- `_cryptoCurrencySubscriptions`
abbrev pub Sessions : Type 0
Sessions = List (Bytes × Session)

pub record Exchange : Type 0 where
  pub sessions : Sessions
  pub task : Task

abbrev pub empty_exchange : Exchange
empty_exchange = record { sessions = []; task = Task.ready }

abbrev pub session_of : Bytes → Sessions → Option Session
session_of symbol [] = none
session_of symbol ((k, s) ∷ ss) = if bytes_eq k symbol then some s else session_of symbol ss

-- The session of the symbol changes, if there is one.
abbrev pub set_session : Bytes → Session → Sessions → Sessions
set_session symbol t [] = []
set_session symbol t ((k, s) ∷ ss) =
    let rest = set_session symbol t ss in if bytes_eq k symbol then (k, t) ∷ rest else (k, s) ∷ rest

-- erase(symbol)
abbrev pub remove : Bytes → Sessions → Sessions
remove symbol [] = []
remove symbol ((k, s) ∷ ss) =
    let rest = remove symbol ss in if bytes_eq k symbol then rest else (k, s) ∷ rest

abbrev pub symbols_of : Sessions → List Bytes
symbols_of [] = []
symbols_of ((k, s) ∷ ss) = k ∷ symbols_of ss

-- A session whose thread was started, and one that was told to end.
abbrev pub started_session : Session
started_session = record fresh_session { place = Place.testing }

abbrev pub terminated : Session → Session
terminated s = record s { terminate = true }

-- `Stop` asks the session to end, and its `join` waits until the thread has ended.
infix 40 ◌⟹◌
pub data ◌⟹◌ : Exchange → Exchange → Type 0 where
  subscribes :
      (symbol : Bytes) (w : Exchange)
      → w.task ≡ Task.ready
      → session_of symbol w.sessions ≡ none
      → w ⟹ record w { sessions = (symbol, started_session) ∷ w.sessions }
  unsubscribes :
      (symbol : Bytes) (s : Session) (w : Exchange)
      → w.task ≡ Task.ready
      → session_of symbol w.sessions ≡ some s
      → w ⟹ record {
        sessions = set_session symbol (terminated s) w.sessions;
        task = Task.unsubscribing symbol;
      }
  unsubscribed :
      (symbol : Bytes) (s : Session) (w : Exchange)
      → w.task ≡ Task.unsubscribing symbol
      → session_of symbol w.sessions ≡ some s
      → s.place ≡ Place.finished
      → w ⟹ record { sessions = remove symbol w.sessions; task = Task.ready }
  stops :
      (w : Exchange)
      → w.task ≡ Task.ready
      → w ⟹ record w { task = Task.stopping (symbols_of w.sessions) }
  asks :
      (symbol : Bytes) (symbols : List Bytes) (s : Session) (w : Exchange)
      → w.task ≡ Task.stopping (symbol ∷ symbols)
      → session_of symbol w.sessions ≡ some s
      → w ⟹ record {
        sessions = set_session symbol (terminated s) w.sessions;
        task = Task.joining symbol symbols;
      }
  joins :
      (symbol : Bytes) (symbols : List Bytes) (s : Session) (w : Exchange)
      → w.task ≡ Task.joining symbol symbols
      → session_of symbol w.sessions ≡ some s
      → s.place ≡ Place.finished
      → w ⟹ record w { task = Task.stopping symbols }
  clears :
      (w : Exchange) → w.task ≡ Task.stopping [] → w ⟹ record { sessions = []; task = Task.ready }
  works :
      (symbol : Bytes) (s t : Session) (w : Exchange)
      → session_of symbol w.sessions ≡ some s
      → (e : s ⟶ t) → is_work e ≡ true
      → w ⟹ record w { sessions = set_session symbol t w.sessions }

infix 40 ◌⟹*◌
pub data ◌⟹*◌ : Exchange → Exchange → Type 0 where
  stays : (w : Exchange) → w ⟹* w
  goes_on : {w v u : Exchange} → w ⟹* v → v ⟹ u → w ⟹* u
