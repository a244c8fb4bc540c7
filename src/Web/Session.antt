-- ===== src/Web/Session.antt =====
-- A session of a web socket: a worker thread that connects and receives until it is told to stop.
-- (include/Web/WebSocketSession.h, Modules/Web/WebSocketSession.cpp)
pub mod Reachable
use cpp_client_rabbit_mq.Common.{
  ◌≡◌, ◌⊎◌, Bool, true, false, Bytes, List, [], ◌∷◌, is_empty, if◌then◌else◌,
}

-- What a session tells its callbacks.
pub data Event : Type 0 where
  message_received : Bytes → Event
  connection_down : Event

-- Where the worker thread is: not started, at the test of `while (!_terminate)`, in the part of
-- `ConnectAndReceive` that connects, at the test of its loop (with `terminating`), in the read of
-- its loop, and behind the loop of the thread.
pub data Place : Type 0 where
  idle testing connecting finished : Place
  receiving reading : (terminating : Bool) → Place

-- `_terminate`, whether there is a stream (`_ws`), the place of the worker, and what the callbacks
-- were told, the newest first.
pub record Session : Type 0 where
  pub terminate : Bool
  pub has_stream : Bool
  pub place : Place
  pub events : List Event

abbrev pub fresh_session : Session
fresh_session = record { terminate = false; has_stream = false; place = Place.idle; events = [] }

-- A system error in the loop, or another exception of it: both set `_terminate`, the connection is
-- told to be down, and the stream is released.
abbrev pub fail_loop : Session → Session
fail_loop s = record s {
  terminate = true;
  has_stream = false;
  place = Place.testing;
  events = Event.connection_down ∷ s.events;
}

-- A message in the buffer; an empty one is passed over.
abbrev pub receive : Bytes → Session → Session
receive message s =
    if is_empty message then s else record s { events = Event.message_received message ∷ s.events }

-- The steps of the worker, and that of the thread that calls `Stop`. What the network answers is
-- not determined: a connection is made or fails, a read gives a message or fails, a close returns
-- or fails.
infix 40 ◌⟶◌ ◌⟶*◌
pub data ◌⟶◌ : Session → Session → Type 0 where
  start : (s : Session) → s.place ≡ Place.idle → s ⟶ record s { place = Place.testing }
  enter :
      (s : Session)
      → s.place ≡ Place.testing
      → s.terminate ≡ false
      → s ⟶ record s { place = Place.connecting; has_stream = true }
  leave :
      (s : Session)
      → s.place ≡ Place.testing
      → s.terminate ≡ true
      → s ⟶ record s { place = Place.finished }
  connected :
      (s : Session) → s.place ≡ Place.connecting → s ⟶ record s { place = Place.receiving false }
  refused :
      (s : Session)
      → s.place ≡ Place.connecting
      → s ⟶ record s {
        place = Place.testing;
        has_stream = false;
        events = Event.connection_down ∷ s.events;
      }
  await :
      (s : Session) (terminating : Bool)
      → s.place ≡ Place.receiving terminating
      → (s.terminate ≡ false) ⊎ (terminating ≡ true)
      → s ⟶ record s { place = Place.reading terminating }
  read :
      (s : Session) (terminating : Bool) (message : Bytes)
      → s.place ≡ Place.reading terminating
      → s ⟶ receive message (record s { place = Place.receiving terminating })
  read_failed :
      (s : Session) (terminating : Bool) → s.place ≡ Place.reading terminating → s ⟶ fail_loop s
  closed :
      (s : Session)
      → s.place ≡ Place.receiving false
      → s.terminate ≡ true
      → s ⟶ record s { place = Place.receiving true }
  close_failed :
      (s : Session) → s.place ≡ Place.receiving false → s.terminate ≡ true → s ⟶ fail_loop s
  stop : (s : Session) → s ⟶ record s { terminate = true }

-- Some steps, one after the other.
pub data ◌⟶*◌ : Session → Session → Type 0 where
  here : (s : Session) → s ⟶* s
  then_step : {s t u : Session} → s ⟶* t → t ⟶ u → s ⟶* u
