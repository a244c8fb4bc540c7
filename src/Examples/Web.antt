-- ===== src/Examples/Web.antt =====
-- A session that fails. (Modules/Web/WebSocketSession.cpp)
use cpp_client_rabbit_mq.Common.{◌≡◌, refl, true}
use cpp_client_rabbit_mq.Web.Session.{
  Session, Place, fresh_session, fail_loop, here, then_step, leave, ◌⟶*◌,
}
use cpp_client_rabbit_mq.Web.Session.Reachable.{IsOver, fail_loop-IsOver}

abbrev testing : Session
testing = record fresh_session { place = Place.testing }

abbrev connecting : Session
connecting = record testing { place = Place.connecting; has_stream = true }

-- The thread of a session that has failed ends.
abbrev ended : Session
ended = record (fail_loop connecting) { place = Place.finished }

ended_reached : fail_loop connecting ⟶* ended
ended_reached = then_step (here (fail_loop connecting)) (leave (fail_loop connecting) refl refl)

fail_loop-IsOver_example : IsOver ended × (ended.events ≡ (fail_loop connecting).events)
fail_loop-IsOver_example = fail_loop-IsOver connecting ended_reached
