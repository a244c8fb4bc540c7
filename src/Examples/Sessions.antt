-- ===== src/Examples/Sessions.antt =====
-- A symbol that is subscribed and unsubscribed, with its worker. (Modules/Web/ClientExchange.cpp)
use cpp_client_rabbit_mq.Common.{◌≡◌, refl, true, Bytes, [], ◌∷◌, codes, some, none, bytes_eq}
use cpp_client_rabbit_mq.Web.Session.{Session, Place, leave}
use cpp_client_rabbit_mq.Web.Sessions.{
  Task, ready, Exchange, empty_exchange, session_of, set_session, remove, started_session,
  terminated, ◌⟹◌, subscribes, unsubscribes, unsubscribed, works, ◌⟹*◌, stays, goes_on,
}
use cpp_client_rabbit_mq.Web.Sessions.Leaving.{leaves-IsFinished}
use cpp_client_rabbit_mq.Web.Sessions.Returning.{is_stopping, Goes, reachable-returns}

abbrev btc : Bytes
btc = codes "btc"

abbrev opened : Exchange
opened = record empty_exchange { sessions = (btc, started_session) ∷ [] }

abbrev asked : Session
asked = terminated started_session

abbrev waiting : Exchange
waiting = record {
  sessions = set_session btc asked (opened.sessions);
  task = Task.unsubscribing btc;
}

abbrev ended : Session
ended = record asked { place = Place.finished }

abbrev finished : Exchange
finished = record waiting { sessions = set_session btc ended (waiting.sessions) }

abbrev gone : Exchange
gone = record { sessions = remove btc (finished.sessions); task = ready }

opens : empty_exchange ⟹ opened
opens = subscribes btc empty_exchange refl refl

is_opened : session_of btc opened.sessions ≡ some started_session
unfolding bytes_eq
is_opened = refl

is_waiting : session_of btc waiting.sessions ≡ some asked
unfolding bytes_eq
is_waiting = refl

is_ended : session_of btc finished.sessions ≡ some ended
unfolding bytes_eq
is_ended = refl

is_gone : session_of btc gone.sessions ≡ none
unfolding bytes_eq
is_gone = refl

waiting_reached : empty_exchange ⟹* waiting
waiting_reached =
    goes_on (goes_on (stays empty_exchange) opens)
      (unsubscribes btc started_session opened refl is_opened)

finished_reached : empty_exchange ⟹* finished
finished_reached =
    goes_on waiting_reached (works btc asked ended waiting is_waiting (leave asked refl refl) refl)

leaves-IsFinished_example : ended.place ≡ Place.finished
leaves-IsFinished_example =
    leaves-IsFinished btc ended finished_reached
      (unsubscribed btc ended finished refl is_ended refl) is_ended is_gone

reachable-returns_example :
    (v : Exchange) × Goes waiting v
    × (v.task ≡ ready)
    × (is_stopping waiting.task ≡ true → v.sessions ≡ [])
reachable-returns_example = reachable-returns waiting waiting_reached
