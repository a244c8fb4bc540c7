-- ===== src/Examples/Opening.antt =====
-- `open` and the destructor.
use cpp_client_rabbit_mq.Common.{ℕ, ◌≡◌, refl, some, true, codes}
use cpp_client_rabbit_mq.Broker.Act.{returned, open_socket as open_error}
use cpp_client_rabbit_mq.Broker.Act.Ends.{Ends}
use cpp_client_rabbit_mq.Broker.Errors.{die_on_amqp_error, die_on_error}
use cpp_client_rabbit_mq.Broker.Base.{
  Session, open_socket, exchange_declare, prepare, prepare_consumer, destroy, is_some,
}
use cpp_client_rabbit_mq.Broker.Base.Opening.{with_queue_name, declared_name}
use cpp_client_rabbit_mq.Broker.Consumer.{open_consumer}
use cpp_client_rabbit_mq.Broker.Consumer.Opening.{
  open_consumer_returned, open_script, declared_script,
}
use cpp_client_rabbit_mq.Broker.Consumer.Ends.{
  AnswersDeclaration, HasConnectionOnly, open_consumer-Ends,
}
use cpp_client_rabbit_mq.Broker.Consumer.Total.{IsAccepting, open_consumer_total}
use cpp_client_rabbit_mq.Broker.Producer.{open_producer}
use cpp_client_rabbit_mq.Examples.Servers.{accepting, config, start}

accepting-IsAccepting : IsAccepting accepting
accepting-IsAccepting = record {
  gives_socket = λ h e. cc;
  gives_status = λ h. refl;
  gives_reply = λ h. refl;
  gives_queue = λ h e. cc;
}

accepting_answers : AnswersDeclaration accepting
accepting_answers conn i h e p = cc

open_consumer_total_example : (open_consumer accepting config start).0 ≡ returned tt
open_consumer_total_example = open_consumer_total accepting accepting-IsAccepting config start

open_consumer-Ends_example :
    let r = open_consumer accepting config start in
    Ends (λ _ t. is_some t.object.socket ≡ true) (HasConnectionOnly accepting start.calls) r.0 r.1
open_consumer-Ends_example = open_consumer-Ends accepting accepting_answers config start refl

open_consumer_returned_example :
    let t = (open_consumer accepting config start).1 in
    (socket : ℕ) × (t.object.socket ≡ some socket)
    × (t.calls ≡ open_script t.object socket config start.calls)
    × (let answer = accepting.queue_of (declared_script t.object socket config start.calls) in
        (is_some answer ≡ true)
        × (t.object.info ≡ with_queue_name config (declared_name config answer)))
open_consumer_returned_example =
    open_consumer_returned accepting config start open_consumer_total_example

-- The server's name for the queue is kept.
open_consumer_queue :
    (open_consumer accepting config start).1.object.info.queue.queue_name ≡ codes "amq.gen-1"
unfolding open_consumer open_socket exchange_declare prepare prepare_consumer die_on_amqp_error
open_consumer_queue = refl

abbrev opened : Session
opened = record start { object = record (start.object) { conn = some 10; socket = some 20 } }

destroyed : (destroy accepting opened).0 ≡ returned tt
unfolding destroy die_on_amqp_error die_on_error
destroyed = refl

producer_opens : (open_producer accepting config start).0 ≡ returned tt
unfolding open_producer open_socket exchange_declare die_on_amqp_error
producer_opens = refl
