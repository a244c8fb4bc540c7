-- ===== src/Examples/Talking.antt =====
-- Two rounds of the client with a server that answers. (src/rpc_client/Main.cpp)
use cpp_client_rabbit_mq.Rpc.Setup.{client_app_id, default_options}
use cpp_client_rabbit_mq.Common.{Bytes, ◌≡◌, refl, some, [], ◌∷◌, codes, pos, bytes_eq, c_string}
use cpp_client_rabbit_mq.Broker.Act.{returned}
use cpp_client_rabbit_mq.Broker.Amqp.{Envelope, Amqp, Call, History, BasicProperties}
use cpp_client_rabbit_mq.Broker.Base.{fresh_broker}
use cpp_client_rabbit_mq.Rpc.Program.{Program}
use cpp_client_rabbit_mq.Rpc.Client.{
  same_text, Memory, call_once, request, wait_for_message, next_message, is_answer,
}
use cpp_client_rabbit_mq.Tools.Decimal.{decimal}
use cpp_client_rabbit_mq.Broker.Errors.{die_on_error}
use cpp_client_rabbit_mq.Broker.Consumer.{read, ack_message}
use cpp_client_rabbit_mq.Broker.Producer.{
  publish_properties, publish, publish_routing_key, publish_call,
}
use cpp_client_rabbit_mq.Rpc.Main.{call_loop}
use cpp_client_rabbit_mq.Rpc.Main.Answered.{AnswersEach, call_loop_total, is_empty-client_app_id}
use cpp_client_rabbit_mq.Rpc.Client.Answers.{IsTerminated}
use cpp_client_rabbit_mq.Rpc.Server.{response}
use cpp_client_rabbit_mq.Rpc.Main.Conversation.{Talks, call_loop-Talks}
use cpp_client_rabbit_mq.Examples.Servers

-- The properties of the last message that was published.
abbrev last_properties : History → BasicProperties
last_properties [] = Servers.request_properties
last_properties (Call.basic_publish c ch e k m i p b ∷ h) = p
last_properties (_ ∷ h) = last_properties h

abbrev echoing : Amqp
echoing = record Servers.accepting {
  delivery_of = λ h. record Servers.request { properties = last_properties h };
}

abbrev terminated : Memory
terminated = record { behind_app_id = λ e. 0 ∷ []; behind_correlation_id = λ e. 0 ∷ [] }

abbrev talker : Program
talker = record {
  consumer = fresh_broker Servers.config;
  producer = fresh_broker Servers.config;
  calls = [];
}

talked :
    (call_loop echoing terminated 1 (pos 0) (codes "key") (codes "app") 2 0 talker).0
    ≡ returned (some tt)
unfolding call_loop call_once publish publish_routing_key request die_on_error wait_for_message
    next_message read ack_message is_answer same_text bytes_eq c_string publish_call decimal
talked = refl

call_loop-Talks_example :
    Talks echoing terminated 1
      (pos 0)
      (codes "key")
      (codes "app")
      2
      0
      talker
      (call_loop echoing terminated 1 (pos 0) (codes "key") (codes "app") 2 0 talker).1
call_loop-Talks_example =
    call_loop-Talks echoing terminated 1 (pos 0) (codes "key") (codes "app") 2 0 talker talked

-- A server that answers the last request.
abbrev asked : History → Envelope
asked h = record Servers.request { properties = last_properties h }

abbrev serving : Amqp
serving = record Servers.accepting {
  delivery_of = λ h. record Servers.request {
    properties = publish_properties (response (pos 0) (codes "task_request") (asked h));
  };
}

serving-AnswersEach : AnswersEach serving (pos 0) (codes "task_request")
serving-AnswersEach = record {
  works = λ h. refl;
  sends = λ h. refl;
  asked_of = asked;
  receives = λ h conn conn' channel exchange key m i properties body. (refl, refl);
}

terminated-IsTerminated : IsTerminated terminated
terminated-IsTerminated = record { app_id = λ e. ([], refl); correlation_id = λ e. ([], refl) }

abbrev name : Bytes
name = client_app_id (codes "rpc-client.7-8") default_options

call_loop_total_example :
    (call_loop serving terminated 1 (pos 0) (codes "key") name 1000 0 talker).0 ≡ returned (some tt)
unfolding c_string
call_loop_total_example =
    call_loop_total serving terminated (pos 0) (pos 0) (codes "task_request") (codes "key") name
      serving-AnswersEach terminated-IsTerminated
      (is_empty-client_app_id (codes "rpc-client.7-8") default_options refl) 0 1000 0 talker refl
