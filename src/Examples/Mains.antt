-- ===== src/Examples/Mains.antt =====
-- Both programs from their command lines.
use cpp_client_rabbit_mq.Common.{
  none, ◌≡◌, refl, Bytes, List, [], ◌∷◌, some, codes, pos, bytes_eq, arith, length, ◌==◌,
  if◌then◌else◌,
}
use cpp_client_rabbit_mq.Broker.Amqp.{Envelope}
use cpp_client_rabbit_mq.Broker.Base.{
  fresh_broker, open_socket, exchange_declare, prepare, prepare_consumer,
}
use cpp_client_rabbit_mq.Broker.Consumer.{open_consumer}
use cpp_client_rabbit_mq.Broker.Errors.{die_on_amqp_error}
use cpp_client_rabbit_mq.Broker.Info.{default_info}
use cpp_client_rabbit_mq.Broker.Producer.{publish_routing_key, publish_properties, open_producer}
use cpp_client_rabbit_mq.Rpc.Program.{Program}
use cpp_client_rabbit_mq.Rpc.Server.{response}
use cpp_client_rabbit_mq.Rpc.Client.{request, Memory}
use cpp_client_rabbit_mq.Rpc.Setup.{
  Options, default_options, server_setup, client_setup, server_consumer_info, client_consumer_info,
}
use cpp_client_rabbit_mq.Rpc.Main.{
  OptionLibrary, with_options, parse_options, helped, refused, server_main, client_main,
}
use cpp_client_rabbit_mq.Rpc.Main.Meeting.{mains_meet}
use cpp_client_rabbit_mq.Examples.Servers

-- A library that reads one argument, `-h` or the name of the exchange.
data Argument : Type 0 where
  nothing help : Argument
  exchange : Bytes → Argument

abbrev one_argument : OptionLibrary
one_argument = record {
  VariablesMap = Argument;
  store = λ description arguments. elim arguments [
    | [] ↦ some nothing
    | a ∷ rest ↦
        if length rest == 0
        then some (if bytes_eq a (codes "-h") then help else exchange a)
        else none
  ];
  notify = λ argument o. elim argument [
    | nothing ↦ o
    | help ↦ o
    | exchange a ↦ record o { exchange_name = a }
  ];
  count = λ argument name. elim argument [ nothing ↦ 0 | help ↦ 1 | exchange a ↦ 0 ];
}

abbrev fresh_program : Program
fresh_program = record {
  consumer = fresh_broker default_info;
  producer = fresh_broker default_info;
  calls = [];
}

abbrev arguments : List Bytes
arguments = codes "jobs" ∷ []

helps :
    server_main Servers.accepting one_argument (codes "-h" ∷ []) 5 fresh_program
    ≡ (helped, fresh_program)
unfolding server_main with_options parse_options bytes_eq
helps = refl

refuses :
    server_main Servers.accepting one_argument (codes "a" ∷ codes "b" ∷ []) 5 fresh_program
    ≡ (refused, fresh_program)
unfolding server_main with_options parse_options
refuses = refl

abbrev jobs : Options
jobs = record default_options { exchange_name = codes "jobs" }

abbrev asked : Envelope
asked = record Servers.request {
  properties =
      publish_properties (request (pos 0) jobs.routing_key_response (codes "app") (codes "1"));
}

abbrev terminated : Memory
terminated = record { behind_app_id = λ e. 0 ∷ []; behind_correlation_id = λ e. 0 ∷ [] }

mains_meet_example :
    let c =
      (client_main Servers.accepting terminated one_argument arguments
        (codes "me")
        2
        3
        fresh_program).1.producer in
    let s = (server_main Servers.accepting one_argument arguments 4 fresh_program).1.producer in
    let question = request (pos 0) jobs.routing_key_response (codes "app") (codes "1") in
    (publish_routing_key c question ≡ (server_consumer_info jobs).queue.routing_key)
    × (c.info.exchange ≡ (server_consumer_info jobs).exchange)
    × (publish_routing_key s (response (pos 0) jobs.routing_key_request asked)
        ≡ (client_consumer_info (codes "me") jobs).queue.routing_key)
    × (s.info.exchange ≡ (client_consumer_info (codes "me") jobs).exchange)
unfolding server_setup client_setup bytes_eq open_consumer open_socket die_on_amqp_error
    exchange_declare prepare server_consumer_info prepare_consumer open_producer
    client_consumer_info
mains_meet_example =
    mains_meet Servers.accepting Servers.accepting terminated one_argument (exchange (codes "jobs"))
      (exchange (codes "jobs")) arguments arguments jobs (codes "me") (codes "app") (codes "1") 4 2
      3 fresh_program fresh_program asked refl refl refl refl refl refl refl refl (ground arith)
      refl refl
