-- ===== src/Rpc/Setup.antt =====
-- What the two programs make of their options. (src/rpc_server/Main.cpp, src/rpc_client/Main.cpp)
pub mod Routing
use cpp_client_rabbit_mq.Common.{ℕ, true, Bytes, [], ◌++◌, codes, is_empty, ℤ, pos, if◌then◌else◌}
use cpp_client_rabbit_mq.Broker.Act.{Act, ◌>>=◌, ◌>>◌}
use cpp_client_rabbit_mq.Broker.Amqp.{Amqp}
use cpp_client_rabbit_mq.Broker.Info.{
  MessageBrokerInfo, ExchangeInfo, default_info, default_exchange, default_queue, default_consumer,
}
use cpp_client_rabbit_mq.Broker.Consumer.{open_consumer}
use cpp_client_rabbit_mq.Broker.Producer.{open_producer}
use cpp_client_rabbit_mq.Rpc.Program.{Program, on_consumer, on_producer}

-- The variables of `main` that the options of the command line set.
pub record Options : Type 0 where
  pub hostname : Bytes
  pub port : ℤ
  pub exchange_type : Bytes
  pub exchange_name : Bytes
  pub routing_key_request : Bytes
  pub routing_key_response : Bytes
  pub consumer_queue_name : Bytes
  pub ttl_expires : ℤ

abbrev pub default_options : Options
default_options = record {
  hostname = codes "localhost";
  port = pos 5672;
  exchange_type = codes "topic";
  exchange_name = codes "business";
  routing_key_request = codes "task_request";
  routing_key_response = codes "task_response";
  consumer_queue_name = [];
  ttl_expires = pos 0;
}

-- The exchange that all four clients declare.
abbrev exchange_of : Options → ExchangeInfo
exchange_of o = record default_exchange {
  type = o.exchange_type;
  name = o.exchange_name;
  durable = true;
}

-- ssAppID of the server
abbrev server_app_id : Options → Bytes
server_app_id o =
    if is_empty o.consumer_queue_name then codes "rpc-server.1" else o.consumer_queue_name

unfoldable pub server_consumer_info : Options → MessageBrokerInfo
server_consumer_info o = record default_info {
  host = o.hostname;
  port = o.port;
  exchange = exchange_of o;
  queue = record default_queue {
    routing_key = o.routing_key_request;
    queue_name = o.consumer_queue_name;
    durable = true;
  };
  consumer = record default_consumer { tag = server_app_id o };
}

unfoldable pub server_producer_info : Options → MessageBrokerInfo
server_producer_info o = record default_info {
  host = o.hostname;
  port = o.port;
  exchange = exchange_of o;
  queue = record default_queue {
    routing_key = o.routing_key_response;
    queue_name = o.consumer_queue_name;
    durable = true;
  };
}

-- ssAppID of the client: the text `own`, "rpc-client.<process>-<thread>", is written first in both
-- cases.
abbrev pub client_app_id : (own : Bytes) → Options → Bytes
client_app_id own o = own ++ (if is_empty o.consumer_queue_name then own else o.consumer_queue_name)

unfoldable pub client_consumer_info : (own : Bytes) → Options → MessageBrokerInfo
client_consumer_info own o = record default_info {
  host = o.hostname;
  port = o.port;
  exchange = exchange_of o;
  queue = record default_queue {
    routing_key = o.routing_key_response;
    queue_name = o.consumer_queue_name;
    durable = true;
  };
  consumer = record default_consumer { tag = client_app_id own o };
}

unfoldable pub client_producer_info : Options → MessageBrokerInfo
client_producer_info o = record default_info {
  host = o.hostname;
  port = o.port;
  exchange = exchange_of o;
  queue = record default_queue { routing_key = o.routing_key_request };
}

-- The part of each `main` in front of its loop.
unfoldable pub server_setup : Amqp → Options → Act Program (Unit {0})
server_setup amqp o = do
  on_consumer (open_consumer amqp (server_consumer_info o))
  on_producer (open_producer amqp (server_producer_info o))

unfoldable pub client_setup : Amqp → (own : Bytes) → Options → Act Program (Unit {0})
client_setup amqp own o = do
  on_consumer (open_consumer amqp (client_consumer_info own o))
  on_producer (open_producer amqp (client_producer_info o))
