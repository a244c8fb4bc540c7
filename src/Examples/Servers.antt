-- ===== src/Examples/Servers.antt =====
-- Two libraries with their servers: one accepts what it is asked, one refuses the connection.
use cpp_client_rabbit_mq.Common.{some, [], codes, pos, negsuc}
use cpp_client_rabbit_mq.Broker.Info.{
  MessageBrokerInfo, ExchangeInfo, default_info, default_exchange, default_queue,
}
use cpp_client_rabbit_mq.Broker.Amqp.{Amqp, RpcReply, BasicProperties, Envelope, ResponseType}
use cpp_client_rabbit_mq.Broker.Base.{Session, fresh_broker}

abbrev pub normal_reply : RpcReply
normal_reply = record {
  reply_type = ResponseType.normal;
  reply_id = 0;
  reply_code = 0;
  reply_text = [];
  library_error = pos 0;
}

abbrev pub request_properties : BasicProperties
request_properties = record {
  flags = 0x9608;
  content_type = codes "text/plain";
  delivery_mode = 2;
  correlation_id = codes "1";
  reply_to = codes "task_response";
  expiration = [];
  message_id = [];
  app_id = codes "app";
}

abbrev pub request : Envelope
request = record {
  consumer_tag = codes "tag";
  delivery_tag = 7;
  exchange = codes "business";
  routing_key = codes "task_request";
  properties = request_properties;
  body = codes "new";
}

abbrev pub accepting : Amqp
accepting = record {
  connection_of = λ h. some 10;
  socket_of = λ h. some 20;
  status_of = λ h. pos 0;
  reply_of = λ h. normal_reply;
  queue_of = λ h. some (some (codes "amq.gen-1"));
  consumer_of = λ h. some (codes "tag");
  delivery_of = λ h. request;
}

-- Nothing listens on the port.
abbrev pub refusing : Amqp
refusing = record accepting { status_of = λ h. negsuc 8 }

abbrev pub business : ExchangeInfo
business = record default_exchange { type = codes "topic"; name = codes "business" }

abbrev pub config : MessageBrokerInfo
config = record default_info {
  exchange = business;
  queue = record default_queue { routing_key = codes "task_request" };
}

abbrev pub start : Session
start = record { object = fresh_broker default_info; calls = [] }
