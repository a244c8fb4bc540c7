-- ===== src/Broker/Info.antt =====
-- The records that configure a client and a message.
-- (include/Broker/MessageBrokerInfo.h, include/Broker/QueueProperties.h)
use cpp_client_rabbit_mq.Common.{ℤ, pos, ℕ, Bool, false, Option, none, [], Bytes, codes}

-- `amqp_table_t` of the library: a count, and a pointer that may be null.
pub record AmqpTable : Type 0 where
  pub num_entries : ℕ
  pub entries : Option ℕ

abbrev pub amqp_empty_table : AmqpTable
amqp_empty_table = record { num_entries = 0; entries = none }

pub record ExchangeInfo : Type 0 where
  pub type : Bytes
  pub name : Bytes
  pub passive : Bool
  pub durable : Bool
  pub auto_delete : Bool
  pub internal : Bool
  pub arguments : AmqpTable

pub record QueueInfo : Type 0 where
  pub routing_key : Bytes
  pub queue_name : Bytes
  pub passive : Bool
  pub durable : Bool
  pub auto_delete : Bool
  pub exclusive : Bool
  pub arguments : AmqpTable

pub record ConsumerInfo : Type 0 where
  pub tag : Bytes
  pub no_local : Bool
  pub no_ack : Bool
  pub exclusive : Bool
  pub arguments : AmqpTable

pub record MessageBrokerInfo : Type 0 where
  pub host : Bytes
  pub port : ℤ
  pub login_user : Bytes
  pub login_password : Bytes
  pub vhost : Bytes
  pub channel : ℕ
  pub exchange : ExchangeInfo
  pub queue : QueueInfo
  pub consumer : ConsumerInfo

-- The values of the members' initializers.
abbrev pub default_exchange : ExchangeInfo
default_exchange = record {
  type = [];
  name = [];
  passive = false;
  durable = false;
  auto_delete = false;
  internal = false;
  arguments = amqp_empty_table;
}

abbrev pub default_queue : QueueInfo
default_queue = record {
  routing_key = [];
  queue_name = [];
  passive = false;
  durable = false;
  auto_delete = false;
  exclusive = false;
  arguments = amqp_empty_table;
}

abbrev pub default_consumer : ConsumerInfo
default_consumer = record {
  tag = [];
  no_local = false;
  no_ack = false;
  exclusive = false;
  arguments = amqp_empty_table;
}

abbrev pub default_info : MessageBrokerInfo
default_info = record {
  host = codes "localhost";
  port = pos 5672;
  login_user = codes "guest";
  login_password = codes "guest";
  vhost = codes "/";
  channel = 1;
  exchange = default_exchange;
  queue = default_queue;
  consumer = default_consumer;
}

pub record PublishProperty : Type 0 where
  pub delivery_mode : ℕ
  pub reply_to : Bytes
  pub app_id : Bytes
  pub correlation_id : Bytes
  pub expiration : Bytes

pub record PublishMessage : Type 0 where
  pub message_id : Bytes
  pub content_type : Bytes
  pub body : Bytes

pub record PublishDelivery : Type 0 where
  pub mandatory : Bool
  pub immediate : Bool
  pub routing_key : Bytes

pub record MessagePublishInfo : Type 0 where
  pub property : PublishProperty
  pub message : PublishMessage
  pub delivery : PublishDelivery

-- `AMQP_DELIVERY_PERSISTENT` is 2.
abbrev pub default_property : PublishProperty
default_property = record {
  delivery_mode = 2;
  reply_to = [];
  app_id = [];
  correlation_id = [];
  expiration = [];
}

abbrev pub default_message : PublishMessage
default_message = record { message_id = []; content_type = codes "text/plain"; body = [] }

abbrev pub default_delivery : PublishDelivery
default_delivery = record { mandatory = false; immediate = false; routing_key = [] }

pub data TypeConnectQueue : Type 0 where
  connect_nothing connect_read connect_write connect_read_write : TypeConnectQueue
