-- ===== src/Broker/Amqp.antt =====
-- The AMQP client library as the broker module sees it: the calls that are made, with their
-- arguments, and the answers, which may depend on every call made so far. The library and the
-- server behind it are parameters, and nothing is assumed of their answers here.
-- (Modules/RabbitMQ is a copy of the library rabbitmq-c; its constants are in
-- include/RabbitMQ/rabbitmq-c/framing.h.)
use cpp_client_rabbit_mq.Common.{ℕ, ◌^◌, Bool, Option, List, ℤ, Bytes}
use cpp_client_rabbit_mq.Broker.Info.{AmqpTable}

-- `amqp_basic_properties_t`, the members that the module uses. A member without its flag has no
-- meaning.
pub record BasicProperties : Type 0 where
  pub flags : ℕ
  pub content_type : Bytes
  pub delivery_mode : ℕ
  pub correlation_id : Bytes
  pub reply_to : Bytes
  pub expiration : Bytes
  pub message_id : Bytes
  pub app_id : Bytes

-- AMQP_BASIC_…_FLAG
abbrev pub content_type_flag : ℕ
content_type_flag = 2 ^ 15

abbrev pub delivery_mode_flag : ℕ
delivery_mode_flag = 2 ^ 12

abbrev pub correlation_id_flag : ℕ
correlation_id_flag = 2 ^ 10

abbrev pub reply_to_flag : ℕ
reply_to_flag = 2 ^ 9

abbrev pub expiration_flag : ℕ
expiration_flag = 2 ^ 8

abbrev pub message_id_flag : ℕ
message_id_flag = 2 ^ 7

abbrev pub app_id_flag : ℕ
app_id_flag = 2 ^ 3

-- AMQP_REPLY_SUCCESS
abbrev pub reply_success : ℕ
reply_success = 200

-- AMQP_CONNECTION_CLOSE_METHOD, AMQP_CHANNEL_CLOSE_METHOD
abbrev pub connection_close_method : ℕ
connection_close_method = 0x000A0032

abbrev pub channel_close_method : ℕ
channel_close_method = 0x00140028

-- `amqp_envelope_t`
pub record Envelope : Type 0 where
  pub consumer_tag : Bytes
  pub delivery_tag : ℕ
  pub exchange : Bytes
  pub routing_key : Bytes
  pub properties : BasicProperties
  pub body : Bytes

pub data ResponseType : Type 0 where
  none_response normal library_exception server_exception : ResponseType

-- `amqp_rpc_reply_t`; the code and the text are those of the close method that `reply.decoded`
-- points to.
pub record RpcReply : Type 0 where
  pub reply_type : ResponseType
  pub reply_id : ℕ
  pub reply_code : ℕ
  pub reply_text : Bytes
  pub library_error : ℤ

-- A pointer to a connection or a socket is a number, and null is `none`. A C string is given as
-- the characters in front of its NUL.
pub data Call : Type 0 where
  new_connection : Call
  tcp_socket_new : Option ℕ → Call
  socket_open : (socket : ℕ) (host : Bytes) (port : ℤ) → Call
  login :
      (conn : Option ℕ) (vhost : Bytes) (channel_max frame_max heartbeat : ℕ)
      (user password : Bytes)
      → Call
  channel_open : (conn : Option ℕ) (channel : ℕ) → Call
  get_rpc_reply : (conn : Option ℕ) → Call
  exchange_declare :
      (conn : Option ℕ) (channel : ℕ) (exchange type : Bytes)
      (passive durable auto_delete internal : Bool) (arguments : AmqpTable)
      → Call
  queue_declare :
      (conn : Option ℕ) (channel : ℕ) (queue : Bytes) (passive durable exclusive auto_delete : Bool)
      (arguments : AmqpTable)
      → Call
  queue_bind :
      (conn : Option ℕ) (channel : ℕ) (queue exchange routing_key : Bytes) (arguments : AmqpTable)
      → Call
  basic_consume :
      (conn : Option ℕ) (channel : ℕ) (queue tag : Bytes) (no_local no_ack exclusive : Bool)
      (arguments : AmqpTable)
      → Call
  maybe_release_buffers : (conn : Option ℕ) → Call
  consume_message : (conn : Option ℕ) → Call
  basic_ack : (conn : Option ℕ) (channel delivery_tag : ℕ) (multiple : Bool) → Call
  basic_publish :
      (conn : Option ℕ) (channel : ℕ) (exchange routing_key : Bytes) (mandatory immediate : Bool)
      (properties : BasicProperties) (body : Bytes)
      → Call
  channel_close : (conn : Option ℕ) (channel code : ℕ) → Call
  connection_close : (conn : Option ℕ) (code : ℕ) → Call
  destroy_connection : (conn : Option ℕ) → Call

-- The calls so far, the newest first.
abbrev pub History : Type 0
History = List Call

-- What the library answers to the newest call of a history. `queue_declare` gives the name of the
-- queue, whose `bytes` may be null, behind a pointer that may be null.
pub record Amqp : Type 0 where
  pub connection_of : History → Option ℕ
  pub socket_of : History → Option ℕ
  pub status_of : History → ℤ
  pub reply_of : History → RpcReply
  pub queue_of : History → Option (Option Bytes)
  pub consumer_of : History → Option Bytes
  pub delivery_of : History → Envelope
