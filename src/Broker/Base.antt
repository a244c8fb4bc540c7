-- ===== src/Broker/Base.antt =====
-- The state of a client and the steps that both kinds of client share.
-- (include/Broker/MessageBrokerBase.hpp, Modules/Broker/MessageBrokerBase.cpp)
pub mod Opening
pub mod Closing
use cpp_client_rabbit_mq.Common.{
  ℕ, Bool, true, false, Option, none, some, [], ◌∷◌, String, Bytes, c_string, is_empty, is_zero,
  if◌then◌else◌,
}
use cpp_client_rabbit_mq.Broker.Act.{
  Act, Outcome, returned, threw, create_socket, pure, finish, deref, assert, ◌>>=◌, ◌>>◌,
}
use cpp_client_rabbit_mq.Broker.Act
use cpp_client_rabbit_mq.Broker.Info.{MessageBrokerInfo, TypeConnectQueue, amqp_empty_table}
use cpp_client_rabbit_mq.Broker.Amqp.{Amqp, Call, History, reply_success}
use cpp_client_rabbit_mq.Broker.Errors.{die_on_error, die_on_amqp_error}

-- The members of `MessageBrokerBase`. Of the answer that `consume_ok_` points to, the tag is kept.
pub record MessageBroker : Type 0 where
  pub info : MessageBrokerInfo
  pub conn : Option ℕ
  pub socket : Option ℕ
  pub consume_ok : Option Bytes
  pub connect_type : TypeConnectQueue

-- A client, and the calls that the program has made of the library.
pub record Session : Type 0 where
  pub object : MessageBroker
  pub calls : History

-- Makes a call and takes its answer.
abbrev pub invoke : {R : Type 0} → Call → (History → R) → Act Session R
invoke c answer s = (returned (answer (c ∷ s.calls)), record s { calls = c ∷ s.calls })

-- Makes a call and drops its answer.
abbrev pub run : Call → Act Session (Unit {0})
run c s = (returned tt, record s { calls = c ∷ s.calls })

-- Reads the client.
abbrev pub this : Act Session MessageBroker
this s = (returned s.object, s)

abbrev pub set_info : MessageBrokerInfo → Act Session (Unit {0})
set_info i s = (returned tt, record s { object = record (s.object) { info = i } })

abbrev pub set_conn : Option ℕ → Act Session (Unit {0})
set_conn c s = (returned tt, record s { object = record (s.object) { conn = c } })

abbrev pub set_socket : Option ℕ → Act Session (Unit {0})
set_socket c s = (returned tt, record s { object = record (s.object) { socket = c } })

abbrev pub set_consume_ok : Option Bytes → Act Session (Unit {0})
set_consume_ok c s = (returned tt, record s { object = record (s.object) { consume_ok = c } })

abbrev pub set_queue_name : Bytes → Act Session (Unit {0})
set_queue_name n s =
    let info = s.object.info in
    set_info (record info { queue = record (info.queue) { queue_name = n } }) s

abbrev pub is_some : {A : Type 0} → Option A → Bool
is_some none = false
is_some (some a) = true

-- if (!ptr) throw e
abbrev not_null : {A : Type 0} → Option A → Act.BrokerException → Act Session A
not_null none e s = (threw e, s)
not_null (some a) e s = (returned a, s)

-- What a default-constructed client holds.
abbrev pub fresh_broker : MessageBrokerInfo → MessageBroker
fresh_broker i = record {
  info = i;
  conn = none;
  socket = none;
  consume_ok = none;
  connect_type = TypeConnectQueue.connect_nothing;
}

-- The name and the flags that `prepare` declares the queue with: a queue with no name is
-- exclusive, and its other flags are not those of the configuration.
pub declare_call : Option ℕ → MessageBrokerInfo → Call
declare_call conn i =
    let q = i.queue in
    if is_empty q.queue_name
    then Call.queue_declare conn i.channel [] false false true false q.arguments
    else Call.queue_declare conn i.channel (c_string q.queue_name) q.passive q.durable q.exclusive
        q.auto_delete q.arguments

-- std::string((char*)result->queue.bytes, result->queue.len); null comes with the length 0
abbrev pub string_of : Option Bytes → Bytes
string_of none = []
string_of (some s) = s

module _ (amqp : Amqp) where
  -- die_on_amqp_error(amqp_get_rpc_reply(conn_), context)
  abbrev pub check_rpc_reply : String → Act Session (Unit {0})
  check_rpc_reply context = do
    b ← this
    reply ← invoke (Call.get_rpc_reply b.conn) (amqp.reply_of)
    finish (die_on_amqp_error reply context)

  unfoldable pub open_socket : Act Session ℕ
  open_socket = do
    conn ← invoke Call.new_connection (amqp.connection_of)
    set_conn conn
    found ← invoke (Call.tcp_socket_new conn) (amqp.socket_of)
    socket ← not_null found create_socket
    b ← this
    status ← invoke (Call.socket_open socket (c_string b.info.host) b.info.port) (amqp.status_of)
    if is_zero status then pure tt else finish (threw Act.open_socket)
    set_socket (some socket)
    reply ←
        invoke
          (Call.login b.conn (c_string b.info.vhost) 0 131072 0 (c_string b.info.login_user)
            (c_string b.info.login_password))
          (amqp.reply_of)
    finish (die_on_amqp_error reply "Logging in")
    run (Call.channel_open b.conn b.info.channel)
    check_rpc_reply "Opening channel"
    pure 0

  -- The exchange is that of the argument, the channel that of the client's own `info_`.
  unfoldable pub exchange_declare : MessageBrokerInfo → Act Session (Unit {0})
  exchange_declare i = do
    b ← this
    assert (is_some b.socket)
    let e = i.exchange
    run (
        Call.exchange_declare b.conn b.info.channel (c_string e.name) (c_string e.type) e.passive
          e.durable e.auto_delete e.internal e.arguments)
    check_rpc_reply "Declaring exchange"

  unfoldable pub prepare : Act Session ℕ
  unfolding declare_call
  prepare = do
    b ← this
    assert (is_some b.socket)
    result ← invoke (declare_call b.conn b.info) (amqp.queue_of)
    check_rpc_reply "Declaring queue"
    if is_empty b.info.queue.queue_name
        then (do queue ← deref result; set_queue_name (string_of queue))
        else pure tt
    queue ← deref result
    pure (if is_some queue then 0 else 1)

  unfoldable pub prepare_consumer : Act Session (Unit {0})
  prepare_consumer = do
    b ← this
    let queuename = c_string b.info.queue.queue_name
    let consumer_tag = c_string b.info.consumer.tag
    let channel = b.info.channel
    run (
        Call.queue_bind b.conn channel queuename (c_string b.info.exchange.name)
          (c_string b.info.queue.routing_key) amqp_empty_table)
    ok ←
        invoke
          (Call.basic_consume b.conn channel queuename consumer_tag b.info.consumer.no_local
            b.info.consumer.no_ack b.info.consumer.exclusive b.info.consumer.arguments)
          (amqp.consumer_of)
    set_consume_ok ok
    check_rpc_reply "Consuming"

  -- The body of `if( socket_ != nullptr )`: channel 1 is closed, whatever channel was opened.
  close_socket : Option ℕ → Act Session (Unit {0})
  close_socket none = pure tt
  close_socket (some socket) = do
    b ← this
    closed ← invoke (Call.channel_close b.conn 1 reply_success) (amqp.reply_of)
    finish (die_on_amqp_error closed "Closing channel")
    ended ← invoke (Call.connection_close b.conn reply_success) (amqp.reply_of)
    finish (die_on_amqp_error ended "Closing connection")

  -- The body of `if( conn_ != nullptr )`.
  end_connection : Option ℕ → Act Session (Unit {0})
  end_connection none = pure tt
  end_connection (some conn) = do
    status ← invoke (Call.destroy_connection (some conn)) (amqp.status_of)
    finish (die_on_error status "Ending connection")

  -- ~MessageBrokerBase()
  unfoldable pub destroy : Act Session (Unit {0})
  unfolding close_socket end_connection
  destroy = do
    b ← this
    close_socket b.socket
    end_connection b.conn
    set_conn none
    set_socket none
