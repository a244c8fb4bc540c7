-- ===== src/Broker/Base/Opening.antt =====
-- What the steps of `open` leave behind when they return, and how they can end otherwise.
use cpp_client_rabbit_mq.Common.{
  ℕ, ◌≡◌, ◌≢◌, Option, none, some, [], ◌∷◌, Bytes, c_string, arith, Bool, is_empty, if◌then◌else◌,
}
use cpp_client_rabbit_mq.Broker.Act.{returned, aborted}
use cpp_client_rabbit_mq.Broker.Info.{MessageBrokerInfo, amqp_empty_table}
use cpp_client_rabbit_mq.Broker.Amqp.{Amqp, Call, History}
use cpp_client_rabbit_mq.Broker.Errors.{die_on_amqp_error}
use cpp_client_rabbit_mq.Broker.Base.{
  Session, open_socket, exchange_declare, prepare, prepare_consumer, declare_call, string_of,
  is_some,
}

-- The calls of `open_socket` up to its return, the newest first.
abbrev pub socket_script : Option ℕ → ℕ → MessageBrokerInfo → History → History
socket_script conn socket i calls =
    Call.get_rpc_reply conn
    ∷ Call.channel_open conn i.channel
    ∷ Call.login conn (c_string i.vhost) 0 131072 0 (c_string i.login_user)
        (c_string i.login_password)
    ∷ Call.socket_open socket (c_string i.host) i.port
    ∷ Call.tcp_socket_new conn
    ∷ Call.new_connection
    ∷ calls

abbrev pub exchange_script : Option ℕ → ℕ → MessageBrokerInfo → History → History
exchange_script conn channel i calls =
    Call.get_rpc_reply conn
    ∷ Call.exchange_declare conn channel (c_string i.exchange.name) (c_string i.exchange.type)
        i.exchange.passive i.exchange.durable i.exchange.auto_delete i.exchange.internal
        i.exchange.arguments
    ∷ calls

abbrev pub consumer_script : Option ℕ → MessageBrokerInfo → Bytes → History → History
consumer_script conn i queue calls =
    Call.get_rpc_reply conn
    ∷ Call.basic_consume conn i.channel (c_string queue) (c_string i.consumer.tag)
        i.consumer.no_local i.consumer.no_ack i.consumer.exclusive i.consumer.arguments
    ∷ Call.queue_bind conn i.channel (c_string queue) (c_string i.exchange.name)
        (c_string i.queue.routing_key) amqp_empty_table
    ∷ calls

abbrev pub with_queue_name : MessageBrokerInfo → Bytes → MessageBrokerInfo
with_queue_name i name = record i { queue = record (i.queue) { queue_name = name } }

-- The name that a queue with this configuration has after an answer to its declaration: that of the
-- answer where the configuration has none.
abbrev pub name_in : Option (Option Bytes) → Bytes
name_in none = []
name_in (some name) = string_of name

abbrev pub declared_name : MessageBrokerInfo → Option (Option Bytes) → Bytes
declared_name i answer = if is_empty i.queue.queue_name then name_in answer else i.queue.queue_name

module _ (amqp : Amqp) where
  socket_number : Session → ℕ
  socket_number s =
      elim (amqp.socket_of (
        Call.tcp_socket_new (amqp.connection_of (Call.new_connection ∷ s.calls))
        ∷ Call.new_connection
        ∷ s.calls)) [ none ↦ 0 | some k ↦ k ]

  pub open_socket_returned :
      (s : Session) (n : ℕ)
      → (open_socket amqp s).0 ≡ returned n
      → let t = (open_socket amqp s).1 in
        (socket : ℕ) × (t.object ≡ record (s.object) { conn = t.object.conn; socket = some socket })
        × (t.calls ≡ socket_script t.object.conn socket s.object.info s.calls)
  unfolding open_socket die_on_amqp_error socket_number
  open_socket_returned s n h = (socket_number s, ground arith, ground arith)

  pub open_socket-ne-aborted : (s : Session) → (open_socket amqp s).0 ≢ aborted
  unfolding open_socket die_on_amqp_error
  open_socket-ne-aborted s = ground arith

  pub exchange_declare_returned :
      (s : Session) (i : MessageBrokerInfo)
      → (exchange_declare amqp i s).0 ≡ returned tt
      → ((exchange_declare amqp i s).1.object ≡ s.object)
        × ((exchange_declare amqp i s).1.calls
            ≡ exchange_script s.object.conn s.object.info.channel i s.calls)
  unfolding exchange_declare die_on_amqp_error
  exchange_declare_returned s i h = ground arith

  pub prepare_returned :
      (s : Session) (n : ℕ)
      → (prepare amqp s).0 ≡ returned n
      → let t = (prepare amqp s).1 in
        (t.object ≡ record (s.object) {
          info = with_queue_name s.object.info t.object.info.queue.queue_name;
        })
        × (t.calls
            ≡ Call.get_rpc_reply s.object.conn ∷ declare_call s.object.conn s.object.info ∷ s.calls)
        × (is_empty s.object.info.queue.queue_name ≡ Bool.false → t.object ≡ s.object)
        × (let answer = amqp.queue_of (declare_call s.object.conn s.object.info ∷ s.calls) in
            (is_some answer ≡ Bool.true)
            × (t.object.info.queue.queue_name ≡ declared_name s.object.info answer))
  unfolding prepare die_on_amqp_error
  prepare_returned s n h = ground arith

  pub prepare_consumer_returned :
      (s : Session)
      → (prepare_consumer amqp s).0 ≡ returned tt
      → let t = (prepare_consumer amqp s).1 in
        (t.object ≡ record (s.object) { consume_ok = t.object.consume_ok })
        × (t.calls
            ≡ consumer_script s.object.conn s.object.info s.object.info.queue.queue_name s.calls)
  unfolding prepare_consumer die_on_amqp_error
  prepare_consumer_returned s h = ground arith
