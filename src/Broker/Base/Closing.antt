-- ===== src/Broker/Base/Closing.antt =====
-- The destructor.
use cpp_client_rabbit_mq.Common.{ℕ, ◌≡◌, Option, none, some, ◌∷◌, arith}
use cpp_client_rabbit_mq.Broker.Act.{returned}
use cpp_client_rabbit_mq.Broker.Amqp.{Amqp, Call, History, reply_success}
use cpp_client_rabbit_mq.Broker.Errors.{die_on_amqp_error, die_on_error}
use cpp_client_rabbit_mq.Broker.Base.{Session, MessageBroker, destroy}

-- The calls of a destructor that ends, by what the client holds.
abbrev socket_part : Option ℕ → Option ℕ → History → History
socket_part none conn calls = calls
socket_part (some k) conn calls =
    Call.connection_close conn reply_success ∷ Call.channel_close conn 1 reply_success ∷ calls

abbrev pub conn_part : Option ℕ → History → History
conn_part none calls = calls
conn_part (some c) calls = Call.destroy_connection (some c) ∷ calls

abbrev pub close_script : MessageBroker → History → History
close_script b calls = conn_part b.conn (socket_part b.socket b.conn calls)

module _ (amqp : Amqp) where
  -- A destructor that ends has closed channel 1 (not the configured one) and the connection, if
  -- there was a socket, and has then freed the connection, if there was one. It leaves neither.
  pub destroy_returned :
      (s : Session)
      → (destroy amqp s).0 ≡ returned tt
      → let t = (destroy amqp s).1 in
        (t.object ≡ record (s.object) { conn = none; socket = none })
        × (t.calls ≡ close_script s.object s.calls)
  unfolding destroy die_on_amqp_error die_on_error
  destroy_returned s h = ground arith

  -- With no socket nothing is closed, and a connection is freed once.
  pub destroy_no_socket :
      (s : Session)
      → s.object.socket ≡ none
      → (destroy amqp s).1.calls ≡ conn_part s.object.conn s.calls
  unfolding destroy die_on_error
  destroy_no_socket s h = ground arith
