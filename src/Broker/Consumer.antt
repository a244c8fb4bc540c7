-- ===== src/Broker/Consumer.antt =====
-- The client that reads from a queue.
-- (include/Broker/MessageBrokerConsumer.hpp, Modules/Broker/MessageBrokerConsumer.cpp)
pub mod Opening
pub mod Ends
pub mod Total
pub mod Lifecycle
use cpp_client_rabbit_mq.Common.{false, Option, none, some}
use cpp_client_rabbit_mq.Broker.Act.{Act, pure, deref, ◌>>=◌, ◌>>◌}
use cpp_client_rabbit_mq.Broker.Info.{MessageBrokerInfo}
use cpp_client_rabbit_mq.Broker.Amqp.{
  Amqp, Call, Envelope, ResponseType, none_response, normal, library_exception, server_exception,
}
use cpp_client_rabbit_mq.Broker.Base.{
  Session, invoke, run, this, set_info, open_socket, exchange_declare, prepare, prepare_consumer,
}

module _ (amqp : Amqp) where
  unfoldable pub open_consumer : MessageBrokerInfo → Act Session (Unit {0})
  open_consumer info = do
    set_info info
    open_socket amqp
    exchange_declare amqp info
    prepare amqp
    prepare_consumer amqp

  -- if (AMQP_RESPONSE_NORMAL != res.reply_type) return NULL
  abbrev wrap : ResponseType → Envelope → Option Envelope
  wrap normal e = some e
  wrap none_response e = none
  wrap library_exception e = none
  wrap server_exception e = none

  unfoldable pub read : Act Session (Option Envelope)
  read = do
    b ← this
    run (Call.maybe_release_buffers b.conn)
    res ← invoke (Call.consume_message b.conn) (amqp.reply_of)
    envelope ← (λ s. pure (amqp.delivery_of s.calls) s)
    pure (wrap res.reply_type envelope)

  -- The wrapper is a pointer that may be null.
  unfoldable pub ack_message : Option Envelope → Act Session (Unit {0})
  ack_message wrapper = do
    b ← this
    envelope ← deref wrapper
    run (Call.basic_ack b.conn b.info.channel envelope.delivery_tag false)
