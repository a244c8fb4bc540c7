-- ===== src/Broker/Producer.antt =====
-- The client that publishes to an exchange.
-- (include/Broker/MessageBrokerProducer.hpp, Modules/Broker/MessageBrokerProducer.cpp)
pub mod Opening
pub mod Publishing
use cpp_client_rabbit_mq.Common.{ℕ, Bytes, [], not, bit_or, c_string, is_empty, if◌then◌else◌}
use cpp_client_rabbit_mq.Broker.Act.{Act, finish, assert, ◌>>=◌, ◌>>◌}
use cpp_client_rabbit_mq.Broker.Info.{MessageBrokerInfo, MessagePublishInfo}
use cpp_client_rabbit_mq.Broker.Amqp.{
  Amqp, Call, BasicProperties, content_type_flag, delivery_mode_flag, correlation_id_flag,
  reply_to_flag, expiration_flag, message_id_flag, app_id_flag,
}
use cpp_client_rabbit_mq.Broker.Errors.{die_on_error}
use cpp_client_rabbit_mq.Broker.Base.{
  Session, MessageBroker, invoke, this, set_info, open_socket, exchange_declare,
}

module _ (amqp : Amqp) where
  unfoldable pub open_producer : MessageBrokerInfo → Act Session (Unit {0})
  open_producer info = do set_info info; open_socket amqp; exchange_declare amqp info

-- props._flags |= flag, where the text is not empty
abbrev with_flag : ℕ → Bytes → ℕ → ℕ
with_flag flag text flags = if is_empty text then flags else bit_or flags flag

-- A member of the properties: set where the text is not empty. The others have no value in the
-- source, and no flag; they are empty here.
abbrev member : Bytes → Bytes
member text = if is_empty text then [] else c_string text

-- The properties that `publish` fills in, one member after the other.
unfoldable pub publish_properties : MessagePublishInfo → BasicProperties
publish_properties info =
    let p = info.property in
    let m = info.message in
    record {
      flags = with_flag message_id_flag m.message_id (
          with_flag expiration_flag p.expiration (
            with_flag correlation_id_flag p.correlation_id (
              with_flag reply_to_flag p.reply_to (
                with_flag app_id_flag p.app_id
                  (with_flag content_type_flag m.content_type delivery_mode_flag)))));
      content_type = member m.content_type;
      delivery_mode = p.delivery_mode;
      correlation_id = member p.correlation_id;
      reply_to = member p.reply_to;
      expiration = member p.expiration;
      message_id = member m.message_id;
      app_id = member p.app_id;
    }

-- The key of the message, or that of the configuration.
unfoldable pub publish_routing_key : MessageBroker → MessagePublishInfo → Bytes
publish_routing_key b info =
    if is_empty info.delivery.routing_key
    then b.info.queue.routing_key
    else info.delivery.routing_key

-- The arguments of `amqp_basic_publish`.
unfoldable pub publish_call : MessageBroker → MessagePublishInfo → Call
unfolding publish_properties publish_routing_key
publish_call b info =
    Call.basic_publish b.conn b.info.channel (c_string b.info.exchange.name)
      (c_string (publish_routing_key b info)) info.delivery.mandatory info.delivery.immediate
      (publish_properties info) (c_string info.message.body)

module _ (amqp : Amqp) where
  unfoldable pub publish : MessagePublishInfo → Act Session (Unit {0})
  publish info = do
    b ← this
    assert (not (is_empty (publish_routing_key b info)))
    status ← invoke (publish_call b info) (amqp.status_of)
    finish (die_on_error status "Publishing")
