-- ===== src/Examples/Publishing.antt =====
-- `publish`.
use cpp_client_rabbit_mq.Common.{
  ◌≡◌, ◌↔◌, ◌∷◌, true, false, refl, is_empty, is_negative, codes, ◌&&◌, if◌then◌else◌,
}
use cpp_client_rabbit_mq.Broker.Act.{returned, aborted}
use cpp_client_rabbit_mq.Broker.Info.{
  MessagePublishInfo, default_property, default_message, default_delivery,
}
use cpp_client_rabbit_mq.Broker.Amqp.{
  content_type_flag, delivery_mode_flag, correlation_id_flag, reply_to_flag, expiration_flag,
  message_id_flag, app_id_flag,
}
use cpp_client_rabbit_mq.Broker.Producer.{publish, publish_call, publish_properties}
use cpp_client_rabbit_mq.Broker.Producer.Publishing.{
  IsAnnounced, has_flag, publish_properties-IsAnnounced, publish_once,
}
use cpp_client_rabbit_mq.Examples.Servers.{accepting, start}

abbrev message : MessagePublishInfo
message = record {
  property = record default_property { app_id = codes "app"; correlation_id = codes "1" };
  message = record default_message { body = codes "new" };
  delivery = default_delivery;
}

-- 1 << 15 | 1 << 12 | 1 << 10 | 1 << 3
message_flags : (publish_properties message).flags ≡ 0x9408
unfolding publish_properties
message_flags = refl

publish_properties-IsAnnounced_example :
    let p = publish_properties message in
    IsAnnounced p.flags content_type_flag p.content_type message.message.content_type
    × IsAnnounced p.flags correlation_id_flag p.correlation_id message.property.correlation_id
    × IsAnnounced p.flags reply_to_flag p.reply_to message.property.reply_to
    × IsAnnounced p.flags expiration_flag p.expiration message.property.expiration
    × IsAnnounced p.flags message_id_flag p.message_id message.message.message_id
    × IsAnnounced p.flags app_id_flag p.app_id message.property.app_id
    × (has_flag p.flags delivery_mode_flag ≡ true)
    × (p.delivery_mode ≡ message.property.delivery_mode)
publish_properties-IsAnnounced_example = publish_properties-IsAnnounced message

publish_once_example :
    let r = publish accepting message start in
    let calls = publish_call start.object message ∷ start.calls in
    let no_key =
      is_empty message.delivery.routing_key && is_empty start.object.info.queue.routing_key in
    ((r.0 ≡ aborted) ↔ (no_key ≡ true))
    × (r.1.calls ≡ (if no_key then start.calls else calls))
    × ((r.0 ≡ returned tt) ↔ (no_key ≡ false) × (is_negative (accepting.status_of calls) ≡ false))
    × (r.1.object ≡ start.object)
publish_once_example = publish_once accepting message start
