-- ===== src/Broker/Producer/Publishing.antt =====
-- What `MessageBrokerProducer::publish` sends, on every branch.
use cpp_client_rabbit_mq.Common.{
  ℕ, ◌≡◌, ◌↔◌, ◌∷◌, Bool, true, false, ◌&&◌, not, Bytes, arith, ◌==◌, bit_and, c_string, is_empty,
  is_negative, if◌then◌else◌,
}
use cpp_client_rabbit_mq.Broker.Act.{returned, aborted}
use cpp_client_rabbit_mq.Broker.Info.{MessagePublishInfo}
use cpp_client_rabbit_mq.Broker.Errors.{die_on_error}
use cpp_client_rabbit_mq.Broker.Amqp.{
  Amqp, content_type_flag, delivery_mode_flag, correlation_id_flag, reply_to_flag, expiration_flag,
  message_id_flag, app_id_flag,
}
use cpp_client_rabbit_mq.Broker.Base.{Session}
use cpp_client_rabbit_mq.Broker.Producer.{
  publish, publish_call, publish_properties, publish_routing_key,
}

-- `flags & flag`, as a test.
abbrev pub has_flag : ℕ → ℕ → Bool
has_flag flags flag = not (bit_and flags flag == 0)

-- The flag tells whether the text is there, and the member is the text up to its first NUL.
abbrev pub IsAnnounced : ℕ → ℕ → Bytes → Bytes → Type 0
IsAnnounced flags flag member text =
    (has_flag flags flag ≡ not (is_empty text)) × (member ≡ c_string text)

-- Each optional member of the properties is flagged exactly when its text is not empty, and holds
-- the text up to its first NUL, whichever of the others are there. The delivery mode always goes
-- with its flag.
pub publish_properties-IsAnnounced :
    (m : MessagePublishInfo)
    → let p = publish_properties m in
      IsAnnounced p.flags content_type_flag p.content_type m.message.content_type
      × IsAnnounced p.flags correlation_id_flag p.correlation_id m.property.correlation_id
      × IsAnnounced p.flags reply_to_flag p.reply_to m.property.reply_to
      × IsAnnounced p.flags expiration_flag p.expiration m.property.expiration
      × IsAnnounced p.flags message_id_flag p.message_id m.message.message_id
      × IsAnnounced p.flags app_id_flag p.app_id m.property.app_id
      × (has_flag p.flags delivery_mode_flag ≡ true)
      × (p.delivery_mode ≡ m.property.delivery_mode)
unfolding publish_properties c_string
publish_properties-IsAnnounced m = ground arith

module _ (amqp : Amqp) where
  -- `publish` fails its assertion, and sends nothing, exactly when neither the message nor the
  -- configuration has a routing key. Otherwise it makes one call, with the arguments of
  -- `publish_call`, and returns exactly when the status is not negative. It never changes the
  -- client.
  pub publish_once :
      (m : MessagePublishInfo) (s : Session)
      → let r = publish amqp m s in
        let calls = publish_call s.object m ∷ s.calls in
        let no_key = is_empty m.delivery.routing_key && is_empty s.object.info.queue.routing_key in
        ((r.0 ≡ aborted) ↔ (no_key ≡ true))
        × (r.1.calls ≡ (if no_key then s.calls else calls))
        × ((r.0 ≡ returned tt) ↔ (no_key ≡ false) × (is_negative (amqp.status_of calls) ≡ false))
        × (r.1.object ≡ s.object)
  unfolding publish die_on_error publish_routing_key
  publish_once m s = ground arith
