-- ===== src/Broker/Wrapper/Laws.antt =====
-- The print never fails, and shows of a published message the members that were set.
use cpp_client_rabbit_mq.Common.{
  ◌≡◌, true, Option, none, some, Bytes, codes, arith, pos, is_empty, c_string, bytes_eq,
  if◌then◌else◌,
}
use cpp_client_rabbit_mq.Broker.Info.{MessagePublishInfo}
use cpp_client_rabbit_mq.Broker.Amqp.{Envelope, BasicProperties}
use cpp_client_rabbit_mq.Broker.Producer.{publish_properties}
use cpp_client_rabbit_mq.Broker.Wrapper.{msg_properties, to_string}
use cpp_client_rabbit_mq.Tools.Json.{Any, int, text, Fields, end, field}
use cpp_client_rabbit_mq.Tools.Json.Laws.{is_some, fields_supported, to_string_json_total}

msg_properties_supported : (p : BasicProperties) → fields_supported (msg_properties p) ≡ true
unfolding msg_properties
msg_properties_supported p = ground arith

-- Every received message is printed: `toString` never throws `std::invalid_argument`.
pub to_string_total : (e : Envelope) → is_some (to_string e) ≡ true
unfolding to_string
to_string_total e = rw to_string_json_total (rw (msg_properties_supported e.properties))

-- The value of a key among the pairs.
abbrev pub lookup : Bytes → Fields → Option Any
lookup key end = none
lookup key (field k v fs) = if bytes_eq k key then some v else lookup key fs

-- A member that is shown exactly when it was set.
abbrev pub shown : Bytes → Option Any
shown t = if is_empty t then none else some (text (c_string t))

-- Of a message that `publish` has filled in, the print lists the delivery mode, and each optional
-- member exactly when its text is not empty, with the text up to its first NUL.
pub msg_properties-publish_properties :
    (m : MessagePublishInfo)
    → let fs = msg_properties (publish_properties m) in
      (lookup (codes "delivery_mode") fs ≡ some (int (pos m.property.delivery_mode)))
      × (lookup (codes "content_type") fs ≡ shown m.message.content_type)
      × (lookup (codes "app_id") fs ≡ shown m.property.app_id)
      × (lookup (codes "reply_to") fs ≡ shown m.property.reply_to)
      × (lookup (codes "correlation_id") fs ≡ shown m.property.correlation_id)
      × (lookup (codes "message_id") fs ≡ shown m.message.message_id)
      × (lookup (codes "expiration") fs ≡ shown m.property.expiration)
unfolding msg_properties publish_properties bytes_eq
msg_properties-publish_properties m = ground arith
