-- ===== src/Broker/Wrapper.antt =====
-- A received message, and its print. (include/Broker/MessageWrapper.hpp)
pub mod Laws
use Prim.Native.Nat.{ℕ}
use cpp_client_rabbit_mq.Common.{
  ◌%◌, ◌^◌, Bool, not, Option, Bytes, codes, pos, ◌==◌, bit_and, if◌then◌else◌,
}
use cpp_client_rabbit_mq.Broker.Amqp.{
  Envelope, BasicProperties, content_type_flag, delivery_mode_flag, correlation_id_flag,
  reply_to_flag, expiration_flag, message_id_flag, app_id_flag,
}
use cpp_client_rabbit_mq.Tools.Json.{
  Any, int, unsigned, text, object, Fields, end, field, to_string_json,
}

-- if (properties._flags & flag) proper.emplace_back(key, value), in front of what follows
emplace_if : ℕ → ℕ → Bytes → Any → Fields → Fields
emplace_if flags flag key value rest =
    if bit_and flags flag == 0 then rest else field key value rest

unfoldable pub msg_properties : BasicProperties → Fields
unfolding emplace_if
msg_properties p =
    emplace_if p.flags delivery_mode_flag (codes "delivery_mode") (int (pos p.delivery_mode)) (
      emplace_if p.flags content_type_flag (codes "content_type") (text p.content_type) (
        emplace_if p.flags app_id_flag (codes "app_id") (text p.app_id) (
          emplace_if p.flags reply_to_flag (codes "reply_to") (text p.reply_to) (
            emplace_if p.flags correlation_id_flag (codes "correlation_id") (text p.correlation_id)
              (emplace_if p.flags message_id_flag (codes "message_id") (text p.message_id) (
                emplace_if p.flags expiration_flag (codes "expiration") (text p.expiration)
                  end))))))

-- The tag is cast to `unsigned`.
unfoldable pub to_string : Envelope → Option Bytes
to_string e = to_string_json (
    field (codes "delivery_tag") (unsigned (e.delivery_tag % 2 ^ 32)) (
      field (codes "consumer_tag") (text e.consumer_tag) (
        field (codes "exchange") (text e.exchange) (
          field (codes "routing_key") (text e.routing_key) (
            field (codes "msg-properties") (object (msg_properties e.properties))
              (field (codes "message-body") (text e.body) end))))))
