-- ===== src/Examples/Text.antt =====
-- Numbers and JSON text.
use cpp_client_rabbit_mq.Common.{
  length, Bytes, ◌∷◌, ◌-◌, ◌≡◌, ◌^◌, refl, some, [], codes, arith, negsuc,
}
use cpp_client_rabbit_mq.Broker.Info.{
  MessagePublishInfo, default_property, default_message, default_delivery,
}
use cpp_client_rabbit_mq.Tools.Decimal.{decimal, atoui64}
use cpp_client_rabbit_mq.Tools.Json.{
  object, Fields, Items, null, int, text, list, to_string_json, visit,
}
use cpp_client_rabbit_mq.Tools.Json.Reader.{read_value}
use cpp_client_rabbit_mq.Tools.Json.Printing.{as_read}
use cpp_client_rabbit_mq.Tools.Json.Reading.{to_string_json-read}
use cpp_client_rabbit_mq.Tools.Header.{encode_header, decode_header}
use cpp_client_rabbit_mq.Tools.Header.Laws.{decode_header-encode_header}

decimal_5672 : decimal 5672 ≡ codes "5672"
unfolding decimal
decimal_5672 = refl

atoui64_minus : atoui64 (codes "-1") ≡ 2 ^ 64 - 29
unfolding atoui64
atoui64_minus = refl

abbrev pairs : Fields
pairs = Fields.field (codes "a") (int (negsuc 4)) (
    Fields.field (codes "b") (list (Items.cons null (Items.cons (text (codes "x\"y")) Items.nil)))
      Fields.end)

pairs_text : to_string_json pairs ≡ some (codes "{\"a\": -5, \"b\": [null, \"x\\\"y\"]}")
unfolding to_string_json visit decimal
pairs_text = refl

to_string_json-read_example :
    (s : Bytes) × (to_string_json pairs ≡ some s)
    × (read_value (length s) s ≡ some (as_read (object pairs), []))
to_string_json-read_example = to_string_json-read pairs refl

abbrev message : MessagePublishInfo
message = record {
  property = record default_property { app_id = codes "app" };
  message = default_message;
  delivery = default_delivery;
}

encoded_header : encode_header 8 258 4 ≡ some (0 ∷ 0 ∷ 1 ∷ 2 ∷ [])
unfolding encode_header
encoded_header = refl

decode_header-encode_header_example : decode_header 4 (0 ∷ 0 ∷ 1 ∷ 2 ∷ []) 4 ≡ some 258
decode_header-encode_header_example =
    decode_header-encode_header 8 4 4 258 (0 ∷ 0 ∷ 1 ∷ 2 ∷ []) encoded_header refl (omega arith)
      (omega arith) (omega arith)
