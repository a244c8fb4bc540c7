-- ===== src/Rpc/Program.antt =====
-- A program with a consumer and a producer.
-- (src/rpc_client/Main.cpp, src/rpc_server/Main.cpp)
use cpp_client_rabbit_mq.Common.{Bytes, [], ◌∷◌, ℤ, pos, negsuc, ltb, if◌then◌else◌}
use cpp_client_rabbit_mq.Broker.Act.{Act}
use cpp_client_rabbit_mq.Broker.Amqp.{Call, History}
use cpp_client_rabbit_mq.Broker.Base.{MessageBroker, Session}
use cpp_client_rabbit_mq.Tools.Decimal.{decimal}

-- The clients share the calls that the program has made.
pub record Program : Type 0 where
  pub consumer : MessageBroker
  pub producer : MessageBroker
  pub calls : History

abbrev pub on_consumer : {A : Type 0} → Act Session A → Act Program A
on_consumer m p =
    let r = m (record { object = p.consumer; calls = p.calls }) in
    (r.0, record p { consumer = r.1.object; calls = r.1.calls })

abbrev pub on_producer : {A : Type 0} → Act Session A → Act Program A
on_producer m p =
    let r = m (record { object = p.producer; calls = p.calls }) in
    (r.0, record p { producer = r.1.object; calls = r.1.calls })

-- ( ttl_expires > 0 ? std::to_string(ttl_expires) : "" )
unfoldable pub expiration_of : ℤ → Bytes
expiration_of (pos n) = if ltb 0 n then decimal n else []
expiration_of (negsuc n) = []

-- The calls of a read.
abbrev pub read_script : MessageBroker → History → History
read_script b calls = Call.consume_message b.conn ∷ Call.maybe_release_buffers b.conn ∷ calls
