-- ===== src/Rpc/Server.antt =====
-- One round of the server: a request is read, acknowledged and answered.
-- (src/rpc_server/Main.cpp; what it prints to the console is left out)
pub mod Laws
pub mod Ends
use cpp_client_rabbit_mq.Common.{ℕ, zero, suc, Bytes, codes, [], ℤ, Option, none, some}
use cpp_client_rabbit_mq.Broker.Act.{Act, pure, deref, assert, ◌>>=◌, ◌>>◌}
use cpp_client_rabbit_mq.Broker.Info.{
  MessagePublishInfo, default_property, default_message, default_delivery,
}
use cpp_client_rabbit_mq.Broker.Amqp.{Amqp, Envelope}
use cpp_client_rabbit_mq.Broker.Base.{is_some}
use cpp_client_rabbit_mq.Broker.Consumer.{read, ack_message}
use cpp_client_rabbit_mq.Broker.Producer.{publish}
use cpp_client_rabbit_mq.Rpc.Program.{Program, on_consumer, on_producer, expiration_of}

-- The answer to a request, by a server whose own requests come in under `own_key`.
unfoldable pub response : ℤ → (own_key : Bytes) → Envelope → MessagePublishInfo
response ttl own_key e = record {
  property = record default_property {
    reply_to = own_key;
    app_id = e.properties.app_id;
    correlation_id = e.properties.correlation_id;
    expiration = expiration_of ttl;
  };
  message = record default_message {
    content_type = e.properties.content_type;
    body = codes "Process ok";
  };
  delivery = record default_delivery { routing_key = e.properties.reply_to };
}

module _ (amqp : Amqp) (ttl : ℤ) where
  -- The body of `while( true )`.
  unfoldable pub serve_request : Act Program (Unit {0})
  serve_request = do
    wrapper ← on_consumer (read amqp)
    assert (is_some wrapper)
    on_consumer (ack_message amqp wrapper)
    e ← deref wrapper
    p ← (λ (p : Program). pure p p)
    on_producer (publish amqp (response ttl p.consumer.info.queue.routing_key e))

  -- The first rounds of the loop, which goes on until a round does not return.
  unfoldable pub serve : ℕ → Act Program (Unit {0})
  serve zero = pure tt
  serve (suc n) = do serve_request; serve n
