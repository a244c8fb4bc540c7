-- ===== src/Rpc/Setup/Routing.antt =====
-- Requests reach the server and answers the client.
use cpp_client_rabbit_mq.Common.{
  ◌≡◌, refl, ap, ◌∙◌, false, Bytes, is_empty, c_string_id, HasNoNul, ℤ,
}
use cpp_client_rabbit_mq.Broker.Info.{MessageBrokerInfo}
use cpp_client_rabbit_mq.Broker.Amqp.{Envelope, BasicProperties}
use cpp_client_rabbit_mq.Broker.Base.{MessageBroker}
use cpp_client_rabbit_mq.Broker.Producer.{publish_properties, publish_routing_key}
use cpp_client_rabbit_mq.Rpc.Server.{response}
use cpp_client_rabbit_mq.Rpc.Client.{request}
use cpp_client_rabbit_mq.Rpc.Setup.{
  Options, server_consumer_info, server_producer_info, client_consumer_info, client_producer_info,
}

reply_to_member :
    (ttl : ℤ) (key app corr : Bytes)
    → HasNoNul key
    → is_empty key ≡ false
    → (publish_properties (request ttl key app corr)).reply_to ≡ key
unfolding publish_properties request
reply_to_member ttl key app corr clean full = rw full (c_string_id key clean)

-- Let both programs have the same options, and keys with no NUL. A request is published under the
-- key that the server's queue is bound with, to the same exchange; and if the server receives it,
-- its answer is published under the key that the client's queue is bound with.
pub routing_keys_meet :
    (o : Options) (own app corr : Bytes) (ttl ttl' : ℤ) (c s : MessageBroker) (e : Envelope)
    → HasNoNul o.routing_key_response
    → is_empty o.routing_key_response ≡ false
    → c.info ≡ client_producer_info o
    → s.info ≡ server_producer_info o
    → e.properties ≡ publish_properties (request ttl o.routing_key_response app corr)
    → (publish_routing_key c (request ttl o.routing_key_response app corr)
        ≡ (server_consumer_info o).queue.routing_key)
      × (c.info.exchange ≡ (server_consumer_info o).exchange)
      × (publish_routing_key s (response ttl' o.routing_key_request e)
          ≡ (client_consumer_info own o).queue.routing_key)
      × (s.info.exchange ≡ (client_consumer_info own o).exchange)
unfolding publish_routing_key request response publish_properties client_producer_info
    server_producer_info server_consumer_info client_consumer_info
routing_keys_meet o own app corr ttl ttl' c s e clean full hc hs he =
    let key = o.routing_key_response in
    let r : e.properties.reply_to ≡ key =
      ap (λ (p : BasicProperties). p.reply_to) he ∙ reply_to_member ttl key app corr clean full in
    (
      ap (λ (i : MessageBrokerInfo). i.queue.routing_key) hc,
      ap (λ (i : MessageBrokerInfo). i.exchange) hc,
      rw (r, full) refl,
      ap (λ (i : MessageBrokerInfo). i.exchange) hs,
    )
