-- ===== src/Rpc/Client/Calling.antt =====
-- One call of the client, from the request to its answer.
use cpp_client_rabbit_mq.Common.{
  ℕ, suc, ◌+◌, ◌%◌, ◌^◌, ◌≤◌, ◌<◌, ◌≡◌, refl, Bytes, true, false, some, ◌∷◌, ℤ, is_negative,
  is_empty, arith,
}
use cpp_client_rabbit_mq.Broker.Act.{returned}
use cpp_client_rabbit_mq.Broker.Amqp.{Amqp, Envelope}
use cpp_client_rabbit_mq.Broker.Base.{Session}
use cpp_client_rabbit_mq.Broker.Errors.{die_on_error}
use cpp_client_rabbit_mq.Broker.Info.{MessagePublishInfo}
use cpp_client_rabbit_mq.Broker.Producer.{publish, publish_call, publish_routing_key}
use cpp_client_rabbit_mq.Tools.Decimal.{decimal}
use cpp_client_rabbit_mq.Rpc.Program.{Program}
use cpp_client_rabbit_mq.Rpc.Client.{Memory, request, same_text, is_answer, call_once}
use cpp_client_rabbit_mq.Rpc.Client.Waiting.{
  next_envelope, ReadsWell, after, answers, wait_for_message_first,
}

is_answer_texts :
    (mem : Memory) (app_id correlation_id : Bytes) (e : Envelope)
    → is_answer mem app_id correlation_id e ≡ some true
    → (same_text app_id e.properties.app_id (mem.behind_app_id e) ≡ some true)
      × (same_text correlation_id e.properties.correlation_id (mem.behind_correlation_id e)
          ≡ some true)
unfolding is_answer
is_answer_texts mem app_id correlation_id e h = ground arith

module _ (amqp : Amqp) where
  publish_returned :
      (m : MessagePublishInfo) (s : Session)
      → is_empty (publish_routing_key s.object m) ≡ false
      → is_negative (amqp.status_of (publish_call s.object m ∷ s.calls)) ≡ false
      → publish amqp m s ≡ (returned tt, record s { calls = publish_call s.object m ∷ s.calls })
  unfolding publish die_on_error
  publish_returned m s h k = ground arith

  module _ (mem : Memory) (ttl : ℤ) (own_key app_id : Bytes) (sequence : ℕ) where
    abbrev pub correlation_id : Bytes
    correlation_id = decimal ((sequence + 1) % 2 ^ 64)

    -- The program after the request is sent.
    abbrev pub requested : Program → Program
    requested p = record p {
      calls = publish_call p.producer (request ttl own_key app_id correlation_id) ∷ p.calls;
    }

    key_lem :
        (p : Program)
        → is_empty p.producer.info.queue.routing_key ≡ false
        → is_empty (publish_routing_key p.producer (request ttl own_key app_id correlation_id))
          ≡ false
    unfolding publish_routing_key request
    key_lem p h = h

    -- A call whose request is sent, with a key in the configuration of the producer: if the messages
    -- before the n-th can be compared, with no null pointer among what is compared, and are no answers
    -- to this request, the n-th is, and all of them can be read, the call returns the n-th message and
    -- fails none of its assertions, with any fuel above n. It has published one request, and then read
    -- and acknowledged these messages, one after the other.
    pub call_once_first :
        (n fuel : ℕ) (p : Program)
        → n < fuel
        → is_empty p.producer.info.queue.routing_key ≡ false
        → is_negative (amqp.status_of (requested p).calls) ≡ false
        → ((k : ℕ) → k ≤ n → ReadsWell amqp (after amqp k (requested p)))
        → ((k : ℕ)
            → k < n
            → answers amqp mem app_id correlation_id (after amqp k (requested p)) ≡ some false)
        → answers amqp mem app_id correlation_id (after amqp n (requested p)) ≡ some true
        → call_once amqp mem fuel ttl own_key app_id sequence p ≡ (
          returned (some (next_envelope amqp (after amqp n (requested p)))),
          after amqp (suc n) (requested p),
        )
    unfolding call_once
    call_once_first n fuel p lt key sent well no_answer answer =
        let e = next_envelope amqp (after amqp n (requested p)) in
        let texts = is_answer_texts mem app_id correlation_id e answer in
        let m = request ttl own_key app_id correlation_id in
        let s : Session = record { object = p.producer; calls = p.calls } in
        rw
          (
            publish_returned m s (key_lem p key) sent,
            wait_for_message_first amqp mem app_id correlation_id n fuel (requested p) lt well
                no_answer answer,
          )
          (rw (texts.0, texts.1) refl)
