-- ===== src/Rpc/Server/Ends.antt =====
-- How a round of the server ends, and that its loop goes on.
use cpp_client_rabbit_mq.Common.{
  ℕ, zero, suc, ◌≡◌, refl, ◌∷◌, Bool, true, false, not, ◌&&◌, arith, ℤ, is_negative, is_empty,
  if◌then◌else◌,
}
use cpp_client_rabbit_mq.Broker.Act.{Outcome, returned, aborted}
use cpp_client_rabbit_mq.Broker.Errors.{die_on_error}
use cpp_client_rabbit_mq.Broker.Amqp.{
  Amqp, Call, ResponseType, normal, none_response, library_exception, server_exception, History,
}
use cpp_client_rabbit_mq.Broker.Consumer.{read, ack_message}
use cpp_client_rabbit_mq.Broker.Producer.{publish, publish_call, publish_routing_key}
use cpp_client_rabbit_mq.Rpc.Program.{Program, read_script}
use cpp_client_rabbit_mq.Rpc.Server.{response, serve_request, serve}

abbrev pub is_normal : ResponseType → Bool
is_normal normal = true
is_normal none_response = false
is_normal library_exception = false
is_normal server_exception = false

module _ (amqp : Amqp) (ttl : ℤ) where
  -- How a round ends, and the calls that it leaves, by the answers of the server.
  abbrev pub round_script : Program → Outcome (Unit {0}) × History
  round_script p =
      let h = read_script p.consumer p.calls in
      let request = amqp.delivery_of h in
      let answer = response ttl p.consumer.info.queue.routing_key request in
      let acked =
        Call.basic_ack p.consumer.conn p.consumer.info.channel request.delivery_tag false ∷ h in
      let sent = publish_call p.producer answer ∷ acked in
      if not (is_normal (amqp.reply_of h).reply_type)
      then (aborted, h)
      else if is_empty request.properties.reply_to && is_empty p.producer.info.queue.routing_key
      then (aborted, acked)
      else (die_on_error (amqp.status_of sent) "Publishing", sent)

  -- A round fails its assertion after the read if there is no message, and after the acknowledgement
  -- if neither the request nor the configuration tells where the answer goes: such a request is lost.
  -- Otherwise the answer is sent, and the round returns, or ends the process if this fails. It changes
  -- neither client.
  pub serve_request-round_script :
      (p : Program)
      → let (ending, calls) = round_script p in
        serve_request amqp ttl p ≡ (ending, record p { calls = calls })
  unfolding serve_request read ack_message publish publish_routing_key response die_on_error
  serve_request-round_script p = ground arith

  module _ (works : (h : History) → (amqp.reply_of h).reply_type ≡ normal)
      (sends : (h : History) → is_negative (amqp.status_of h) ≡ false) where
    round_total :
        (p : Program)
        → is_empty p.producer.info.queue.routing_key ≡ false
        → serve_request amqp ttl p ≡ (returned tt, record p { calls = (round_script p).1 })
    unfolding die_on_error
    round_total p key =
        let h = read_script p.consumer p.calls in
        ground (arith, key, serve_request-round_script p, works h, sends (round_script p).1)

    -- With a library whose calls all succeed, and with a key to publish under, the server completes
    -- any number of rounds, from any state.
    pub serve_total :
        (n : ℕ) (p : Program)
        → is_empty p.producer.info.queue.routing_key ≡ false
        → (serve amqp ttl n p).0 ≡ returned tt
    unfolding serve
    serve_total zero p key = refl
    serve_total (suc n) p key =
        rw (round_total p key) (serve_total n (record p { calls = (round_script p).1 }) key)
