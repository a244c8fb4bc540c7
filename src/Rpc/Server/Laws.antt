-- ===== src/Rpc/Server/Laws.antt =====
-- What one round of the server does.
use cpp_client_rabbit_mq.Common.{
  ℕ, zero, suc, ◌+◌, ◌≡◌, ◌≢◌, [], ◌∷◌, Bool, false, true, arith, ℤ, if◌then◌else◌,
}
use cpp_client_rabbit_mq.Broker.Act.{returned, aborted, returned-bind}
use cpp_client_rabbit_mq.Broker.Errors.{die_on_error}
use cpp_client_rabbit_mq.Broker.Amqp.{Amqp, Call, normal, History}
use cpp_client_rabbit_mq.Broker.Consumer.{read, ack_message}
use cpp_client_rabbit_mq.Broker.Producer.{publish, publish_call}
use cpp_client_rabbit_mq.Rpc.Program.{Program, read_script}
use cpp_client_rabbit_mq.Rpc.Server.{response, serve_request, serve}

module _ (amqp : Amqp) (ttl : ℤ) where
  -- A round that returns has read one message, acknowledged that message and no other, and only
  -- then published one answer to it.
  pub serve_request_returned :
      (p : Program)
      → (serve_request amqp ttl p).0 ≡ returned tt
      → let h = read_script p.consumer p.calls in
        let request = amqp.delivery_of h in
        let answer = response ttl p.consumer.info.queue.routing_key request in
        ((serve_request amqp ttl p).1 ≡ record p {
          calls =
              publish_call p.producer answer
              ∷ Call.basic_ack p.consumer.conn p.consumer.info.channel request.delivery_tag false
              ∷ h;
        })
        × ((amqp.reply_of h).reply_type ≡ normal)
  unfolding serve_request read ack_message publish die_on_error
  serve_request_returned p h = ground arith

  -- A round whose read fails ends in the assertion, after the read and nothing else.
  pub serve_request_no_message :
      (p : Program)
      → let h = read_script p.consumer p.calls in
        ((amqp.reply_of h).reply_type ≢ normal)
        → serve_request amqp ttl p ≡ (aborted, record p { calls = h })
  unfolding serve_request read
  serve_request_no_message p h = ground arith

abbrev pub is_publish : Call → Bool
is_publish (Call.basic_publish c ch e k m i p b) = true
is_publish _ = false

abbrev pub is_ack : Call → Bool
is_ack (Call.basic_ack c ch t m) = true
is_ack _ = false

abbrev pub is_read : Call → Bool
is_read (Call.consume_message c) = true
is_read _ = false

abbrev pub count_calls : (Call → Bool) → History → ℕ
count_calls test [] = 0
count_calls test (c ∷ h) = if test c then count_calls test h + 1 else count_calls test h

module _ (amqp : Amqp) (ttl : ℤ) where
  one_round :
      (p : Program)
      → (serve_request amqp ttl p).0 ≡ returned tt
      → (count_calls is_publish (serve_request amqp ttl p).1.calls
          ≡ count_calls is_publish p.calls + 1)
        × (count_calls is_ack (serve_request amqp ttl p).1.calls ≡ count_calls is_ack p.calls + 1)
        × (count_calls is_read (serve_request amqp ttl p).1.calls ≡ count_calls is_read p.calls + 1)
  unfolding publish_call
  one_round p h = rw ((serve_request_returned amqp ttl p h).0) (omega arith)

  -- After any number of rounds that returned, as many messages have been read, acknowledged and
  -- answered.
  pub serve-count_calls :
      (n : ℕ) (p : Program)
      → (serve amqp ttl n p).0 ≡ returned tt
      → let calls = (serve amqp ttl n p).1.calls in
        (count_calls is_read calls ≡ count_calls is_read p.calls + n)
        × (count_calls is_ack calls ≡ count_calls is_ack p.calls + n)
        × (count_calls is_publish calls ≡ count_calls is_publish p.calls + n)
  unfolding serve
  serve-count_calls zero p h = omega arith
  serve-count_calls (suc n) p h =
      let (_, h1, e) = returned-bind (serve_request amqp ttl) _ p h in
      let q = (serve_request amqp ttl p).1 in
      rw e (omega (arith, one_round p h1, serve-count_calls n q (rw e at h)))
