-- ===== src/Rpc/Main/Answered.antt =====
-- The client with a server that answers: its loop goes on for ever.
use cpp_client_rabbit_mq.Rpc.Setup.{client_app_id, Options}
use cpp_client_rabbit_mq.Common.{
  [], c_string, Bool, ℕ, zero, suc, ◌+◌, ◌%◌, ◌^◌, ◌≡◌, refl, Bytes, true, false, some, ◌∷◌, ℤ,
  is_negative, is_empty, Option, arith,
}
use cpp_client_rabbit_mq.Broker.Act.{returned}
use cpp_client_rabbit_mq.Broker.Amqp.{Amqp, Call, Envelope, BasicProperties, History, normal}
use cpp_client_rabbit_mq.Broker.Producer.{publish_properties, publish_call}
use cpp_client_rabbit_mq.Rpc.Program.{Program}
use cpp_client_rabbit_mq.Rpc.Server.{response}
use cpp_client_rabbit_mq.Rpc.Client.{Memory, call_once}
use cpp_client_rabbit_mq.Rpc.Client.Answers.{IsTerminated, is_answer-response_iff}
use cpp_client_rabbit_mq.Rpc.Client.Waiting.{next_envelope, after, answers}
use cpp_client_rabbit_mq.Rpc.Client.Calling.{correlation_id, requested, call_once_first}
use cpp_client_rabbit_mq.Rpc.Main.{call_loop}

-- The library with a server behind it: every call succeeds, and the message that is read after a
-- request was published is what `serve_request` makes of a message with the same properties.
pub record AnswersEach (amqp : Amqp) (ttl : ℤ) (server_key : Bytes) : Type 0 where
  pub works : (h : History) → (amqp.reply_of h).reply_type ≡ normal
  pub sends : (h : History) → is_negative (amqp.status_of h) ≡ false
  pub asked_of : History → Envelope
  pub receives :
      (h : History) (conn conn' : Option ℕ) (channel : ℕ) (exchange key : Bytes) (m i : Bool)
      (properties : BasicProperties) (body : Bytes)
      → let asked = Call.basic_publish conn channel exchange key m i properties body ∷ h in
        let read = Call.consume_message conn' ∷ Call.maybe_release_buffers conn' ∷ asked in
        ((asked_of read).properties ≡ properties)
        × ((amqp.delivery_of read).properties
            ≡ publish_properties (response ttl server_key (asked_of read)))

-- The name of the client is such a name, whatever its options are.
pub is_empty-client_app_id :
    (own : Bytes) (o : Options)
    → is_empty (c_string own) ≡ false
    → is_empty (c_string (client_app_id own o)) ≡ false
unfolding c_string
is_empty-client_app_id [] o h = cc
is_empty-client_app_id (c ∷ own) o h = ground arith

module _ (amqp : Amqp) (mem : Memory) (ttl ttl' : ℤ) (server_key own_key app_id : Bytes)
    (serves : AnswersEach amqp ttl' server_key) (terminated : IsTerminated mem)
    (named : is_empty (c_string app_id) ≡ false) where
  answered :
      (sequence : ℕ) (p : Program)
      → answers amqp mem app_id
          (correlation_id amqp mem ttl own_key app_id sequence)
          (requested amqp mem ttl own_key app_id sequence p)
        ≡ some true
  unfolding publish_call
  answered sequence p =
      let n = (sequence + 1) % 2 ^ 64 in
      let q = requested amqp mem ttl own_key app_id sequence p in
      let (received, read) = serves.receives p.calls _ _ _ _ _ _ _ _ _ in
      (is_answer-response_iff mem terminated ttl ttl' server_key own_key app_id n n _
          (next_envelope amqp q) named received read).1
        refl

  call_once_answered :
      (fuel sequence : ℕ) (p : Program)
      → is_empty p.producer.info.queue.routing_key ≡ false
      → let q = requested amqp mem ttl own_key app_id sequence p in
        call_once amqp mem (suc fuel) ttl own_key app_id sequence p
        ≡ (returned (some (next_envelope amqp q)), after amqp 1 q)
  call_once_answered fuel sequence p key =
      call_once_first amqp mem ttl own_key app_id sequence 0 (suc fuel) p (omega arith) key
        (serves.sends _) (λ k le. serves.works _) (λ k lt. absurd (omega arith))
        (answered sequence p)

  -- With a server that answers each request, with NULs behind the compared members, with a name that
  -- does not begin with a NUL and is not empty, and with a key to publish under, the client completes any number of rounds, from any state and with any fuel above
  -- zero: each request is answered by the next message.
  pub call_loop_total :
      (fuel rounds sequence : ℕ) (p : Program)
      → is_empty p.producer.info.queue.routing_key ≡ false
      → (call_loop amqp mem (suc fuel) ttl own_key app_id rounds sequence p).0 ≡ returned (some tt)
  unfolding call_loop
  call_loop_total fuel zero sequence p key = refl
  call_loop_total fuel (suc rounds) sequence p key =
      let q = requested amqp mem ttl own_key app_id sequence p in
      rw (call_once_answered fuel sequence p key)
        (call_loop_total fuel rounds ((sequence + 1) % 2 ^ 64) (after amqp 1 q) key)
