-- ===== src/Rpc/Client/Waiting.antt =====
-- The loop of `wait_for_message` finds the first answer.
use cpp_client_rabbit_mq.Common.{
  none, Option, ℕ, zero, suc, ◌≤◌, ◌<◌, ◌≡◌, ◌≢◌, ◌∙◌, Bytes, Bool, true, false, some, ◌∷◌, arith,
}
use cpp_client_rabbit_mq.Broker.Act.{returned, faulted}
use cpp_client_rabbit_mq.Broker.Amqp.{Amqp, Call, Envelope, History, normal}
use cpp_client_rabbit_mq.Broker.Consumer.{read, ack_message}
use cpp_client_rabbit_mq.Rpc.Program.{Program, read_script}
use cpp_client_rabbit_mq.Rpc.Client.{Memory, is_answer, next_message, wait_for_message}

module _ (amqp : Amqp) where
  -- The history of a read, the message that it gives, and the program after its acknowledgement.
  abbrev pub next_history : Program → History
  next_history p = read_script p.consumer p.calls

  abbrev pub next_envelope : Program → Envelope
  next_envelope p = amqp.delivery_of (next_history p)

  abbrev pub next_program : Program → Program
  next_program p = record p {
    calls =
        Call.basic_ack p.consumer.conn p.consumer.info.channel (next_envelope p).delivery_tag false
        ∷ next_history p;
  }

  abbrev pub ReadsWell : Program → Type 0
  ReadsWell p = (amqp.reply_of (next_history p)).reply_type ≡ normal

  -- The program after a number of messages.
  abbrev pub after : ℕ → Program → Program
  after zero p = p
  after (suc n) p = after n (next_program p)

  next_message_normal :
      (p : Program)
      → ReadsWell p
      → next_message amqp p ≡ (returned (next_envelope p), next_program p)
  unfolding next_message read ack_message
  next_message_normal p h = ground arith

  -- A read that fails gives a null pointer, which is used at once: the process is in undefined
  -- behaviour, before anything else is done.
  pub next_message_null :
      (p : Program)
      → (amqp.reply_of (next_history p)).reply_type ≢ normal
      → next_message amqp p ≡ (faulted, record p { calls = next_history p })
  unfolding next_message read ack_message
  next_message_null p h = ground arith

  module _ (mem : Memory) (app_id correlation_id : Bytes) where
    abbrev pub answers : Program → Option Bool
    answers p = is_answer mem app_id correlation_id (next_envelope p)

    pub wait_step :
        (fuel : ℕ) (p : Program)
        → ReadsWell p
        → answers p ≡ some false
        → wait_for_message amqp mem (suc fuel) app_id correlation_id p
          ≡ wait_for_message amqp mem fuel app_id correlation_id (next_program p)
    unfolding wait_for_message
    wait_step fuel p h k = rw (next_message_normal p h, k)

    pub wait_found :
        (fuel : ℕ) (p : Program)
        → ReadsWell p
        → answers p ≡ some true
        → wait_for_message amqp mem (suc fuel) app_id correlation_id p
          ≡ (returned (some (next_envelope p)), next_program p)
    unfolding wait_for_message
    wait_found fuel p h k = rw (next_message_normal p h, k)

    -- A member without a text is a null pointer, which is used.
    pub wait_null :
        (fuel : ℕ) (p : Program)
        → ReadsWell p
        → answers p ≡ none
        → wait_for_message amqp mem (suc fuel) app_id correlation_id p ≡ (faulted, next_program p)
    unfolding wait_for_message
    wait_null fuel p h k = rw (next_message_normal p h, k)

    -- If the messages before the n-th can be compared and are no answers, the n-th is, and all of
    -- them can be read, the loop returns the n-th message, with any fuel above n, and it has read and
    -- acknowledged that message and those before it, one after the other, and nothing else.
    pub wait_for_message_first :
        (n fuel : ℕ) (p : Program)
        → n < fuel
        → ((k : ℕ) → k ≤ n → ReadsWell (after k p))
        → ((k : ℕ) → k < n → answers (after k p) ≡ some false)
        → answers (after n p) ≡ some true
        → wait_for_message amqp mem fuel app_id correlation_id p
          ≡ (returned (some (next_envelope (after n p))), after (suc n) p)
    wait_for_message_first n zero p lt well no_answer answer = absurd (omega arith)
    wait_for_message_first zero (suc fuel) p lt well no_answer answer =
        wait_found fuel p (well 0 (omega arith)) answer
    wait_for_message_first (suc n) (suc fuel) p lt well no_answer answer =
        wait_step fuel p (well 0 (omega arith)) (no_answer 0 (omega arith))
        ∙ wait_for_message_first n fuel (next_program p) (omega arith)
            (λ k h. well (suc k) (omega arith)) (λ k h. no_answer (suc k) (omega arith)) answer
