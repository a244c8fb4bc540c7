-- ===== src/Rpc/Main/Conversation.antt =====
-- The loop of the client: one request after the other, each answered before the next.
use cpp_client_rabbit_mq.Common.{
  ◌⊎◌, ◌≢◌, Bool, ℕ, zero, suc, ◌+◌, ◌%◌, ◌^◌, ◌<◌, ◌≡◌, refl, sym, ap, ◌∙◌, Bytes, true, false,
  inl, inr, Option, none, some, ℤ, arith,
}
use cpp_client_rabbit_mq.Broker.Act.{Act, returned, deref, ◌>>=◌, returned-bind, pure, assert, ◌>>◌}
use cpp_client_rabbit_mq.Broker.Amqp.{Amqp, Envelope}
use cpp_client_rabbit_mq.Broker.Errors.{die_on_error}
use cpp_client_rabbit_mq.Broker.Consumer.{read, ack_message}
use cpp_client_rabbit_mq.Broker.Producer.{publish}
use cpp_client_rabbit_mq.Rpc.Program.{Program, on_producer}
use cpp_client_rabbit_mq.Rpc.Client.{
  Memory, same_text, next_message, wait_for_message, call_once, request,
}
use cpp_client_rabbit_mq.Rpc.Client.Waiting.{
  next_program, ReadsWell, after, answers, wait_found, wait_step, wait_null,
}
use cpp_client_rabbit_mq.Rpc.Client.Calling.{correlation_id, requested}
use cpp_client_rabbit_mq.Rpc.Main.{call_loop}

Option-Bool-cases : (o : Option Bool) → (o ≡ none) ⊎ ((o ≡ some true) ⊎ (o ≡ some false))
Option-Bool-cases none = inl refl
Option-Bool-cases (some true) = inr (inl refl)
Option-Bool-cases (some false) = inr (inr refl)

module _ (amqp : Amqp) where
  next_message_returned :
      (p : Program) (e : Envelope) → (next_message amqp p).0 ≡ returned e → ReadsWell amqp p
  unfolding next_message read ack_message
  next_message_returned p e h = ground arith

  module _ (mem : Memory) (app_id corr : Bytes) where
    -- The n-th message is the first that answers.
    pub record IsFirst (p : Program) (n : ℕ) : Type 0 where
      pub no_answer : (k : ℕ) → k < n → answers amqp mem app_id corr (after amqp k p) ≡ some false
      pub answer : answers amqp mem app_id corr (after amqp n p) ≡ some true

    shift :
        (p : Program) (n : ℕ)
        → answers amqp mem app_id corr p ≡ some false
        → ((k : ℕ)
            → k < n
            → answers amqp mem app_id corr (after amqp k (next_program amqp p)) ≡ some false)
        → (k : ℕ) → k < suc n
        → answers amqp mem app_id corr (after amqp k p) ≡ some false
    shift p n h before zero lt = h
    shift p n h before (suc k) lt = before k (omega arith)

    -- The use of a null pointer is no way to an answer.
    null_faulted :
        (fuel : ℕ) (p : Program) (e : Envelope)
        → ReadsWell amqp p
        → answers amqp mem app_id corr p ≡ none
        → (wait_for_message amqp mem (suc fuel) app_id corr p).0 ≢ returned (some e)
    null_faulted fuel p e well null = rw (wait_null amqp mem app_id corr fuel p well null) (λ h. cc)

    wait_returned :
        (fuel : ℕ) (p : Program) (e : Envelope)
        → (wait_for_message amqp mem fuel app_id corr p).0 ≡ returned (some e)
        → (n : ℕ) × IsFirst p n
          × ((wait_for_message amqp mem fuel app_id corr p).1 ≡ after amqp (suc n) p)
    unfolding wait_for_message
    wait_returned zero p e h = cc
    wait_returned (suc fuel) p e h =
        let (m, h1, _) = returned-bind (next_message amqp) _ p h in
        let well = next_message_returned p m h1 in
        elim (Option-Bool-cases (answers amqp mem app_id corr p)) [
          | inl null ↦ absurd (null_faulted fuel p e well null h)
          | inr (inl found) ↦ (
            0,
            record { no_answer = λ k lt. absurd (omega arith); answer = found },
            ap (λ r. r.1) (wait_found amqp mem app_id corr fuel p well found),
          )
          | inr (inr other) ↦
              let step = wait_step amqp mem app_id corr fuel p well other in
              let (n, first, q) =
                wait_returned fuel (next_program amqp p) e (sym (ap (λ r. r.0) step) ∙ h) in
              (
                suc n,
                record { no_answer = shift p n other first.no_answer; answer = first.answer },
                ap (λ r. r.1) step ∙ q,
              )
        ]

module _ (amqp : Amqp) (mem : Memory) (fuel : ℕ) (ttl : ℤ) (own_key app_id : Bytes) where
  published :
      (sequence : ℕ) (p : Program)
      → let m = request ttl own_key app_id (correlation_id amqp mem ttl own_key app_id sequence) in
        (on_producer (publish amqp m) p).0 ≡ returned tt
        → (on_producer (publish amqp m) p).1 ≡ requested amqp mem ttl own_key app_id sequence p
  unfolding publish die_on_error
  published sequence p h = ground arith

  -- What is done with the message that was found.
  settled :
      (corr : Bytes) (found : Option Envelope) (q : Program) (e : Envelope)
      → let rest : Act Program (Option Envelope) = elim found [
        | none ↦ pure none
        | some e ↦
            deref (same_text app_id e.properties.app_id (mem.behind_app_id e)) >>= λ same_app_id.
            assert same_app_id
            >> (deref (same_text corr e.properties.correlation_id (mem.behind_correlation_id e))
                >>= λ same_correlation_id. assert same_correlation_id >> pure (some e))
      ] in
        (rest q).0 ≡ returned (some e) → ((e' : Envelope) × (found ≡ some e')) × ((rest q).1 ≡ q)
  settled corr none q e h = cc
  settled corr (some e') q e h = ((e', refl), ground arith)

  call_once_returned :
      (sequence : ℕ) (p : Program) (e : Envelope)
      → (call_once amqp mem fuel ttl own_key app_id sequence p).0 ≡ returned (some e)
      → let q = requested amqp mem ttl own_key app_id sequence p in
        (n : ℕ) × IsFirst amqp mem app_id (correlation_id amqp mem ttl own_key app_id sequence) q n
        × ((call_once amqp mem fuel ttl own_key app_id sequence p).1 ≡ after amqp (suc n) q)
  unfolding call_once
  call_once_returned sequence p e h =
      let corr = correlation_id amqp mem ttl own_key app_id sequence in
      let m = request ttl own_key app_id corr in
      let (_, h1, c1) = returned-bind (on_producer (publish amqp m)) _ p h in
      let sent = published sequence p h1 in
      let q = requested amqp mem ttl own_key app_id sequence p in
      let wait = wait_for_message amqp mem fuel app_id corr in
      let (found, h2, c2) = returned-bind wait _ q (rw (c1, sent) at h) in
      let ((e', some_found), kept) = settled corr found (wait q).1 e (rw (c1, sent, c2) at h) in
      let (n, first, w) =
        wait_returned amqp mem app_id corr fuel q e' (h2 ∙ ap returned some_found) in
      (n, first, rw (c1, sent, c2) (kept ∙ w))

  -- The loop goes on after an answer only.
  went_on :
      (found : Option Envelope) (rounds sequence : ℕ) (q : Program)
      → let loop = call_loop amqp mem fuel ttl own_key app_id rounds ((sequence + 1) % 2 ^ 64) in
        let rest : Act Program (Option (Unit {0})) = elim found [
          | none ↦ pure none
          | some e ↦ loop
        ] in
        (rest q).0 ≡ returned (some tt) → (e : Envelope) × (found ≡ some e) × (rest q ≡ loop q)
  went_on none rounds sequence q h = cc
  went_on (some e) rounds sequence q h = (e, refl, refl)

  -- Some rounds from one state of the program to another: each publishes the request with the next
  -- number, and then reads and acknowledges messages up to the first that answers it.
  pub data Talks : (rounds sequence : ℕ) → Program → Program → Type 0 where
    silence : (sequence : ℕ) (p : Program) → Talks 0 sequence p p
    round :
        (rounds sequence n : ℕ) (p q : Program)
        → IsFirst amqp mem app_id
            (correlation_id amqp mem ttl own_key app_id sequence)
            (requested amqp mem ttl own_key app_id sequence p)
            n
        → Talks rounds
            ((sequence + 1) % 2 ^ 64)
            (after amqp (suc n) (requested amqp mem ttl own_key app_id sequence p))
            q
        → Talks (suc rounds) sequence p q

  -- Whatever the server does, a number of rounds that the client completes are a conversation: the
  -- requests are numbered one after the other, each is published once, and none before the one in
  -- front of it is answered; up to its answer, which is the first message that is one, all messages
  -- are read and acknowledged in order, and nothing else is asked of the server.
  pub call_loop-Talks :
      (rounds sequence : ℕ) (p : Program)
      → (call_loop amqp mem fuel ttl own_key app_id rounds sequence p).0 ≡ returned (some tt)
      → Talks rounds sequence p (call_loop amqp mem fuel ttl own_key app_id rounds sequence p).1
  unfolding call_loop
  call_loop-Talks zero sequence p h = silence sequence p
  call_loop-Talks (suc rounds) sequence p h =
      let once = call_once amqp mem fuel ttl own_key app_id sequence in
      let (found, h1, c) = returned-bind once _ p h in
      let (e, some_found, c') = went_on found rounds sequence (once p).1 (rw c at h) in
      let (n, first, w) = call_once_returned sequence p e (h1 ∙ ap returned some_found) in
      rw (c, c', w)
        (round rounds sequence n p _ first
          (call_loop-Talks rounds ((sequence + 1) % 2 ^ 64) _ (rw (c, c', w) at h)))
