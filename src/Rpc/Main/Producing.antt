-- ===== src/Rpc/Main/Producing.antt =====
-- The programs keep the configuration of their producers.
use cpp_client_rabbit_mq.Common.{
  Bool, arith, ℕ, zero, suc, ◌+◌, ◌%◌, ◌^◌, ◌≡◌, ap, true, false, if◌then◌else◌, Bytes, ℤ, Option,
  none, some,
}
use cpp_client_rabbit_mq.Broker.Act.{continue, pure, Act, returned, returned-bind, ◌>>◌}
use cpp_client_rabbit_mq.Broker.Act.Keeps.{Keeps, keeps_rules, Keeps-bind, Keeps-pure, Keeps-deref}
use cpp_client_rabbit_mq.Broker.Info.{MessageBrokerInfo, MessagePublishInfo}
use cpp_client_rabbit_mq.Broker.Amqp.{Amqp}
use cpp_client_rabbit_mq.Broker.Base.{MessageBroker, Session}
use cpp_client_rabbit_mq.Broker.Producer.{open_producer, publish}
use cpp_client_rabbit_mq.Broker.Producer.Opening.{open_producer_returned}
use cpp_client_rabbit_mq.Rpc.Program.{Program, on_consumer, on_producer}
use cpp_client_rabbit_mq.Rpc.Server.{serve_request, serve}
use cpp_client_rabbit_mq.Rpc.Client.{Memory, next_message, wait_for_message, call_once, is_answer}
use cpp_client_rabbit_mq.Rpc.Main.{call_loop}

-- The configuration of the producer.
abbrev pub Produces : MessageBrokerInfo → Program → Type 0
Produces i p = p.producer.info ≡ i

module _ {i : MessageBrokerInfo} where
  Keeps-on_consumer : {A : Type 0} (m : Act Session A) → Keeps (Produces i) (on_consumer m)
  Keeps-on_consumer m = record { at = λ s h. h }

  Keeps-publish :
      (amqp : Amqp) (m : MessagePublishInfo) → Keeps (Produces i) (on_producer (publish amqp m))
  unfolding publish
  Keeps-publish amqp m = record { at = λ s h. ground arith }

  Keeps-program : Keeps (Produces i) (λ p. pure p p)
  Keeps-program = record { at = λ s h. h }

  ruleset main_rules = (keeps_rules, Keeps-on_consumer, Keeps-publish, Keeps-program)

  Keeps-serve_request : (amqp : Amqp) (ttl : ℤ) → Keeps (Produces i) (serve_request amqp ttl)
  unfolding serve_request
  Keeps-serve_request amqp ttl = search main_rules depth 14

  pub Keeps-serve : (amqp : Amqp) (ttl : ℤ) (n : ℕ) → Keeps (Produces i) (serve amqp ttl n)
  unfolding serve
  Keeps-serve amqp ttl zero = Keeps-pure tt
  Keeps-serve amqp ttl (suc n) =
      Keeps-bind _ _ (Keeps-serve_request amqp ttl) (λ _. Keeps-serve amqp ttl n)

  Keeps-next_message : (amqp : Amqp) → Keeps (Produces i) (next_message amqp)
  unfolding next_message
  Keeps-next_message amqp = search main_rules depth 14

  Keeps-if :
      {A : Type 0} (b : Bool) (m n : Act Program A)
      → Keeps (Produces i) m
      → Keeps (Produces i) n
      → Keeps (Produces i) (if b then m else n)
  Keeps-if true m n h k = h
  Keeps-if false m n h k = k

  Keeps-option :
      {A B : Type 0} (o : Option A) (m : Act Program B) (f : A → Act Program B)
      → Keeps (Produces i) m
      → ((a : A) → Keeps (Produces i) (f a))
      → Keeps (Produces i) (elim o [ none ↦ m | some a ↦ f a ])
  Keeps-option none m f h k = h
  Keeps-option (some a) m f h k = k a

  module _ (amqp : Amqp) (mem : Memory) (app_id : Bytes) where
    Keeps-wait_for_message :
        (fuel : ℕ) (corr : Bytes) → Keeps (Produces i) (wait_for_message amqp mem fuel app_id corr)
    unfolding wait_for_message
    Keeps-wait_for_message zero corr = Keeps-pure none
    Keeps-wait_for_message (suc fuel) corr = Keeps-bind _ _ (Keeps-next_message amqp) (λ e.
        Keeps-bind _ _ (Keeps-deref (is_answer mem app_id corr e))
          (λ found. Keeps-if found _ _ (Keeps-pure (some e)) (Keeps-wait_for_message fuel corr)))

    module _ (fuel : ℕ) (ttl : ℤ) (own_key : Bytes) where
      Keeps-call_once :
          (sequence : ℕ) → Keeps (Produces i) (call_once amqp mem fuel ttl own_key app_id sequence)
      unfolding call_once
      Keeps-call_once sequence = Keeps-bind _ _ (Keeps-publish amqp _) (λ _.
          Keeps-bind _ _ (Keeps-wait_for_message fuel _)
            (λ found. Keeps-option found _ _ (Keeps-pure none) (λ e. search main_rules depth 14)))

      pub Keeps-call_loop :
          (rounds sequence : ℕ)
          → Keeps (Produces i) (call_loop amqp mem fuel ttl own_key app_id rounds sequence)
      unfolding call_loop
      Keeps-call_loop zero sequence = Keeps-pure (some tt)
      Keeps-call_loop (suc rounds) sequence = Keeps-bind _ _ (Keeps-call_once sequence) (λ found.
          Keeps-option found _ _ (Keeps-pure none)
            (λ e. Keeps-call_loop rounds ((sequence + 1) % 2 ^ 64)))

pub Keeps-after :
    {A B : Type 0} {P : Program → Type 0} (m : Act Program A) (n : Act Program B) (p : Program)
    {a : A}
    → (m p).0 ≡ returned a
    → P (m p).1
    → Keeps P n
    → P ((m >> n) p).1
Keeps-after m n p h k keeps = rw (h, continue) (keeps.at (m p).1 k)

-- A setup that returns has the producer's configuration.
module _ (amqp : Amqp) (first : Act Session (Unit {0})) (i : MessageBrokerInfo) (p : Program) where
  abbrev pub setup : Act Program (Unit {0})
  setup = on_consumer first >> on_producer (open_producer amqp i)

  pub setup-Produces : (setup p).0 ≡ returned tt → Produces i (setup p).1
  setup-Produces h =
      let (_, _, e) = returned-bind (on_consumer first) _ p h in
      let q = (on_consumer first p).1 in
      let s : Session = record { object = q.producer; calls = q.calls } in
      let (socket, o, _) = open_producer_returned amqp i s (rw e at h) in
      rw e (ap (λ (b : MessageBroker). b.info) o)
