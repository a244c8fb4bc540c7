-- ===== src/Broker/Consumer/Total.antt =====
-- `MessageBrokerConsumer::open` goes through against a server that accepts what it is asked.
use cpp_client_rabbit_mq.Common.{ℕ, ◌≡◌, ◌≢◌, none, some, ◌∷◌, arith, true, is_zero, ap}
use cpp_client_rabbit_mq.Broker.Act.{returned, bind-returned}
use cpp_client_rabbit_mq.Broker.Info.{MessageBrokerInfo}
use cpp_client_rabbit_mq.Broker.Errors.{die_on_amqp_error}
use cpp_client_rabbit_mq.Broker.Amqp.{Amqp, History, normal}
use cpp_client_rabbit_mq.Broker.Base.{
  Session, MessageBroker, set_info, open_socket, exchange_declare, prepare, prepare_consumer,
  declare_call,
}
use cpp_client_rabbit_mq.Broker.Base.Opening.{open_socket_returned, exchange_declare_returned}
use cpp_client_rabbit_mq.Broker.Consumer.{open_consumer}

-- A library and a server that accept what they are asked.
pub record IsAccepting (amqp : Amqp) : Type 0 where
  pub gives_socket : (h : History) → amqp.socket_of h ≢ none
  pub gives_status : (h : History) → is_zero (amqp.status_of h) ≡ true
  pub gives_reply : (h : History) → (amqp.reply_of h).reply_type ≡ normal
  pub gives_queue : (h : History) → amqp.queue_of h ≢ none

module _ (amqp : Amqp) (ok : IsAccepting amqp) where
  open_socket_total : (s : Session) → (open_socket amqp s).0 ≡ returned 0
  unfolding open_socket die_on_amqp_error
  open_socket_total s = grind (arith, ok.gives_socket, ok.gives_status, ok.gives_reply)

  exchange_declare_total :
      (i : MessageBrokerInfo) (s : Session)
      → s.object.socket ≢ none
      → (exchange_declare amqp i s).0 ≡ returned tt
  unfolding exchange_declare die_on_amqp_error
  exchange_declare_total i s h = grind (arith, ok.gives_reply)

  prepare_total :
      (s : Session) → s.object.socket ≢ none → (n : ℕ) × ((prepare amqp s).0 ≡ returned n)
  unfolding prepare die_on_amqp_error
  prepare_total s h = (
    elim (amqp.queue_of (declare_call s.object.conn s.object.info ∷ s.calls)) [
      | none ↦ 0
      | some q ↦ elim q [ none ↦ 1 | some n ↦ 0 ]
    ],
    grind (arith, ok.gives_reply, ok.gives_queue),
  )

  prepare_consumer_total : (s : Session) → (prepare_consumer amqp s).0 ≡ returned tt
  unfolding prepare_consumer die_on_amqp_error
  prepare_consumer_total s = grind (arith, ok.gives_reply)

  -- `open` returns, from any client, if every socket can be had and opened, every reply is normal
  -- and every declaration is answered.
  pub open_consumer_total :
      (i : MessageBrokerInfo) (s : Session) → (open_consumer amqp i s).0 ≡ returned tt
  unfolding open_consumer
  open_consumer_total i s =
      let s1 = (set_info i s).1 in
      let h1 = open_socket_total s1 in
      let t1 = (open_socket amqp s1).1 in
      let (k, o1, _) = open_socket_returned amqp s1 0 h1 in
      let n1 : t1.object.socket ≢ none = ground (arith, ap (λ (b : MessageBroker). b.socket) o1) in
      let h2 = exchange_declare_total i t1 n1 in
      let t2 = (exchange_declare amqp i t1).1 in
      let (o2, _) = exchange_declare_returned amqp t1 i h2 in
      let n2 : t2.object.socket ≢ none = rw o2 n1 in
      let (_, h3) = prepare_total t2 n2 in
      bind-returned (open_socket amqp) _ s1 h1 (
        bind-returned (exchange_declare amqp i) _ t1 h2
          (bind-returned (prepare amqp) _ t2 h3 (prepare_consumer_total (prepare amqp t2).1)))
