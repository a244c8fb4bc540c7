-- ===== src/Broker/Consumer/Ends.antt =====
-- Every way in which `MessageBrokerConsumer::open` can end.
use cpp_client_rabbit_mq.Common.{ℕ, ◌≡◌, ◌≢◌, Option, none, ◌∷◌, arith, true}
use cpp_client_rabbit_mq.Broker.Act.{BrokerException}
use cpp_client_rabbit_mq.Broker.Act.Ends.{Ends, Ends-bind}
use cpp_client_rabbit_mq.Broker.Info.{MessageBrokerInfo}
use cpp_client_rabbit_mq.Broker.Errors.{die_on_amqp_error}
use cpp_client_rabbit_mq.Broker.Amqp.{Amqp, Call, History, normal}
use cpp_client_rabbit_mq.Broker.Base.{
  Session, set_info, open_socket, exchange_declare, prepare, prepare_consumer, declare_call,
  is_some,
}
use cpp_client_rabbit_mq.Broker.Consumer.{open_consumer}

-- The library gives the answer of a declaration that the server has accepted.
abbrev pub AnswersDeclaration : Amqp → Type 0
AnswersDeclaration amqp =
    (conn : Option ℕ) (i : MessageBrokerInfo) (h : History)
    → (amqp.reply_of (Call.get_rpc_reply conn ∷ declare_call conn i ∷ h)).reply_type ≡ normal
    → amqp.queue_of (declare_call conn i ∷ h) ≢ none

abbrev HasSocket : Session → Type 0
HasSocket s = is_some s.object.socket ≡ true

-- No socket is kept, and the connection is the one that was made.
abbrev pub HasConnectionOnly : Amqp → History → BrokerException → Session → Type 0
HasConnectionOnly amqp calls e s =
    (s.object.socket ≡ none) × (s.object.conn ≡ amqp.connection_of (Call.new_connection ∷ calls))

module _ (amqp : Amqp) where
  open_socket-Ends :
      (s : Session)
      → s.object.socket ≡ none
      → Ends
          (λ _ t. HasSocket t)
          (HasConnectionOnly amqp s.calls)
          (open_socket amqp s).0
          (open_socket amqp s).1
  unfolding open_socket die_on_amqp_error
  open_socket-Ends s h = ground arith

  module _ (Q : BrokerException → Session → Type 0) where
    exchange_declare-Ends :
        (i : MessageBrokerInfo) (s : Session)
        → HasSocket s
        → Ends (λ _ t. HasSocket t) Q (exchange_declare amqp i s).0 (exchange_declare amqp i s).1
    unfolding exchange_declare die_on_amqp_error
    exchange_declare-Ends i s h = ground arith

    prepare-Ends :
        AnswersDeclaration amqp
        → (s : Session) → HasSocket s
        → Ends (λ _ t. HasSocket t) Q (prepare amqp s).0 (prepare amqp s).1
    unfolding prepare die_on_amqp_error
    prepare-Ends d s h = ground (arith, d s.object.conn s.object.info s.calls)

    prepare_consumer-Ends :
        (s : Session)
        → HasSocket s
        → Ends (λ _ t. HasSocket t) Q (prepare_consumer amqp s).0 (prepare_consumer amqp s).1
    unfolding prepare_consumer die_on_amqp_error
    prepare_consumer-Ends s h = ground arith

  -- From a client with no socket, whatever the server answers, `open` never fails an assertion and
  -- never uses a null pointer, if the library gives the answer of an accepted declaration. When it
  -- returns there is a socket; when it throws there is none, and the connection is the new one.
  pub open_consumer-Ends :
      AnswersDeclaration amqp
      → (i : MessageBrokerInfo) (s : Session) → s.object.socket ≡ none
      → let r = open_consumer amqp i s in
        Ends (λ _ t. is_some t.object.socket ≡ true) (HasConnectionOnly amqp s.calls) r.0 r.1
  unfolding open_consumer
  open_consumer-Ends d i s h =
      let Q = HasConnectionOnly amqp s.calls in
      Ends-bind _ Q (λ _ t. HasSocket t) (open_socket amqp) _ (set_info i s).1
        (open_socket-Ends (set_info i s).1 h)
        λ _ t1 h1.
          Ends-bind _ Q (λ _ t. HasSocket t) (exchange_declare amqp i) _ t1
            (exchange_declare-Ends Q i t1 h1)
            λ _ t2 h2.
              Ends-bind _ Q (λ _ t. HasSocket t) (prepare amqp) _ t2 (prepare-Ends Q d t2 h2)
                λ _ t3 h3. prepare_consumer-Ends Q t3 h3
