-- ===== src/Broker/Consumer/Opening.antt =====
-- What `MessageBrokerConsumer::open` has asked of the server when it returns.
use cpp_client_rabbit_mq.Common.{ℕ, true, ◌≡◌, some, ◌∷◌, arith, ◌∙◌}
use cpp_client_rabbit_mq.Broker.Act.{returned, returned-bind}
use cpp_client_rabbit_mq.Broker.Info.{MessageBrokerInfo}
use cpp_client_rabbit_mq.Broker.Amqp.{Amqp, Call, History}
use cpp_client_rabbit_mq.Broker.Base.{
  Session, MessageBroker, set_info, open_socket, exchange_declare, prepare, prepare_consumer,
  is_some, declare_call,
}
use cpp_client_rabbit_mq.Broker.Base.Opening.{
  socket_script, exchange_script, consumer_script, with_queue_name, declared_name,
  open_socket_returned, exchange_declare_returned, prepare_returned, prepare_consumer_returned,
}
use cpp_client_rabbit_mq.Broker.Consumer.{open_consumer}

-- The calls up to the declaration of the queue, the newest first.
abbrev pub declared_script : MessageBroker → ℕ → MessageBrokerInfo → History → History
declared_script b socket i calls =
    declare_call b.conn i ∷ exchange_script b.conn i.channel i (socket_script b.conn socket i calls)

-- The whole conversation.
abbrev pub open_script : MessageBroker → ℕ → MessageBrokerInfo → History → History
open_script b socket i calls =
    consumer_script b.conn i b.info.queue.queue_name
      (Call.get_rpc_reply b.conn ∷ declared_script b socket i calls)

module _ (amqp : Amqp) where
  -- When `open` returns, the library has been asked, in this order and with the arguments of the
  -- configuration, for a connection, a socket, its opening, a login, a channel, the declaration of
  -- the exchange and of the queue, the binding and the consumption, with a check of the reply after
  -- each step from the channel on but the binding, and for nothing else. The declaration of the queue
  -- was answered. The queue that is bound and read from, and that the client keeps, has the name of
  -- the configuration, or where that has none, the name in this answer. The rest of the configuration
  -- is unchanged.
  pub open_consumer_returned :
      (i : MessageBrokerInfo) (s : Session)
      → (open_consumer amqp i s).0 ≡ returned tt
      → let t = (open_consumer amqp i s).1 in
        (socket : ℕ) × (t.object.socket ≡ some socket)
        × (t.calls ≡ open_script t.object socket i s.calls)
        × (let answer = amqp.queue_of (declared_script t.object socket i s.calls) in
            (is_some answer ≡ true) × (t.object.info ≡ with_queue_name i (declared_name i answer)))
  unfolding open_consumer
  open_consumer_returned i s h =
      let s1 = (set_info i s).1 in
      let (n, h1, e1) = returned-bind (open_socket amqp) _ s1 h in
      let t1 = (open_socket amqp s1).1 in
      let (u, h2, e2) = returned-bind (exchange_declare amqp i) _ t1 (rw e1 at h) in
      let t2 = (exchange_declare amqp i t1).1 in
      let (m, h3, e3) = returned-bind (prepare amqp) _ t2 (rw (e1 ∙ e2) at h) in
      let t3 = (prepare amqp t2).1 in
      let e = e1 ∙ e2 ∙ e3 in
      let h4 : (prepare_consumer amqp t3).0 ≡ returned tt = rw e at h in
      let (socket, o1, c1) = open_socket_returned amqp s1 n h1 in
      let (o2, c2) = exchange_declare_returned amqp t1 i h2 in
      let (o3, c3, _, named) = prepare_returned amqp t2 m h3 in
      let (o4, c4) = prepare_consumer_returned amqp t3 h4 in
      rw e (socket, ground arith, ground arith, (ground arith, ground arith))
