-- ===== src/Broker/Producer/Opening.antt =====
-- What `MessageBrokerProducer::open` has asked of the server when it returns.
use cpp_client_rabbit_mq.Common.{ℕ, ◌≡◌, some, arith}
use cpp_client_rabbit_mq.Broker.Act.{returned, returned-bind}
use cpp_client_rabbit_mq.Broker.Info.{MessageBrokerInfo}
use cpp_client_rabbit_mq.Broker.Amqp.{Amqp}
use cpp_client_rabbit_mq.Broker.Base.{Session, set_info, open_socket}
use cpp_client_rabbit_mq.Broker.Base.Opening.{
  socket_script, exchange_script, open_socket_returned, exchange_declare_returned,
}
use cpp_client_rabbit_mq.Broker.Producer.{open_producer}

module _ (amqp : Amqp) where
  -- A producer that is open has connected, logged in, opened its channel and declared its
  -- exchange, in this order and with the arguments of its configuration, and has asked nothing
  -- else: in particular it has declared no queue.
  pub open_producer_returned :
      (i : MessageBrokerInfo) (s : Session)
      → (open_producer amqp i s).0 ≡ returned tt
      → let t = (open_producer amqp i s).1 in
        (socket : ℕ) × (t.object
          ≡ record (s.object) { info = i; conn = t.object.conn; socket = some socket })
        × (t.calls
            ≡ exchange_script t.object.conn i.channel i
                (socket_script t.object.conn socket i s.calls))
  unfolding open_producer
  open_producer_returned i s h =
      let s1 = (set_info i s).1 in
      let (n, h1, e1) = returned-bind (open_socket amqp) _ s1 h in
      let t1 = (open_socket amqp s1).1 in
      let (socket, o1, c1) = open_socket_returned amqp s1 n h1 in
      let (o2, c2) = exchange_declare_returned amqp t1 i (rw e1 at h) in
      rw e1 (socket, ground arith, ground arith)
