-- ===== src/Rpc/Main/Meeting.antt =====
-- The two programs talk to each other, whatever their command lines.
use cpp_client_rabbit_mq.Common.{ℕ, ◌≡◌, refl, false, Bytes, List, codes, is_empty, HasNoNul, some}
use cpp_client_rabbit_mq.Broker.Act.{Act, returned}
use cpp_client_rabbit_mq.Broker.Amqp.{Amqp, Envelope}
use cpp_client_rabbit_mq.Broker.Producer.{publish_properties, publish_routing_key}
use cpp_client_rabbit_mq.Broker.Consumer.{open_consumer, read}
use cpp_client_rabbit_mq.Rpc.Program.{Program}
use cpp_client_rabbit_mq.Rpc.Server.{serve, response}
use cpp_client_rabbit_mq.Rpc.Client.{Memory, request}
use cpp_client_rabbit_mq.Rpc.Setup.{
  Options, default_options, server_setup, client_setup, server_producer_info, client_producer_info,
  server_consumer_info, client_consumer_info,
}
use cpp_client_rabbit_mq.Rpc.Setup.Routing.{routing_keys_meet}
use cpp_client_rabbit_mq.Rpc.Setup.{client_app_id}
use cpp_client_rabbit_mq.Rpc.Main.{
  Description, OptionLibrary, parse_options, with_options, server_description, client_description,
  server_main, client_main, call_loop,
}
use cpp_client_rabbit_mq.Rpc.Main.Producing.{
  Produces, Keeps-serve, Keeps-call_loop, Keeps-after, setup-Produces,
}

-- A command line that is accepted and does not ask for help.
accepted :
    {A : Type 0} (library : OptionLibrary) (description : Description) (arguments : List Bytes)
    (vm : library.VariablesMap) (act : Options → Act Program A) (p : Program)
    → library.store description arguments ≡ some vm
    → library.count vm (codes "help") ≡ 0
    → (with_options library description arguments act p).1
      ≡ (act (library.notify vm default_options) p).1
unfolding with_options parse_options
accepted library description arguments vm act p h k = rw (with_options, parse_options, h, k) refl

module _ (amqp : Amqp) (library : OptionLibrary) (vm : library.VariablesMap)
    (arguments : List Bytes) (o : Options) (p : Program) where
  server_main-Produces :
      (rounds : ℕ)
      → library.store server_description arguments ≡ some vm
      → library.count vm (codes "help") ≡ 0
      → library.notify vm default_options ≡ o
      → (server_setup amqp o p).0 ≡ returned tt
      → Produces (server_producer_info o) (server_main amqp library arguments rounds p).1
  unfolding server_main server_setup
  server_main-Produces rounds h k read returns =
      rw (accepted library server_description arguments vm _ p h k, read)
        (Keeps-after (server_setup amqp o) (serve amqp o.ttl_expires rounds) p returns
          (setup-Produces amqp (open_consumer amqp (server_consumer_info o))
            (server_producer_info o) p returns)
          (Keeps-serve amqp o.ttl_expires rounds))

  client_main-Produces :
      (mem : Memory) (own : Bytes) (fuel rounds : ℕ)
      → library.store client_description arguments ≡ some vm
      → library.count vm (codes "help") ≡ 0
      → library.notify vm default_options ≡ o
      → (client_setup amqp own o p).0 ≡ returned tt
      → Produces
          (client_producer_info o)
          (client_main amqp mem library arguments own fuel rounds p).1
  unfolding client_main client_setup
  client_main-Produces mem own fuel rounds h k read returns =
      let app_id = client_app_id own o in
      rw (accepted library client_description arguments vm _ p h k, read)
        (Keeps-after (client_setup amqp own o)
          (call_loop amqp mem fuel o.ttl_expires o.routing_key_response app_id rounds 0) p returns
          (setup-Produces amqp (open_consumer amqp (client_consumer_info own o))
            (client_producer_info o) p returns)
          (Keeps-call_loop amqp mem app_id fuel o.ttl_expires o.routing_key_response rounds 0))

module _ (amqp_s amqp_c : Amqp) (mem : Memory) (library : OptionLibrary)
    (vm_s vm_c : library.VariablesMap) where
  -- Let both programs read the same options from their command lines, without a call for help, let
  -- the setup of both return, and let the response key be a text with no NUL that is not empty.
  -- However many rounds each then does, and however these end: a request of the client goes to the
  -- exchange of the server, under the key of the server's queue, and the server's answer to it, if it
  -- receives what was published, goes to the exchange of the client, under the key of the client's
  -- queue.
  pub mains_meet :
      (server_arguments client_arguments : List Bytes) (o : Options) (own app corr : Bytes)
      (server_rounds fuel client_rounds : ℕ) (p q : Program) (e : Envelope)
      → library.store server_description server_arguments ≡ some vm_s
      → library.store client_description client_arguments ≡ some vm_c
      → library.count vm_s (codes "help") ≡ 0
      → library.count vm_c (codes "help") ≡ 0
      → library.notify vm_s default_options ≡ o
      → library.notify vm_c default_options ≡ o
      → (server_setup amqp_s o p).0 ≡ returned tt
      → (client_setup amqp_c own o q).0 ≡ returned tt
      → HasNoNul o.routing_key_response
      → is_empty o.routing_key_response ≡ false
      → e.properties ≡ publish_properties (request o.ttl_expires o.routing_key_response app corr)
      → let asked = request o.ttl_expires o.routing_key_response app corr in
        let c =
          (client_main amqp_c mem library client_arguments own fuel client_rounds q).1.producer in
        let s = (server_main amqp_s library server_arguments server_rounds p).1.producer in
        (publish_routing_key c asked ≡ (server_consumer_info o).queue.routing_key)
        × (c.info.exchange ≡ (server_consumer_info o).exchange)
        × (publish_routing_key s (response o.ttl_expires o.routing_key_request e)
            ≡ (client_consumer_info own o).queue.routing_key)
        × (s.info.exchange ≡ (client_consumer_info own o).exchange)
  mains_meet sargs cargs o own app corr n fuel m p q e hs hc ns nc os oc rs rc clean full he =
      routing_keys_meet o own app corr o.ttl_expires o.ttl_expires
        (client_main amqp_c mem library cargs own fuel m q).1.producer
        (server_main amqp_s library sargs n p).1.producer e clean full
        (client_main-Produces amqp_c library vm_c cargs o q mem own fuel m hc nc oc rc)
        (server_main-Produces amqp_s library vm_s sargs o p n hs ns os rs) he
