-- ===== src/Broker/Consumer/Lifecycle.antt =====
-- A consumer whose `open` has thrown, and its destructor.
use cpp_client_rabbit_mq.Broker.Amqp.{Amqp}
