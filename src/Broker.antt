-- ===== src/Broker.antt =====
-- The broker module: clients of a RabbitMQ server over the AMQP library.
pub mod Act
pub mod Info
pub mod Amqp
pub mod Errors
pub mod Dump
pub mod Base
pub mod Consumer
pub mod Producer
pub mod Wrapper
