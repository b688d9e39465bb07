-- ===== src/Rabbitmq.antt =====
-- crates/rabbitmq: the backend on RabbitMQ, but for its topology (Topology) and its reconnect policy
-- (Reconnect). What lapin and the broker do is an argument or a step of the environment.
pub mod Options
pub mod Codec
pub mod Errors
pub mod Calls
pub mod Connection
pub mod Publisher
pub mod Declare
pub mod Delivery
pub mod Samples
pub mod Settle
pub mod Stream
pub mod Pool
