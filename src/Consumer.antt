-- ===== src/Consumer.antt =====
-- The Kafka consumer that the services run their handlers in (pkg/kafka/consumer.go). The reader is
-- a parameter: the outcomes of its fetches and commits are given as a list of deliveries.
pub mod Loop
pub mod Order
pub mod Counters
