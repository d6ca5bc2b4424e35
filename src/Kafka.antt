-- ===== src/Kafka.antt =====
-- libs/taobao_events/kafka.py: the client settings, and the publisher that both ingress paths use.
pub mod Settings
pub mod Publisher
pub mod Building
