-- ===== src/Infra.antt =====
-- infra/: the serial line and the message queue. The operating system's answers are arguments.
pub mod Rs485
pub mod Mq
pub mod Ack
