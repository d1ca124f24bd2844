-- ===== src/H2Send.antt =====
-- protocol/h2_send.py: the buffers between the streams and an HTTP/2 connection.
pub mod Buffer
pub mod Scheduler
mod Tests
