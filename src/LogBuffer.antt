-- ===== src/LogBuffer.antt =====
-- daemon/logger/logbuffer: a queue of log messages, the byte-bounded buffer on top of it, and the
-- log driver that writes through the buffer.
pub mod Queue
pub mod Ring
pub mod Driver
mod Tests
