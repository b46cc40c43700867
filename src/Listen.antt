-- ===== src/Listen.antt =====
-- source/srthub.c: how a listener's SRT socket is made and bound, again and again while that fails.
pub mod Create
pub mod Retry
pub mod Sockets
pub mod Reports
pub mod Rate
mod Tests
