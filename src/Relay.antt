-- ===== src/Relay.antt =====
-- source/srthub.c: the packets between the receivers and the senders, in buffers of two pools.
pub mod Hub
pub mod Owned
pub mod Made
pub mod Balance
pub mod Run
mod Tests
