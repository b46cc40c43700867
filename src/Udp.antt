-- ===== src/Udp.antt =====
-- source/udpsource.c: the table of the UDP sockets that the process has open, and the calls on it.
pub mod Table
pub mod Open
pub mod Slots
pub mod Owned
pub mod Destroy
mod Tests
