-- ===== src/Cues.antt =====
-- receive_frame of source/srthub.c on a sample of a SCTE-35 stream: which cues are reported.
pub mod Recent
pub mod Receive
pub mod Keys
pub mod Suppressed
pub mod Table
pub mod Repeats
pub mod Reported
mod Tests
