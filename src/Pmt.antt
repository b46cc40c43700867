-- ===== src/Pmt.antt =====
-- source/tsdecode.c, the decoder of program map tables (decode_pmt_table) and the readers of what it
-- keeps (find_monitored_index, get_scte35_pid, get_pid_summary).
pub mod Table
pub mod Streams
pub mod Decode
pub mod Numbering
pub mod Pending
pub mod AddStream
pub mod EndWait
pub mod Totality
pub mod StreamLoop
pub mod Entry
pub mod Slots
pub mod Update
pub mod Runs
pub mod Select
pub mod Monitored
pub mod AudioSteps
pub mod AudioSummary
mod Tests
