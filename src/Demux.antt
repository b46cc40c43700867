-- ===== src/Demux.antt =====
-- source/tsdecode.c, the packet demultiplexer (decode_packets) with the state that it keeps between
-- packets. Its calls of scte35_decode_section and decode_pmt_table are those of Scte35 and Pmt.
pub mod State
pub mod Header
pub mod Sections
pub mod Programs
pub mod Frames
pub mod Stream
pub mod Packets
pub mod Store
pub mod Valid
pub mod Collected
pub mod Stamps
pub mod Streaming
pub mod Safety
pub mod Placing
pub mod PacketSafety
pub mod Destroy
pub mod Untouched
pub mod Payload
pub mod Counted
pub mod Decoded
pub mod Reassembly
pub mod Pes
pub mod Delivered
pub mod Continuity
pub mod Counts
pub mod Association
pub mod PatRoundTrip
mod Tests
mod StreamTests
