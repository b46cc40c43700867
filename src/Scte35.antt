-- ===== src/Scte35.antt =====
-- source/tsdecode.c, the SCTE-35 decoder (scte35_* functions), and scte35_data_struct of
-- include/tsdecode.h. `Cue` is the record that a decode fills, `Reader` the bounded reads, and each
-- further definition module translates one parser function; the others prove.
pub mod Cue
pub mod Reader
pub mod Insert
pub mod Segment
pub mod Section
pub mod Safety
pub mod SectionSafety
pub mod Encode
pub mod RoundTrip
pub mod Direction
mod Tests
