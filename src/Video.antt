-- ===== src/Video.antt =====
-- source/srthub.c, the tracker of video format changes (format_change_update) and the probes of H.264
-- data (unescape_rbsp, the bit reader, h264_slice_type, h264_has_recovery_point).
pub mod Format
pub mod Changes
pub mod Repeats
pub mod Nal
pub mod Escape
pub mod Sei
pub mod Golomb
pub mod Termination
mod Tests
