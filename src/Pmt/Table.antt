-- ===== src/Pmt/Table.antt =====
-- pmt_table_struct and the STREAM_TYPE_* and STREAM_DESCRIPTOR_* values of include/tsdecode.h.
use opensrthub.Base.{ℕ, Option, List, [], ◌∷◌, replicate}

abbrev pub max_pmt_pids : ℕ
max_pmt_pids = 256

abbrev pub max_table_size : ℕ
max_table_size = 1024

-- MAX_STREAMS, the length of the arrays of an entry.
abbrev pub array_size : ℕ
array_size = 64

-- TSHARDEN_MAX_STREAMS and TSHARDEN_MAX_DESCRIPTORS, the caps of the decoder.
abbrev pub max_streams : ℕ
max_streams = 32

abbrev pub max_descriptors : ℕ
max_descriptors = 64

abbrev pub unknown_audio : ℕ
unknown_audio = 0xde

abbrev pub unknown_video : ℕ
unknown_video = 0xad

abbrev pub mpeg2 : ℕ
mpeg2 = 1

abbrev pub h264 : ℕ
h264 = 2

abbrev pub hevc : ℕ
hevc = 3

abbrev pub ac3 : ℕ
ac3 = 4

abbrev pub aac : ℕ
aac = 6

abbrev pub mpeg : ℕ
mpeg = 7

abbrev pub scte35 : ℕ
scte35 = 8

abbrev pub av1 : ℕ
av1 = 9

-- Position `i` of the arrays stream_pid, stream_type, decoded_stream_type, decoded_language_tag,
-- first_pts, first_dts, last_pts, last_dts and audio_stream_index; `none` is -1.
pub record Stream : Type 0 where
  pub stream_pid : ℕ
  pub stream_type : ℕ
  pub decoded_stream_type : ℕ
  pub decoded_language_tag : List ℕ
  pub first_pts : Option ℕ
  pub first_dts : Option ℕ
  pub last_pts : Option ℕ
  pub last_dts : Option ℕ
  pub audio_stream_index : Option ℕ

-- Position `i` of the arrays descriptor_id and descriptor_size.
pub record Descriptor : Type 0 where
  pub descriptor_id : ℕ
  pub descriptor_size : ℕ

-- pmt_table_struct without its timers, its unused data arrays and its PES buffers.
pub record Pmt : Type 0 where
  pub pmt_data : List ℕ
  pub pmt_data_size : ℕ
  pub pmt_pid : ℕ
  pub pmt_program_number : ℕ
  pub pmt_version : ℕ
  pub pmt_valid : ℕ
  pub current_pmt_section : ℕ
  pub previous_pmt_section : ℕ
  pub pcr_pid : ℕ
  pub program_info_length : ℕ
  pub audio_stream_count : ℕ
  pub scte35_stream_count : ℕ
  pub descriptors : List Descriptor
  pub descriptor_count : ℕ
  pub streams : List Stream
  pub stream_count : ℕ

-- pmt_table_entries of master_pat_table, and master_pmt_table.
pub record Tables : Type 0 where
  pub pmt_table_entries : ℕ
  pub master_pmt_table : List Pmt

abbrev pub no_language : List ℕ
no_language = 0 ∷ 0 ∷ 0 ∷ 0 ∷ []

-- An entry of zeroed memory: 0 is an audio index too, so nothing below stream_count is one of these.
abbrev pub zeroed_stream : Stream
zeroed_stream = record {
  stream_pid = 0;
  stream_type = 0;
  decoded_stream_type = 0;
  decoded_language_tag = no_language;
  first_pts = Option.some 0;
  first_dts = Option.some 0;
  last_pts = Option.some 0;
  last_dts = Option.some 0;
  audio_stream_index = Option.some 0;
}

abbrev pub zeroed_pmt : Pmt
zeroed_pmt = record {
  pmt_data = replicate max_table_size 0;
  pmt_data_size = 0;
  pmt_pid = 0;
  pmt_program_number = 0;
  pmt_version = 0;
  pmt_valid = 0;
  current_pmt_section = 0;
  previous_pmt_section = 0;
  pcr_pid = 0;
  program_info_length = 0;
  audio_stream_count = 0;
  scte35_stream_count = 0;
  descriptors = replicate array_size (record { descriptor_id = 0; descriptor_size = 0 });
  descriptor_count = 0;
  streams = replicate array_size zeroed_stream;
  stream_count = 0;
}

-- The tables of a transport_data_struct from create_transport_data, which is zeroed memory.
unfoldable pub create_tables : Tables
create_tables = record {
  pmt_table_entries = 0;
  master_pmt_table = replicate max_pmt_pids zeroed_pmt;
}
