-- ===== src/Demux/State.antt =====
-- transport_data_struct, data_engine_struct and packet_table_struct of include/tsdecode.h, with the
-- file's static total_input_packets, and create_transport_data of source/tsdecode.c. The wall-clock
-- members, which only hold times of reception, are left out.
use opensrthub.Base.{ℕ, Bool, Option, List, replicate}
use opensrthub.Scte35.Cue.{Cue}
use opensrthub.Pmt.Table.{create_tables, max_pmt_pids, max_table_size}
use opensrthub.Pmt.Select.{Transport}

abbrev pub max_pids : ℕ
max_pids = 1024

abbrev pub max_buffer_size : ℕ
max_buffer_size = 4194304

-- The bytes of a packet, and those behind its header.
abbrev pub ts_packet_size : ℕ
ts_packet_size = 188

abbrev pub ts_payload_size : ℕ
ts_payload_size = 184

-- packet_table_struct.
pub record PacketEntry : Type 0 where
  pub pid : ℕ
  pub input_packets : ℕ
  pub valid : Bool

-- data_engine_struct: `buffer` is the memory behind the pointer, of which the first `data_index`
-- bytes are filled.
pub record Engine : Type 0 where
  pub actual_data_size : ℕ
  pub wanted_data_size : ℕ
  pub data_index : ℕ
  pub buffer : Option (ℕ → ℕ)
  pub pts : ℕ
  pub dts : ℕ
  pub last_cc : Option ℕ
  pub flags : ℕ
  pub corruption_count : ℕ
  pub pes_aligned : ℕ
  pub video_frame_count : ℕ

-- `none` is -1. pmt_version is never -1, since it starts at 0 and takes only versions.
pub record Decoder : Type 0 where
  pub transport : Transport
  pub master_packet_table : List PacketEntry
  pub received_ts_packets : ℕ
  pub total_input_packets : ℕ
  pub initial_pcr_base : ℕ → Option ℕ
  pub initial_pcr_ext : ℕ
  pub pmt_position : ℕ
  pub pmt_data_size : ℕ
  pub pmt_table_acquired : ℕ
  pub pmt_table_expected : ℕ
  pub pmt_pid_index : List ℕ
  pub pmt_decoded : List Bool
  pub pmt_version : List ℕ
  pub pmt_data : List ℕ
  pub pat_program_count : ℕ
  pub pat_version_number : Option ℕ
  pub pat_position : ℕ
  pub pat_transport_stream_id : ℕ
  pub first_frame_intra : Bool
  pub data_engine : ℕ → ℕ → Engine

-- The arguments of a call of send_frame_func, but its context and the source's number.
pub record Frame : Type 0 where
  pub sample : List ℕ
  pub sample_type : ℕ
  pub intra : Bool
  pub frame_pts : ℕ
  pub frame_dts : ℕ
  pub sub_source : Option ℕ
  pub lang_tag : List ℕ
  pub corruptions : ℕ
  pub muxstreams : ℕ

-- What the registered callback is given.
pub data Event : Type 0 where
  sent : Frame → Event
  cued : Cue → Event

-- What a packet meets: whether a callback is registered, what malloc returns, with the bytes that
-- the memory holds, and whether thirty seconds have gone by since the count of frames began.
pub record World : Type 0 where
  pub registered : Bool
  pub allocated : Option (ℕ → ℕ)
  pub late : Bool

abbrev pub zeroed_engine : Engine
zeroed_engine = record {
  actual_data_size = 0;
  wanted_data_size = 0;
  data_index = 0;
  buffer = Option.none;
  pts = 0;
  dts = 0;
  last_cc = Option.some 0;
  flags = 0;
  corruption_count = 0;
  pes_aligned = 0;
  video_frame_count = 0;
}

abbrev pub unseen : PacketEntry
unseen = record { pid = 0; input_packets = 0; valid = Bool.false }

-- calloc, which gives zeroed memory, and the version -1. The first packet of the process.
unfoldable pub create_transport_data : Decoder
unfolding create_tables
create_transport_data = record {
  transport = record {
    tables = create_tables;
    pmt_pid_count = 0;
    pat_program_number = replicate max_pmt_pids 0;
    selected_program = 0;
  };
  master_packet_table = replicate max_pids unseen;
  received_ts_packets = 0;
  total_input_packets = 0;
  initial_pcr_base = λ pid. Option.some 0;
  initial_pcr_ext = 0;
  pmt_position = 0;
  pmt_data_size = 0;
  pmt_table_acquired = 0;
  pmt_table_expected = 0;
  pmt_pid_index = replicate max_pmt_pids 0;
  pmt_decoded = replicate max_pmt_pids Bool.false;
  pmt_version = replicate max_pmt_pids 0;
  pmt_data = replicate max_table_size 0;
  pat_program_count = 0;
  pat_version_number = Option.none;
  pat_position = 0;
  pat_transport_stream_id = 0;
  first_frame_intra = Bool.false;
  data_engine = λ i j. zeroed_engine;
}
