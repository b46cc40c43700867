-- ===== src/Demux/Programs.antt =====
-- decode_packets of source/tsdecode.c: the program association section. The times between the
-- sections are left out. `none` is an access outside the packet.
use opensrthub.Base.{
  ℕ, zero, suc, ◌+◌, ◌-◌, ◌/◌, ◌%◌, ◌^◌, Bool, true, false, not, Option, none, some, List, ltb, leb,
  ◌==◌, if◌then◌else◌, length, set, replicate,
}
use opensrthub.Pmt.Table.{max_pmt_pids}
use opensrthub.Demux.State.{Decoder, ts_packet_size}
use opensrthub.Demux.Header.{octet, word}
use opensrthub.Demux.Sections.{version_at}

abbrev pub lesser : ℕ → ℕ → ℕ
lesser a b = if ltb b a then b else a

-- The programs that the section names, which the packet holds and for which there is room.
unfoldable pub section_entries : ℕ → ℕ → ℕ
section_entries section_size available =
    lesser (lesser ((section_size - 9) / 4) ((available - 9) / 4)) max_pmt_pids

-- Number 0 stands for the network information and is passed over.
unfoldable pub add_program : ℕ → ℕ → Decoder → Decoder
add_program number pmt_pid d =
    let count = d.transport.pmt_pid_count in
    if number == 0
    then d
    else if ltb count max_pmt_pids
    then record d {
      pmt_pid_index = set d.pmt_pid_index count pmt_pid;
      transport = record d.transport {
        pmt_pid_count = suc count;
        pat_program_number = set d.transport.pat_program_number count number;
      };
    }
    else d

-- `k` entries of four bytes from offset `e` on.
unfoldable pub add_programs : List ℕ → ℕ → ℕ → Decoder → Option Decoder
unfolding add_program
add_programs p zero e d = some d
add_programs p (suc k) e d =
    let rest = add_programs p k (e + 4) (add_program (word p e) (word p (e + 2) % 2 ^ 13) d) in
    if leb (length p) (e + 3) then none else rest

-- The version of another transport stream is forgotten.
abbrev pub known_version : ℕ → Decoder → Option ℕ
known_version stream_id d =
    if d.pat_transport_stream_id == stream_id then d.pat_version_number else none

-- Without a version, or with another one, the section is taken.
abbrev pub is_fresh : Option ℕ → ℕ → Bool
is_fresh o version = elim o [ none ↦ true | some v ↦ not (version == v) ]

unfoldable pub take_section : List ℕ → ℕ → ℕ → ℕ → ℕ → Decoder → Option Decoder
unfolding add_programs
take_section p q entries stream_id version d =
    let known = known_version stream_id d in
    if is_fresh known version
    then add_programs p entries (q + 9) (record d {
      pat_version_number = some version;
      pat_program_count = entries;
      pat_transport_stream_id = stream_id;
      pat_position = elim known [ none ↦ d.total_input_packets | some v ↦ d.pat_position ];
      pmt_decoded = replicate max_pmt_pids false;
      transport = record d.transport { pmt_pid_count = 0 };
    })
    else some d

unfoldable pub decode_pat : List ℕ → ℕ → Decoder → Option Decoder
unfolding section_entries take_section
decode_pat p before d =
    let unit_size = octet p before in
    let available = ts_packet_size - before - unit_size in
    let q = before + unit_size in
    let section_size = word p (q + 2) % 2 ^ 12 in
    if leb (length p) before
    then none
    else if ltb (ts_packet_size - before) (unit_size + 9)
    then some d
    else if leb (length p) (q + 8)
    then none
    else if ltb section_size 9
    then some d
    else take_section p q (section_entries section_size available) (word p (q + 4))
        (version_at p (q + 6)) d
