-- ===== src/Pmt/Select.antt =====
-- The program that source/tsdecode.c monitors (select_transport_program, find_monitored_index,
-- monitored_program_index), and what it reports of it (get_scte35_pid, get_pid_summary). The calls
-- of pmt_lock are left out: each of the two readers holds it throughout. A pointer that may be NULL
-- is an Option.
use opensrthub.Base.{
  ℤ, pos, negsuc, ℕ, zero, suc, Bool, true, false, ◌&&◌, ◌||◌, not, Option, none, some, List, [],
  ◌∷◌, ltb, leb, ◌==◌, if◌then◌else◌, get_or, set, take, replicate,
}
use opensrthub.Pmt.Table.{
  Stream, Pmt, Tables, max_pmt_pids, array_size, mpeg2, h264, hevc, av1, scte35, unknown_video,
  no_language, zeroed_pmt,
}

-- The members of transport_data_struct that these functions use.
pub record Transport : Type 0 where
  pub tables : Tables
  pub pmt_pid_count : ℕ
  pub pat_program_number : List ℕ
  pub selected_program : ℕ

abbrev pub max_audio_pids : ℕ
max_audio_pids = 8

abbrev pub max_programs : ℕ
max_programs = 32

-- pid_summary_struct.
pub record Summary : Type 0 where
  pub summary_pcr_pid : ℕ
  pub video_pid : ℕ
  pub video_stream_type : ℕ
  pub audio_pid_count : ℕ
  pub audio_pid : List ℕ
  pub audio_type : List ℕ
  pub audio_language : List (List ℕ)
  pub scte35_pid : ℕ
  pub program_count : ℕ
  pub program_number : ℕ
  pub requested_program : ℕ
  pub program_found : Bool
  pub program_list_count : ℕ
  pub program_list : List ℕ

abbrev pub no_summary : Summary
no_summary = record {
  summary_pcr_pid = 0;
  video_pid = 0;
  video_stream_type = 0;
  audio_pid_count = 0;
  audio_pid = replicate max_audio_pids 0;
  audio_type = replicate max_audio_pids 0;
  audio_language = replicate max_audio_pids no_language;
  scte35_pid = 0;
  program_count = 0;
  program_number = 0;
  requested_program = 0;
  program_found = false;
  program_list_count = 0;
  program_list = replicate max_programs 0;
}

-- A number outside 1 to 0xffff selects automatically.
unfoldable pub select_transport_program : ℤ → Transport → Transport
select_transport_program (pos n) t = record t {
  selected_program = if ltb 0 n && leb n 0xffff then n else 0;
}
select_transport_program (negsuc n) t = record t { selected_program = 0 }

abbrev pub entry_at : Transport → ℕ → Pmt
entry_at t i = get_or t.tables.master_pmt_table i zeroed_pmt

abbrev pub is_program : ℕ → Pmt → Bool
is_program n q = not (q.pmt_pid == 0) && q.pmt_program_number == n

-- The loop from `i` over `k` entries.
unfoldable pub find_program : Transport → ℕ → ℕ → Option ℕ
find_program t zero i = none
find_program t (suc k) i =
    let rest = find_program t k (suc i) in
    if is_program t.selected_program (entry_at t i) then some i else rest

abbrev pub entries_of : Transport → ℕ
entries_of t =
    if ltb max_pmt_pids t.tables.pmt_table_entries then max_pmt_pids else t.tables.pmt_table_entries

-- `none` is -1.
unfoldable pub find_monitored_index : Transport → Option ℕ
unfolding find_program
find_monitored_index t = if t.selected_program == 0 then some 0 else find_program t (entries_of t) 0

unfoldable pub monitored_program_index : Option Transport → Option ℕ
unfolding find_monitored_index
monitored_program_index none = none
monitored_program_index (some t) = find_monitored_index t

-- The entries that a reader walks: the first stream_count, or MAX_STREAMS if that is less.
abbrev pub walked : Pmt → List Stream
walked q = take (if ltb array_size q.stream_count then array_size else q.stream_count) q.streams

unfoldable pub first_scte35 : List Stream → ℕ
first_scte35 [] = 0
first_scte35 (s ∷ ss) =
    let rest = first_scte35 ss in if s.decoded_stream_type == scte35 then s.stream_pid else rest

unfoldable pub scte35_of : Transport → Option ℕ → ℕ
unfolding first_scte35
scte35_of t none = 0
scte35_of t (some i) = if ltb 0 t.pmt_pid_count then first_scte35 (walked (entry_at t i)) else 0

unfoldable pub get_scte35_pid : Option Transport → ℕ
unfolding find_monitored_index scte35_of
get_scte35_pid none = 0
get_scte35_pid (some t) = scte35_of t (find_monitored_index t)

unfoldable pub is_video_stream_type : ℕ → Bool
is_video_stream_type t =
    t == mpeg2 || (t == h264 || (t == hevc || (t == av1 || t == unknown_video)))

-- An audio stream is kept under its index, where that is below the cap.
unfoldable pub put_audio : ℕ → Stream → Summary → Summary
put_audio k s sum =
    if ltb k max_audio_pids
    then record sum {
      audio_pid = set sum.audio_pid k s.stream_pid;
      audio_type = set sum.audio_type k s.decoded_stream_type;
      audio_language = set sum.audio_language k s.decoded_language_tag;
      audio_pid_count = if ltb sum.audio_pid_count (suc k) then suc k else sum.audio_pid_count;
    }
    else sum

unfoldable pub put_other : Stream → Summary → Summary
unfolding is_video_stream_type
put_other s sum =
    if is_video_stream_type s.decoded_stream_type && sum.video_pid == 0
    then record sum { video_pid = s.stream_pid; video_stream_type = s.decoded_stream_type }
    else sum

unfoldable pub put_stream : Stream → Summary → Summary
unfolding put_audio put_other
put_stream s sum =
    if s.decoded_stream_type == scte35
    then if sum.scte35_pid == 0 then record sum { scte35_pid = s.stream_pid } else sum
    else elim s.audio_stream_index [ some k ↦ put_audio k s sum | none ↦ put_other s sum ]

unfoldable pub put_streams : List Stream → Summary → Summary
unfolding put_stream
put_streams [] sum = sum
put_streams (s ∷ ss) sum = put_streams ss (put_stream s sum)

-- `k` programs of the PAT from number `i` on, as far as the list has room.
unfoldable pub put_programs : List ℕ → ℕ → ℕ → Summary → Summary
put_programs programs zero i sum = sum
put_programs programs (suc k) i sum =
    let rest = put_programs programs k (suc i) (record sum {
      program_list = set sum.program_list i (get_or programs i 0);
      program_list_count = suc sum.program_list_count;
    }) in
    if ltb i max_programs then rest else sum

unfoldable pub put_monitored : Pmt → Summary → Summary
unfolding put_streams
put_monitored q sum =
    if q.pmt_pid == 0
    then sum
    else put_streams (walked q) (record sum {
      summary_pcr_pid = q.pcr_pid;
      program_number = q.pmt_program_number;
      program_found = true;
    })

unfoldable pub summary_of : Transport → Option ℕ → Summary → Summary
unfolding put_monitored
summary_of t none sum = sum
summary_of t (some i) sum = if ltb 0 t.pmt_pid_count then put_monitored (entry_at t i) sum else sum

-- The result is `false` for -1. The summary is not NULL.
unfoldable pub get_pid_summary : Option Transport → Bool × Summary
unfolding put_programs summary_of find_monitored_index
get_pid_summary none = (false, no_summary)
get_pid_summary (some t) = (
  true,
  summary_of t (find_monitored_index t) (
      put_programs t.pat_program_number t.pmt_pid_count 0 (record no_summary {
        program_count = t.pmt_pid_count;
        requested_program = t.selected_program;
      })),
)
