-- ===== src/Pmt/Monitored.antt =====
-- The choice of the monitored program in source/tsdecode.c, and the agreement of its two readers.
use native.Mathlib.Decide.{dec_lt}
use opensrthub.Base.{
  ℕ, zero, suc, ◌+◌, ◌≤◌, ◌<◌, ◌≡◌, ◌≢◌, refl, sym, subst, ◌∙◌, true, false, ◌&&◌, Option, none,
  some, List, [], ◌∷◌, arith, ltb, leb, ◌==◌, if◌then◌else◌, if_intro, All, inl, inr, Option-cases,
  Bool-cases, take,
}
use opensrthub.Pmt.Table.{Stream, Pmt, max_pmt_pids, array_size, scte35}
use opensrthub.Pmt.Select.{
  Transport, max_programs, Summary, no_summary, entry_at, is_program, find_program, entries_of,
  find_monitored_index, walked, first_scte35, scte35_of, get_scte35_pid, put_audio, put_other,
  put_stream, put_streams, put_programs, put_monitored, summary_of, get_pid_summary,
}

-- Entry `j` has a PID and is of the selected program.
abbrev pub Selected : Transport → ℕ → Type 0
Selected t j =
    ((entry_at t j).pmt_pid ≢ 0) × ((entry_at t j).pmt_program_number ≡ t.selected_program)

-- The entries from `i` on, before `n`, do not hold the selected program.
unfoldable pub Absent : Transport → ℕ → ℕ → Type 0
Absent t i n = (j : ℕ) → i ≤ j → j < n → ¬ Selected t j

-- The entries that are counted, as far as the table has them.
abbrev pub counted : Transport → ℕ
counted t =
    let entries : ℕ = t.tables.pmt_table_entries in
    if leb entries max_pmt_pids then entries else max_pmt_pids

entries_of-counted : (t : Transport) → entries_of t ≡ counted t
entries_of-counted t = ground arith

-- The first entry of the selected program among those counted, or none of them.
unfoldable pub Found : Transport → ℕ → ℕ → Option ℕ → Type 0
Found t i n none = Absent t i n
Found t i n (some j) = (i ≤ j) × (j < n) × Selected t j × Absent t i j

is_program-Selected :
    (n : ℕ) (q : Pmt) → is_program n q ≡ true → (q.pmt_pid ≢ 0) × (q.pmt_program_number ≡ n)
is_program-Selected n q e = ground arith

unless-Selected :
    (n : ℕ) (q : Pmt) → is_program n q ≡ false → ¬ ((q.pmt_pid ≢ 0) × (q.pmt_program_number ≡ n))
unless-Selected n q e (has, is) = ground arith

Absent-next : (t : Transport) (i n : ℕ) → ¬ Selected t i → Absent t (suc i) n → Absent t i n
unfolding Absent
Absent-next t i n e rest j le lt = elim (dec_lt i j) [
  | yes above ↦ rest j (omega arith) lt
  | no same ↦ subst (λ x. ¬ Selected t x) {x = i} {y = j} (omega arith) e
]

Found-next :
    (t : Transport) (i n : ℕ) (o : Option ℕ) → ¬ Selected t i → Found t (suc i) n o → Found t i n o
unfolding Found
Found-next t i n none e rest = Absent-next t i n e rest
Found-next t i n (some j) e (le, lt, is, rest) = (omega arith, lt, is, Absent-next t i j e rest)

find_program-Found : (t : Transport) (k i n : ℕ) → i + k ≡ n → Found t i n (find_program t k i)
unfolding find_program Found Absent
find_program-Found t zero i n e = λ j le lt. absurd (omega arith)
find_program-Found t (suc k) i n e =
    if_intro (Found t i n) (is_program t.selected_program (entry_at t i))
      (λ is. (
        omega arith,
        omega arith,
        is_program-Selected t.selected_program (entry_at t i) is,
        λ j le lt. absurd (omega arith),
      ))
      (λ other.
        Found-next t i n (find_program t k (suc i))
          (unless-Selected t.selected_program (entry_at t i) other)
          (find_program-Found t k (suc i) n (omega arith)))

-- The monitored index is 0 where no program is selected. Where one is, it is that of the first
-- counted entry that has a PID and is of the selected program, or -1 if there is none.
pub find_monitored_index-Found :
    (t : Transport)
    → (t.selected_program ≡ 0 → find_monitored_index t ≡ some 0)
      × (t.selected_program ≢ 0 → Found t 0 (counted t) (find_monitored_index t))
unfolding find_monitored_index
find_monitored_index-Found t = (
  (λ e. ground arith),
  (λ ne.
      if_intro (Found t 0 (counted t)) (t.selected_program == 0) (λ e. absurd (ground arith))
        (λ e.
          find_program-Found t (entries_of t) 0 (counted t) (omega (arith, entries_of-counted t)))),
)

-- A cue stream does not have PID 0.
unfoldable pub HasPid : Stream → Type 0
HasPid s = (s.decoded_stream_type == scte35) ≡ true → s.stream_pid ≢ 0

put_audio-scte35 :
    (k : ℕ) (s : Stream) (sum : Summary) → (put_audio k s sum).scte35_pid ≡ sum.scte35_pid
unfolding put_audio
put_audio-scte35 k s sum = ground arith

put_other-scte35 : (s : Stream) (sum : Summary) → (put_other s sum).scte35_pid ≡ sum.scte35_pid
unfolding put_other
put_other-scte35 s sum = ground arith

put_stream-scte35 :
    (s : Stream) (sum : Summary)
    → (put_stream s sum).scte35_pid ≡ (
        if s.decoded_stream_type == scte35 && sum.scte35_pid == 0
        then s.stream_pid
        else sum.scte35_pid)
unfolding put_stream
put_stream-scte35 s sum = elim (Option-cases s.audio_stream_index) [
  | inl e ↦ ground (arith, e, put_other-scte35 s sum)
  | inr (k, e) ↦ ground (arith, e, put_audio-scte35 k s sum)
]

-- A PID that is there stays; else the first one of a cue stream is taken.
put_streams_kept :
    (ss : List Stream) (sum : Summary)
    → sum.scte35_pid ≢ 0
    → (put_streams ss sum).scte35_pid ≡ sum.scte35_pid
unfolding put_streams
put_streams_kept [] sum h = refl
put_streams_kept (s ∷ ss) sum h =
    ground (arith, put_stream-scte35 s sum, put_streams_kept ss (put_stream s sum))

put_streams-scte35 :
    (ss : List Stream) (sum : Summary)
    → All HasPid ss
    → sum.scte35_pid ≡ 0
    → (put_streams ss sum).scte35_pid ≡ first_scte35 ss
unfolding put_streams first_scte35 HasPid
put_streams-scte35 [] sum h z = z
put_streams-scte35 (s ∷ ss) sum (h, hs) z = ground (
  arith,
  h,
  put_stream-scte35 s sum,
  put_streams_kept ss (put_stream s sum),
  put_streams-scte35 ss (put_stream s sum) hs,
)

put_programs-scte35 :
    (ps : List ℕ) (k i : ℕ) (sum : Summary) → (put_programs ps k i sum).scte35_pid ≡ sum.scte35_pid
unfolding put_programs
put_programs-scte35 ps zero i sum = refl
put_programs-scte35 ps (suc k) i sum =
    if_intro (λ (r : Summary). r.scte35_pid ≡ sum.scte35_pid) (ltb i max_programs)
      (λ e. put_programs-scte35 ps k (suc i) _) (λ e. refl)

-- An entry of PID 0 has no streams, and no cue stream has PID 0.
unfoldable pub Readable : Pmt → Type 0
Readable q = (q.pmt_pid ≡ 0 → q.stream_count ≡ 0) × All HasPid (walked q)

put_monitored-scte35 :
    (q : Pmt) (sum : Summary)
    → Readable q
    → sum.scte35_pid ≡ 0
    → (put_monitored q sum).scte35_pid ≡ first_scte35 (walked q)
unfolding put_monitored Readable first_scte35
put_monitored-scte35 q sum (empty, pids) z =
    if_intro (λ (r : Summary). r.scte35_pid ≡ first_scte35 (walked q)) (q.pmt_pid == 0)
      (λ e. z ∙ sym (no_streams (empty (ground arith))))
      (λ e. put_streams-scte35 (walked q) _ pids z)
  where
    no_streams : q.stream_count ≡ 0 → first_scte35 (walked q) ≡ 0
    no_streams e =
        subst (λ n. first_scte35 (take (if ltb array_size n then array_size else n) q.streams) ≡ 0)
          (sym e) refl

-- Where no entry without a PID has streams and no SCTE-35 stream of an entry has PID 0, the
-- SCTE-35 PID of get_pid_summary is that of get_scte35_pid.
pub get_pid_summary-scte35 :
    (t : Transport)
    → ((i : ℕ) → Readable (entry_at t i))
    → (get_pid_summary (some t)).1.scte35_pid ≡ get_scte35_pid (some t)
unfolding get_pid_summary get_scte35_pid summary_of scte35_of
get_pid_summary-scte35 t readable = of (find_monitored_index t)
  where
    start : Summary
    start = put_programs t.pat_program_number t.pmt_pid_count 0 (record no_summary {
      program_count = t.pmt_pid_count;
      requested_program = t.selected_program;
    })

    none_yet : start.scte35_pid ≡ 0
    none_yet = put_programs-scte35 t.pat_program_number t.pmt_pid_count 0 _

    of : (o : Option ℕ) → (summary_of t o start).scte35_pid ≡ scte35_of t o
    of none = none_yet
    of (some i) = elim (Bool-cases (ltb 0 t.pmt_pid_count)) [
      | inl e ↦ rw e (put_monitored-scte35 (entry_at t i) start (readable i) none_yet)
      | inr e ↦ rw e none_yet
    ]
