-- ===== src/Pmt/Decode.antt =====
-- decode_pmt_table of source/tsdecode.c: the entry of the PID, its header and its program
-- descriptors; the streams are those of `Streams`. The function holds pmt_lock throughout, and the
-- calls for that are left out. `none` is an access outside a buffer or an array.
use opensrthub.Base.{
  ℕ, zero, suc, ◌+◌, ◌-◌, ◌*◌, ◌/◌, ◌%◌, ◌^◌, Bool, true, false, ◌&&◌, ◌||◌, not, Option, none,
  some, List, [], ◌∷◌, ◌++◌, take, drop, ltb, leb, ◌==◌, if◌then◌else◌, length, get_or, set,
}
use opensrthub.Pmt.Table.{Pmt, Tables, max_table_size, max_descriptors, zeroed_pmt}
use opensrthub.Pmt.Streams.{stream_loop}

-- Where the lookup ends: at the PID's entry, at the first free one, or behind the last.
pub data Slot : Type 0 where
  found free : ℕ → Slot
  full : Slot

unfoldable pub find_slot : ℕ → ℕ → List Pmt → Slot
find_slot pid i [] = full
find_slot pid i (t ∷ ts) =
    if t.pmt_pid == pid
    then found i
    else if t.pmt_pid == 0
    then free i
    else find_slot pid (suc i) ts

-- memcpy of `n` bytes to the front of an entry's pmt_data, an array of MAX_TABLE_SIZE bytes.
unfoldable pub copy : ℕ → List ℕ → List ℕ → Option (List ℕ)
copy n src dst =
    if leb n max_table_size && leb n (length src) then some (take n src ++ drop n dst) else none

-- The two ends of the program descriptors' loop: -1, or the offset behind them.
pub data Walked : Type 0 where
  failed : Pmt → Walked
  finished : ℕ → Pmt → Walked

-- Position `n` is written only below the cap.
abbrev pub add_descriptor : ℕ → ℕ → ℕ → Pmt → Pmt
add_descriptor n tag size pmt =
    if ltb n max_descriptors
    then record pmt {
      descriptors = set pmt.descriptors n (record { descriptor_id = tag; descriptor_size = size });
      descriptor_count = suc pmt.descriptor_count;
    }
    else pmt

module _ (m : List ℕ) where
  abbrev pub program_info_length_at : ℕ
  program_info_length_at = (get_or m 11 0 * 2 ^ 8 + get_or m 12 0) % 2 ^ 12

  -- The header's members; the counts of streams restart, that of descriptors does not.
  unfoldable pub begin_entry : ℕ → ℕ → List ℕ → Pmt → Pmt
  begin_entry size pid held pmt = record pmt {
    pmt_pid = pid;
    pmt_data_size = size;
    pmt_program_number = get_or m 4 0 * 2 ^ 8 + get_or m 5 0;
    pmt_valid = get_or m 6 0 % 2;
    current_pmt_section = get_or m 7 0;
    previous_pmt_section = get_or m 8 0;
    pcr_pid = (get_or m 9 0 * 2 ^ 8 + get_or m 10 0) % 2 ^ 13;
    program_info_length = program_info_length_at;
    pmt_version = get_or m 6 0 % 2 ^ 5 / 2;
    audio_stream_count = 0;
    scte35_stream_count = 0;
    stream_count = 0;
    pmt_data = held;
  }

  -- The table is kept where the array has room for it.
  unfoldable pub reset_entry : ℕ → ℕ → Pmt → Option Pmt
  unfolding copy begin_entry
  reset_entry size pid pmt =
      elim (if leb size max_table_size then copy size m pmt.pmt_data else some pmt.pmt_data) [
        | none ↦ none
        | some held ↦ some (begin_entry size pid held pmt)
      ]

  -- The furthest byte read of the descriptor at `p`; that of the maximal bitrate is read to its
  -- fifth.
  abbrev pub reach : ℕ → ℕ
  reach p = if get_or m p 0 == 0x0e then p + 4 else p + 1

  -- `while (program_info_length > 0)`, where program_info_length is the end `e` less `p`.
  unfoldable pub program_loop : ℕ → ℕ → ℕ → ℕ → Pmt → Option Walked
  program_loop e zero p n pmt = none
  program_loop e (suc k) p n pmt =
      let size : ℕ = get_or m (p + 1) 0 in
      let rest =
        program_loop e k (p + 2 + size) (if ltb n max_descriptors then suc n else n)
          (add_descriptor n (get_or m p 0) size pmt) in
      if leb e p
      then some (finished p pmt)
      else if ltb (p + 1) (length m)
      then if ltb (e - p) size
        then some (failed pmt)
        else if ltb (reach p) (length m)
            && (not (ltb n max_descriptors) || ltb n (length pmt.descriptors))
        then rest
        else none
      else none

  -- The streams behind the program descriptors, unless these ran past their end.
  unfoldable pub decode_streams : ℕ → Walked → Option (Bool × Pmt)
  unfolding stream_loop
  decode_streams size (failed pmt) = some (false, pmt)
  decode_streams size (finished p pmt) =
      if ltb size p || ltb (13 + program_info_length_at) p
      then some (false, pmt)
      else elim (stream_loop m size (suc (size - p)) p 0 pmt) [
        | none ↦ none
        | some q ↦ some (true, q)
      ]

  unfoldable pub decode_entry : ℕ → ℕ → Pmt → Option (Bool × Pmt)
  unfolding reset_entry program_loop decode_streams
  decode_entry size pid pmt = elim (reset_entry size pid pmt) [
    | none ↦ none
    | some start ↦
        if ltb size (13 + program_info_length_at) || ltb max_table_size program_info_length_at
        then some (false, start)
        else elim (program_loop (13 + program_info_length_at) (suc program_info_length_at) 13 0
            start) [ none ↦ none | some w ↦ decode_streams size w ]
  ]

  -- The entry at `i` is decoded in place.
  unfoldable pub decode_at : ℕ → ℕ → ℕ → ℕ → List Pmt → Option (Bool × Tables)
  unfolding decode_entry
  decode_at size pid i entries table = elim (decode_entry size pid (get_or table i zeroed_pmt)) [
    | none ↦ none
    | some (r, q) ↦
        some (r, record { pmt_table_entries = entries; master_pmt_table = set table i q })
  ]

  -- The result is `false` for -1.
  unfoldable pub decode_pmt_table : ℕ → ℕ → Tables → Option (Bool × Tables)
  unfolding find_slot decode_at
  decode_pmt_table size pid t =
      if ltb (length m) 13 then none else elim (find_slot pid 0 t.master_pmt_table) [
        | found i ↦ decode_at size pid i t.pmt_table_entries t.master_pmt_table
        | free i ↦ decode_at size pid i (suc t.pmt_table_entries) t.master_pmt_table
        | full ↦ some (false, t)
      ]
