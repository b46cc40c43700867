-- ===== src/Demux/Sections.antt =====
-- decode_packets of source/tsdecode.c: the program map sections that it collects from the payloads
-- of their PIDs, over several packets. What it measures of the time between them is left out.
-- `none` is an access outside the packet or an array.
use opensrthub.Base.{
  ℕ, zero, suc, ◌+◌, ◌-◌, ◌*◌, ◌/◌, ◌%◌, ◌^◌, Bool, true, false, ◌&&◌, ◌||◌, not, Option, none,
  some, List, ◌++◌, ltb, leb, ◌==◌, if◌then◌else◌, length, get_or, set, take, drop,
}
use opensrthub.Crc.{getcrc32}
use opensrthub.Pmt.Table.{max_table_size}
use opensrthub.Pmt.Decode.{decode_pmt_table}
use opensrthub.Demux.State.{Decoder, ts_packet_size}
use opensrthub.Demux.Header.{octet, word, current_pid}

-- What a part of the code leaves: the rest of the packet is passed over, or goes on at an offset.
pub data Flow : Type 0 where
  ended : Decoder → Flow
  goes_on : ℕ → Decoder → Flow

-- memcpy of a list to position `at`.
abbrev pub overwrite : ℕ → List ℕ → List ℕ → List ℕ
overwrite at src dst = take at dst ++ (src ++ drop (at + length src) dst)

-- The `n` bytes at offset `q`.
abbrev pub slice : ℕ → ℕ → List ℕ → List ℕ
slice q n p = take n (drop q p)

-- `n` bytes of the packet, written to position `at` of pmt_data.
unfoldable pub copy_section : List ℕ → ℕ → ℕ → ℕ → Decoder → Option Decoder
copy_section p q n at d =
    if leb (q + n) (length p) && leb (at + n) (length d.pmt_data)
    then some (record d { pmt_data = overwrite at (slice q n p) d.pmt_data })
    else none

-- The section in pmt_data starts behind one byte. htonl of the register is compared with the four
-- bytes as they lie in memory, both complemented: that is the number they write, the high byte first.
unfoldable pub crc_matches : List ℕ → Option Bool
crc_matches m =
    let crc_position = word m 2 % 2 ^ 12 in
    if ltb 4 crc_position && leb (crc_position + 4) max_table_size
    then if leb (length m) (crc_position + 3)
      then none
      else some (
          getcrc32 (take (crc_position - 1) (drop 1 m))
          == word m crc_position * 2 ^ 16 + word m (crc_position + 2))
    else some false

abbrev pub version_at : List ℕ → ℕ → ℕ
version_at p q = octet p q / 2 % 2 ^ 4

-- The stored version differs, or no table of this position is decoded.
abbrev pub is_new : ℕ → ℕ → Decoder → Bool
is_new i version d = not (version == get_or d.pmt_version i 0) || not (get_or d.pmt_decoded i false)

-- The version is stored and the tables take the section.
unfoldable pub accept_section : ℕ → ℕ → ℕ → Decoder → Option Decoder
accept_section pid i version d =
    elim (decode_pmt_table d.pmt_data d.pmt_data_size pid d.transport.tables) [
      | none ↦ none
      | some (r, t) ↦ some (record d {
        pmt_version = set d.pmt_version i version;
        pmt_decoded = set d.pmt_decoded i true;
        transport = record d.transport { tables = t };
      })
    ]

abbrev pub forget : Option Decoder → Option Decoder
forget o = elim o [
  | none ↦ none
  | some d ↦ some (record d { pmt_table_acquired = 0; pmt_table_expected = 0 })
]

-- The whole section is in pmt_data. In both branches the position counts as decoded.
unfoldable pub finish_section : Bool → ℕ → ℕ → ℕ → Decoder → Option Decoder
unfolding crc_matches accept_section
finish_section renewed pid i version d =
    let sized = record d { pmt_data_size = d.pmt_table_expected - 4 } in
    forget (elim (crc_matches d.pmt_data) [
      | none ↦ none
      | some matches ↦
          if not matches
          then some sized
          else if renewed
          then accept_section pid i version sized
          else some (record sized { pmt_decoded = set d.pmt_decoded i true })
    ])

-- A section starts at offset `q`, behind its pointer field of `unit_size` bytes.
unfoldable pub start_section : List ℕ → ℕ → ℕ → ℕ → Decoder → Option Decoder
unfolding copy_section finish_section
start_section p before q i d =
    let unit_size = q - before in
    let available = ts_packet_size - before - unit_size in
    let acquired =
      if ltb available (ts_packet_size - before) then available else ts_packet_size - before in
    let expected = word p (q + 2) % 2 ^ 12 + 4 in
    let begun = record d {
      pmt_table_acquired = acquired;
      pmt_table_expected = expected;
      pmt_position = if d.pmt_position == 0 then d.total_input_packets else d.pmt_position;
    } in
    if ltb max_table_size acquired || ltb max_table_size expected
    then forget (some begun)
    else elim (copy_section p q acquired 0 begun) [
      | none ↦ none
      | some copied ↦
          if ltb acquired expected
          then some copied
          else finish_section true (current_pid p) i (version_at p (q + 6)) copied
    ]

-- The body of the loop over the programs, at a packet that starts a section.
unfoldable pub start_program : List ℕ → ℕ → ℕ → Decoder → Option Flow
unfolding start_section
start_program p q i d =
    let unit_size = octet p q in
    if leb (length p) q
    then none
    else if ltb (ts_packet_size - q) (unit_size + 7)
    then some (ended d)
    else if leb (length p) (q + unit_size + 6)
    then none
    else if not (octet p (q + unit_size + 1) == 2)
    then some (ended d)
    else if is_new i (version_at p (q + unit_size + 6)) d
    then elim (start_section p q (q + unit_size) i d) [
      | none ↦ none
      | some e ↦ some (goes_on (q + unit_size) e)
    ]
    else some (goes_on (q + unit_size) d)

-- A program of another PID is passed by. The arrays of the programs are of one length; `none` is an
-- access behind their end.
unfoldable pub visit_start : List ℕ → ℕ → ℕ → Decoder → Option Flow
unfolding start_program
visit_start p q i d =
    if leb (length d.pmt_pid_index) i
    then none
    else if get_or d.pmt_pid_index i 0 == current_pid p
    then start_program p q i d
    else some (goes_on q d)

-- The loop over `k` programs from number `i` on.
unfoldable pub start_programs : List ℕ → ℕ → ℕ → ℕ → Decoder → Option Flow
unfolding visit_start
start_programs p zero i q d = some (goes_on q d)
start_programs p (suc k) i q d = elim (visit_start p q i d) [
  | none ↦ none
  | some (ended e) ↦ some (ended e)
  | some (goes_on r e) ↦ start_programs p k (suc i) r e
]

-- The body of the loop over the programs, at another packet: `n` bytes at offset `q` are not yet
-- taken by a section, of which as many are as the section lacks and pmt_data has room for.
abbrev pub lacking : ℕ → Decoder → ℕ
lacking n d =
    let wanted = d.pmt_table_expected - d.pmt_table_acquired in
    let shrunk = if ltb wanted n then wanted else n in
    let room = max_table_size - d.pmt_table_acquired in if ltb room shrunk then room else shrunk

unfoldable pub continue_section : List ℕ → ℕ → ℕ → ℕ → Decoder → Option Decoder
unfolding copy_section finish_section
continue_section p q i n d = elim (copy_section p q n d.pmt_table_acquired d) [
  | none ↦ none
  | some copied ↦
      let grown = record copied { pmt_table_acquired = d.pmt_table_acquired + n } in
      if leb d.pmt_table_expected grown.pmt_table_acquired
      then finish_section (is_new i (version_at grown.pmt_data 6) grown) (current_pid p) i
          (version_at grown.pmt_data 6) grown
      else some grown
]

unfoldable pub visit_continue : List ℕ → ℕ → ℕ → ℕ → Decoder → Option (ℕ × Decoder)
unfolding continue_section
visit_continue p q i n d =
    if leb (length d.pmt_pid_index) i
    then none
    else if get_or d.pmt_pid_index i 0 == current_pid p
        && (ltb 0 d.pmt_table_acquired
            && (ltb d.pmt_table_acquired max_table_size && ltb 0 d.pmt_table_expected))
    then elim (continue_section p q i (lacking n d) d) [
      | none ↦ none
      | some e ↦ some (lacking n d, e)
    ]
    else some (n, d)

unfoldable pub continue_programs : List ℕ → ℕ → ℕ → ℕ → ℕ → Decoder → Option Decoder
unfolding visit_continue
continue_programs p q zero i n d = some d
continue_programs p q (suc k) i n d = elim (visit_continue p q i n d) [
  | none ↦ none
  | some (left, e) ↦ continue_programs p q k (suc i) left e
]
