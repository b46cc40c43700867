-- ===== src/Demux/Stream.antt =====
-- decode_packets of source/tsdecode.c: the packets of the elementary streams of the program that is
-- monitored, from the start of a PES packet to its last byte. `none` is an access outside the
-- packet or the buffer.
use opensrthub.Base.{
  ℕ, zero, suc, ◌+◌, ◌-◌, ◌*◌, ◌/◌, ◌%◌, ◌^◌, Bool, ◌&&◌, ◌||◌, not, Option, none, some, List, [],
  ◌∷◌, ltb, leb, ◌==◌, if◌then◌else◌, length, get_or, set,
}
use opensrthub.Pmt.Table.{Stream, Pmt, zeroed_stream}
use opensrthub.Pmt.Select.{entry_at}
use opensrthub.Demux.State.{
  Engine, Decoder, Event, World, ts_packet_size, ts_payload_size, max_buffer_size,
}
use opensrthub.Demux.Header.{octet, word, current_pid, continuity_counter}
use opensrthub.Demux.Sections.{slice}
use opensrthub.Demux.Frames.{flush}

-- The first packet sets the counter, and the others are expected to count on by one modulo 16.
unfoldable pub continuity : ℕ → Engine → Engine
continuity c e = elim e.last_cc [
  | none ↦ record e { last_cc = some c }
  | some last ↦ record e {
    last_cc = some c;
    corruption_count = if (last + 1) % 16 == c then e.corruption_count else suc e.corruption_count;
  }
]

-- memcpy to position `at` of the buffer.
unfoldable pub write_buffer : ℕ → List ℕ → (ℕ → ℕ) → ℕ → ℕ
write_buffer at bytes m i =
    if ltb i at || leb (at + length bytes) i then m i else get_or bytes (i - at) 0

-- A time stamp of 33 bits from its five bytes.
unfoldable pub timestamp : List ℕ → ℕ → ℕ
timestamp p i =
    octet p i / 2 % 2 ^ 3 * 2 ^ 30
    + octet p (i + 1) * 2 ^ 22
    + octet p (i + 2) / 2 % 2 ^ 7 * 2 ^ 15
    + octet p (i + 3) * 2 ^ 7
    + octet p (i + 4) / 2 % 2 ^ 7

-- The loops over `k` streams end at the first of the PID that has no first stamp.
unfoldable pub stamp_pts : ℕ → ℕ → ℕ → List Stream → List Stream
stamp_pts pid t zero ss = ss
stamp_pts pid t (suc k) [] = []
stamp_pts pid t (suc k) (s ∷ ss) =
    let rest = stamp_pts pid t k ss in
    if not (s.stream_pid == pid) then s ∷ rest else elim s.first_pts [
      | none ↦ record s { last_pts = some t; first_pts = some t } ∷ ss
      | some f ↦ record s { last_pts = some t } ∷ rest
    ]

unfoldable pub stamp_dts : ℕ → ℕ → ℕ → List Stream → List Stream
stamp_dts pid t zero ss = ss
stamp_dts pid t (suc k) [] = []
stamp_dts pid t (suc k) (s ∷ ss) =
    let rest = stamp_dts pid t k ss in
    if not (s.stream_pid == pid) then s ∷ rest else elim s.first_dts [
      | none ↦ record s { last_dts = some t; first_dts = some t } ∷ ss
      | some f ↦ record s { last_dts = some t } ∷ rest
    ]

-- The members that a new PES packet resets; a length of 0 leaves the wanted size.
unfoldable pub begin_pes : ℕ → Engine → Engine
begin_pes pes_length e = record e {
  wanted_data_size = if pes_length == 0 then e.wanted_data_size else pes_length;
  actual_data_size = 0;
  pts = 0;
  dts = 0;
  data_index = 0;
  flags = 0;
  pes_aligned = 0;
}

-- The buffer, which is allocated where there is none.
abbrev pub buffer_of : World → Engine → Option (ℕ → ℕ)
buffer_of w e = elim e.buffer [ none ↦ w.allocated | some m ↦ some m ]

module _ (w : World) (p : List ℕ) where
  -- The first payload of a PES packet, from offset `q`, of which `taken` bytes are not payload.
  unfoldable pub first_payload : ℕ → ℕ → Engine → Option Engine
  unfolding write_buffer
  first_payload q taken e = if leb ts_payload_size taken then some e else elim (buffer_of w e) [
    | none ↦ some e
    | some m ↦
        let n = ts_payload_size - taken in
        if ltb (length p) (q + n)
        then none
        else some (record e { buffer = some (write_buffer 0 (slice q n p) m); data_index = n })
  ]

  abbrev pub with_entry : Pmt → Option Engine → Option (Pmt × Engine)
  with_entry t o = elim o [ none ↦ none | some e ↦ some (t, e) ]

  -- The time stamps and the payload; `header` is the size of the header's optional part. The last
  -- byte of the PTS is that at 13, the last of the DTS that at 18.
  unfoldable pub stamped_payload : ℕ → ℕ → ℕ → Pmt → Engine → Option (Pmt × Engine)
  unfolding first_payload timestamp stamp_pts stamp_dts
  stamped_payload q adaptation header t e =
      let present = octet p (q + 7) / 2 ^ 6 % 2 ^ 2 in
      let remaining = ts_packet_size - q in
      let pts = timestamp p (q + 9) in
      let dts = timestamp p (q + 14) in
      let with_pts = stamp_pts (current_pid p) pts t.stream_count t.streams in
      if present == 1
      then some (t, e)
      else if present == 2
      then if ltb remaining 14
        then some (t, e)
        else if leb (length p) (q + 13)
        then none
        else with_entry (record t { streams = with_pts })
            (first_payload (q + 9 + header) (9 + header + adaptation) (record e { pts = pts }))
      else if present == 3
      then if ltb remaining 19
        then some (t, e)
        else if leb (length p) (q + 18)
        then none
        else with_entry
            (record t { streams = stamp_dts (current_pid p) dts t.stream_count with_pts })
            (first_payload (q + 9 + header) (9 + header + adaptation)
              (record e { pts = pts; dts = dts }))
      else with_entry t
          (first_payload (q + 9 + header) (9 + header + adaptation) (record e { pts = 0; dts = 0 }))

  -- The header of a PES packet at offset `q`, behind an adaptation field of this size.
  unfoldable pub open_pes : ℕ → ℕ → Pmt → Engine → Option (Pmt × Engine)
  unfolding begin_pes stamped_payload
  open_pes q adaptation t e =
      let header = octet p (q + 8) in
      let begun = begin_pes (word p (q + 4)) e in
      if ltb (ts_packet_size - q) 9
      then some (t, e)
      else if leb (length p) (q + 8)
      then none
      else if ltb 184 header || ltb (ts_packet_size - q) (9 + header)
      then some (t, begun)
      else stamped_payload q adaptation header t
          (record begun { pes_aligned = octet p (q + 6) / 2 ^ 2 % 2 })

  -- The packets that start a PES packet: the frame before is complete.
  unfoldable pub start_pes :
      ℕ → ℕ → ℕ → Stream → Pmt → Engine → Option (Pmt × Engine × Bool × List Event)
  unfolding flush continuity open_pes
  start_pes q adaptation entries s t e = elim (flush w s entries e) [
    | none ↦ none
    | some (f, first, sends) ↦
        elim (open_pes q adaptation t (continuity (continuity_counter p) f)) [
          | none ↦ none
          | some (u, g) ↦ some (u, g, first, sends)
        ]
  ]

  -- The other packets of a stream: the payload is appended to a frame that has begun, if it fits.
  unfoldable pub append_payload : ℕ → ℕ → Engine → Option Engine
  unfolding write_buffer
  append_payload q adaptation e =
      let n = ts_payload_size - adaptation in
      if e.data_index == 0 || ltb ts_payload_size adaptation
      then some e
      else if ltb max_buffer_size (e.data_index + n)
      then some e
      else if ltb (length p) (q + n)
      then none
      else elim e.buffer [
        | none ↦ none
        | some m ↦ some (record e {
          buffer = some (write_buffer e.data_index (slice q n p) m);
          data_index = e.data_index + n;
        })
      ]

  unfoldable pub continue_pes : ℕ → ℕ → Engine → Option Engine
  unfolding continuity append_payload
  continue_pes q adaptation e = append_payload q adaptation (continuity (continuity_counter p) e)

-- The number of the first stream of this PID among `k` from number `j` on.
unfoldable pub find_stream : ℕ → List Stream → ℕ → ℕ → Option ℕ
find_stream pid ss zero j = none
find_stream pid ss (suc k) j =
    let rest = find_stream pid ss k (suc j) in
    if (get_or ss j zeroed_stream).stream_pid == pid then some j else rest

abbrev pub put_engine : ℕ → ℕ → Engine → Decoder → Decoder
put_engine i j e d = record d {
  data_engine = λ a b. if a == i && b == j then e else d.data_engine a b;
}

abbrev pub put_entry : ℕ → Pmt → Decoder → Decoder
put_entry i t d = record d {
  transport = record d.transport {
    tables = record d.transport.tables {
      master_pmt_table = set d.transport.tables.master_pmt_table i t;
    };
  };
}

-- Stream `j` of entry `i`, at a packet that starts a PES packet.
unfoldable pub start_stream :
    World → List ℕ → ℕ → ℕ → ℕ → ℕ → Decoder → Option (Decoder × List Event)
unfolding start_pes
start_stream w p q adaptation i j d =
    let t = entry_at d.transport i in
    elim (start_pes w p q adaptation d.transport.tables.pmt_table_entries
      (get_or t.streams j zeroed_stream) t (d.data_engine i j)) [
        | none ↦ none
        | some (u, e, first, sends) ↦ some (
          record (put_engine i j e (put_entry i u d)) {
            first_frame_intra = d.first_frame_intra || first;
          },
          sends,
        )
      ]

-- The loop at another packet, over `k` streams of entry `i` from number `j` on.
unfoldable pub continue_streams : World → List ℕ → ℕ → ℕ → ℕ → ℕ → ℕ → Decoder → Option Decoder
unfolding continue_pes
continue_streams w p q adaptation i zero j d = some d
continue_streams w p q adaptation i (suc k) j d =
    let t = entry_at d.transport i in
    let next =
      if (get_or t.streams j zeroed_stream).stream_pid == current_pid p
      then continue_pes w p q adaptation (d.data_engine i j)
      else some (d.data_engine i j) in
    elim next [
      | none ↦ none
      | some e ↦ continue_streams w p q adaptation i k (suc j) (put_engine i j e d)
    ]
