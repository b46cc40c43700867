-- ===== src/Demux/Valid.antt =====
-- The invariant of the state of decode_packets in source/tsdecode.c, and the sections under it.
use opensrthub.Base.{
  ℕ, ◌+◌, ◌-◌, ◌≤◌, ◌<◌, ◌≡◌, sym, subst, ◌∙◌, Bool, true, Option, none, some, List, arith, length,
  set, take, drop, length-set, length-take, length-drop, length-append, ltb, ◌&&◌, ◌||◌,
  if◌then◌else◌, Gives, Gives-bind, ◌^◌, ◌%◌, leb, if_intro, not, ◌++◌,
}
use opensrthub.Pmt.Table.{max_streams, max_pmt_pids, max_table_size}
use opensrthub.Pmt.Select.{Transport}
use opensrthub.Demux.State.{Engine, Decoder, max_pids, max_buffer_size, ts_packet_size}
use opensrthub.Demux.Header.{word}
use opensrthub.Demux.Sections.{
  Flow, ended, goes_on, overwrite, slice, copy_section, accept_section, forget, finish_section,
  start_section, crc_matches,
}
use opensrthub.Demux.Store.{IsStore, decode_pmt_table-IsStore}

-- A frame that has begun has a buffer.
abbrev pub Backed : Option (ℕ → ℕ) → ℕ → Type 0
Backed none n = n ≡ 0
Backed (some m) n = Unit

abbrev pub IsEngine : Engine → Type 0
IsEngine e = Backed e.buffer e.data_index × (e.data_index ≤ max_buffer_size)

-- Only the streams that a program can have are given a buffer.
abbrev pub Outside : ℕ → ℕ → Engine → Type 0
Outside i j e = (max_pmt_pids ≤ i → e.buffer ≡ none) × (max_streams ≤ j → e.buffer ≡ none)

abbrev pub IsTransport : Transport → Type 0
IsTransport t =
    IsStore t.tables
    × (t.pmt_pid_count ≤ max_pmt_pids)
    × (length t.pat_program_number ≡ max_pmt_pids)

-- The arrays have their sizes, the counts stay inside them, the section that is collected fits, and
-- every frame fits its buffer.
abbrev pub IsDecoder : Decoder → Type 0
IsDecoder d =
    IsTransport d.transport
    × (length d.master_packet_table ≡ max_pids)
    × (length d.pmt_pid_index ≡ max_pmt_pids)
    × (length d.pmt_decoded ≡ max_pmt_pids)
    × (length d.pmt_version ≡ max_pmt_pids)
    × (length d.pmt_data ≡ max_table_size)
    × (d.pmt_table_expected ≤ max_table_size)
    × ((i j : ℕ) → IsEngine (d.data_engine i j) × Outside i j (d.data_engine i j))

-- Behind the sections the offset still lies in the packet.
abbrev pub IsFlow : Flow → Type 0
IsFlow (ended d) = IsDecoder d
IsFlow (goes_on q d) = (4 ≤ q) × (q < ts_packet_size) × IsDecoder d

length-overwrite :
    (at : ℕ) (src dst : List ℕ)
    → at + length src ≤ length dst
    → length (overwrite at src dst) ≡ length dst
length-overwrite at src dst h = omega (
  arith,
  length-append (take at dst) (src ++ drop (at + length src) dst),
  length-append src (drop (at + length src) dst),
  length-take at dst (omega arith),
  length-drop (at + length src) dst,
)

pub length-slice : (q n : ℕ) (p : List ℕ) → q + n ≤ length p → length (slice q n p) ≡ n
length-slice q n p h = length-take n (drop q p) (omega (arith, length-drop q p))

module _ (p : List ℕ) (whole : length p ≡ ts_packet_size) where
  pub copy_section-Kept :
      (q n at : ℕ) (d : Decoder)
      → q + n ≤ ts_packet_size
      → at + n ≤ max_table_size
      → IsDecoder d
      → Gives IsDecoder (copy_section p q n at d)
  unfolding copy_section
  copy_section-Kept q n at d inside fits (t, a, b, c, v, m, x, e) =
      if_intro (Gives IsDecoder) (leb (q + n) (length p) && leb (at + n) (length d.pmt_data))
        (λ y. (
          t,
          a,
          b,
          c,
          v,
          length-overwrite at (slice q n p) d.pmt_data
                (omega (arith, length-slice q n p (omega (arith, whole))))
              ∙ m,
          x,
          e,
        ))
        λ y. absurd (ground arith)

accept_section-Kept :
    (pid i version : ℕ) (d : Decoder)
    → d.pmt_data_size + 4 ≤ max_table_size
    → IsDecoder d
    → Gives IsDecoder (accept_section pid i version d)
unfolding accept_section
accept_section-Kept pid i version d fits ((s, n, l), a, b, c, v, m, x, e) =
    let (r, u, same, is) =
      decode_pmt_table-IsStore d.pmt_data d.pmt_data_size pid (omega (arith, m)) (omega (arith, m))
        d.transport.tables s in
    subst
      (λ o. Gives IsDecoder (elim o [
        | none ↦ none
        | some (r, t) ↦ some (record d {
          pmt_version = set d.pmt_version i version;
          pmt_decoded = set d.pmt_decoded i true;
          transport = record d.transport { tables = t };
        })
      ]))
      (sym same)
      (
        (is, n, l),
        a,
        b,
        length-set d.pmt_decoded i true ∙ c,
        length-set d.pmt_version i version ∙ v,
        m,
        x,
        e,
      )

forget-Kept : (o : Option Decoder) → Gives IsDecoder o → Gives IsDecoder (forget o)
forget-Kept none k = k
forget-Kept (some d) (t, a, b, c, v, m, x, e) = (t, a, b, c, v, m, omega arith, e)

-- The checksum lies inside an array of MAX_TABLE_SIZE bytes.
crc_matches-Gives :
    (m : List ℕ) → length m ≡ max_table_size → Gives (λ (b : Bool). Unit {0}) (crc_matches m)
unfolding crc_matches
crc_matches-Gives m whole =
    let crc_position = word m 2 % 2 ^ 12 in
    if_intro (Gives (λ (b : Bool). Unit {0}))
      (ltb 4 crc_position && leb (crc_position + 4) max_table_size)
      (λ y.
        if_intro (Gives (λ (b : Bool). Unit {0})) (leb (length m) (crc_position + 3))
          (λ z. absurd (ground arith)) λ z. tt)
      λ y. tt

pub finish_section-Kept :
    (renewed : Bool) (pid i version : ℕ) (d : Decoder)
    → IsDecoder d
    → Gives IsDecoder (finish_section renewed pid i version d)
unfolding finish_section
finish_section-Kept renewed pid i version d (t, a, b, c, v, m, x, e) = forget-Kept _ (
    Gives-bind (λ (b : Bool). Unit {0}) IsDecoder _ (crc_matches d.pmt_data)
      (crc_matches-Gives d.pmt_data m)
      λ matches u.
        if_intro (Gives IsDecoder) (not matches) (λ y. (t, a, b, c, v, m, x, e))
          λ y.
            if_intro (Gives IsDecoder) renewed
              (λ y. accept_section-Kept pid i version _ (omega arith) (t, a, b, c, v, m, x, e))
              λ y. (t, a, b, length-set d.pmt_decoded i true ∙ c, v, m, x, e))

-- Any version may come to be stored.
pub start_section-Kept :
    (p : List ℕ) (before q i : ℕ) (d : Decoder)
    → length p ≡ ts_packet_size
    → before ≤ q
    → q < ts_packet_size
    → 4 ≤ before
    → IsDecoder d
    → Gives IsDecoder (start_section p before q i d)
unfolding start_section
start_section-Kept p before q i d whole le lt low (t, a, b, c, v, m, x, e) =
    let unit_size = q - before in
    let available = ts_packet_size - before - unit_size in
    let acquired =
      if ltb available (ts_packet_size - before) then available else ts_packet_size - before in
    let expected = word p (q + 2) % 2 ^ 12 + 4 in
    if_intro (Gives IsDecoder) (ltb max_table_size acquired || ltb max_table_size expected)
      (λ y. (t, a, b, c, v, m, omega arith, e))
      λ small.
        Gives-bind IsDecoder IsDecoder _ (copy_section p q acquired 0 _)
          (copy_section-Kept p whole q acquired 0 _ (ground arith) (ground arith)
            (t, a, b, c, v, m, ground arith, e))
          λ copied is.
            if_intro (Gives IsDecoder) (ltb acquired expected) (λ y. is)
              λ y. finish_section-Kept true _ i _ copied is
