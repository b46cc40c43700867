-- ===== src/Demux/Safety.antt =====
-- decode_packets of source/tsdecode.c reads inside its packets, writes inside its buffers and arrays,
-- and keeps the invariant of its state.
use opensrthub.Base.{
  ℕ, zero, suc, ◌+◌, ◌-◌, ◌*◌, ◌%◌, ◌^◌, ◌≤◌, ◌<◌, ◌≡◌, sym, ◌∙◌, false, some, List, arith, ◌&&◌,
  ltb→lt, length, get_or, get_elem?-eq-get_or, length-set, length-replicate, ltb, leb, if_intro,
  ◌==◌, Gives, Gives-bind, if◌then◌else◌,
}
use opensrthub.Pmt.Table.{max_streams, Pmt, max_pmt_pids, zeroed_pmt, zeroed_stream}
use opensrthub.Pmt.Select.{entry_at}
use opensrthub.Pmt.StreamLoop.{IsValid}
use opensrthub.Demux.State.{Engine, Decoder, Event, World, ts_packet_size}
use opensrthub.Demux.Header.{octet, word, current_pid}
use opensrthub.Demux.Programs.{
  section_entries, add_program, add_programs, known_version, is_fresh, take_section, decode_pat,
}
use opensrthub.Demux.Stream.{
  put_engine, put_entry, start_pes, start_stream, continue_pes, continue_streams,
}
use opensrthub.Demux.Store.{set-IsStore, entry-IsValid}
use opensrthub.Demux.Valid.{IsDecoder, IsEngine, Outside}
use opensrthub.Demux.Streaming.{IsStarted, start_pes-IsStarted, continue_pes-IsEngine}

abbrev pub IsStep : Decoder × List Event → Type 0
IsStep r = IsDecoder r.0

add_program-IsDecoder :
    (number pmt_pid : ℕ) (d : Decoder) → IsDecoder d → IsDecoder (add_program number pmt_pid d)
unfolding add_program
add_program-IsDecoder number pmt_pid d ((s, n, l), a, b, c, v, m, x, e) =
    if_intro IsDecoder (number == 0) (λ y. ((s, n, l), a, b, c, v, m, x, e))
      λ y.
        if_intro IsDecoder (ltb d.transport.pmt_pid_count max_pmt_pids)
          (λ z. (
            (s, ltb→lt d.transport.pmt_pid_count max_pmt_pids z, length-set _ _ number ∙ l),
            a,
            length-set _ _ pmt_pid ∙ b,
            c,
            v,
            m,
            x,
            e,
          ))
          λ z. ((s, n, l), a, b, c, v, m, x, e)

module _ (p : List ℕ) (whole : length p ≡ ts_packet_size) where
  add_programs-Kept :
      (k e : ℕ) (d : Decoder)
      → e + 4 * k ≤ ts_packet_size
      → IsDecoder d
      → Gives IsDecoder (add_programs p k e d)
  unfolding add_programs
  add_programs-Kept zero e d inside is = is
  add_programs-Kept (suc k) e d inside is =
      if_intro (Gives IsDecoder) (leb (length p) (e + 3)) (λ y. absurd (ground arith))
        λ y. add_programs-Kept k (e + 4) _ (omega arith) (add_program-IsDecoder _ _ d is)

  take_section-Kept :
      (q entries stream_id version : ℕ) (d : Decoder)
      → q + 9 + 4 * entries ≤ ts_packet_size
      → IsDecoder d
      → Gives IsDecoder (take_section p q entries stream_id version d)
  unfolding take_section
  take_section-Kept q entries stream_id version d inside ((s, n, l), a, b, c, v, m, x, e) =
      if_intro (Gives IsDecoder) (is_fresh (known_version stream_id d) version)
        (λ y.
          add_programs-Kept entries (q + 9) _ inside
            ((s, omega arith, l), a, b, length-replicate max_pmt_pids false, v, m, x, e))
        λ y. ((s, n, l), a, b, c, v, m, x, e)

  pub decode_pat-Kept :
      (q : ℕ) (d : Decoder) → q < ts_packet_size → IsDecoder d → Gives IsDecoder (decode_pat p q d)
  unfolding decode_pat section_entries
  decode_pat-Kept q d lt is =
      let unit_size = octet p q in
      if_intro (Gives IsDecoder) (leb (length p) q) (λ y. absurd (ground arith))
        λ a.
          if_intro (Gives IsDecoder) (ltb (ts_packet_size - q) (unit_size + 9)) (λ y. is)
            λ b.
              if_intro (Gives IsDecoder) (leb (length p) (q + unit_size + 8))
                (λ y. absurd (ground arith))
                λ c.
                  if_intro (Gives IsDecoder) (ltb (word p (q + unit_size + 2) % 2 ^ 12) 9) (λ y. is)
                    λ y. take_section-Kept (q + unit_size) _ _ _ d (ground arith) is

put_engine-IsDecoder :
    (i j : ℕ) (e : Engine) (d : Decoder)
    → i < max_pmt_pids
    → j < max_streams
    → IsEngine e
    → IsDecoder d
    → IsDecoder (put_engine i j e d)
put_engine-IsDecoder i j e d i_lt j_lt new (t, a, b, c, v, m, x, old) = (
  t,
  a,
  b,
  c,
  v,
  m,
  x,
  λ a b.
      if_intro (λ e. IsEngine e × Outside a b e) (a == i && b == j)
        (λ y. (new, ((λ h. absurd (ground arith)), λ h. absurd (ground arith)))) λ y. old a b,
)

put_entry-IsDecoder :
    (i : ℕ) (t : Pmt) (d : Decoder)
    → i < d.transport.tables.pmt_table_entries
    → IsValid t
    → t.pmt_pid ≡ (entry_at d.transport i).pmt_pid
    → IsDecoder d
    → IsDecoder (put_entry i t d)
put_entry-IsDecoder i t d lt v same ((s, n, l), a, b, c, o, m, x, e) = (
  (
    set-IsStore d.transport.tables s i _ t inside s.counted v
        (λ below z.
          s.filled i _ (get_elem?-eq-get_or _ i zeroed_pmt (omega (arith, inside, s.table_size))) lt
            (sym same ∙ z))
        (λ j a ne at below. s.filled j a at below),
    n,
    l,
  ),
  a,
  b,
  c,
  o,
  m,
  x,
  e,
)
  where
    inside : i < max_pmt_pids
    inside = omega (arith, s.counted)

data_engine-IsEngine : (i j : ℕ) (d : Decoder) → IsDecoder d → IsEngine (d.data_engine i j)
data_engine-IsEngine i j d (t, a, b, c, v, m, x, e) = (e i j).0

module _ (w : World) (p : List ℕ) (whole : length p ≡ ts_packet_size) where
  pub start_stream-Kept :
      (q adaptation i j : ℕ) (d : Decoder)
      → q ≤ 4 + adaptation
      → i < d.transport.tables.pmt_table_entries
      → j < (entry_at d.transport i).stream_count
      → IsDecoder d
      → Gives IsStep (start_stream w p q adaptation i j d)
  unfolding start_stream
  start_stream-Kept q adaptation i j d inside lt j_lt is =
      let entry_is = entry-IsValid _ is.0.0 i (omega (arith, is.0.0.counted)) in
      let entry = entry_at d.transport i in
      Gives-bind (IsStarted entry.pmt_pid) IsStep _
        (start_pes w p q adaptation d.transport.tables.pmt_table_entries
          (get_or entry.streams j zeroed_stream) entry (d.data_engine i j))
        (start_pes-IsStarted w p whole q adaptation d.transport.tables.pmt_table_entries
          (get_or entry.streams j zeroed_stream) entry (d.data_engine i j) inside entry_is
          (data_engine-IsEngine i j d is))
        λ (u, e, first, sends) (u_is, same, e_is).
          put_engine-IsDecoder i j e (put_entry i u d) (omega (arith, is.0.0.counted))
            (omega (arith, entry_is.bounded)) e_is (put_entry-IsDecoder i u d lt u_is same is)

  pub continue_streams-Kept :
      (q adaptation i k j : ℕ) (d : Decoder)
      → q ≤ 4 + adaptation
      → i < max_pmt_pids
      → j + k ≤ max_streams
      → IsDecoder d
      → Gives IsDecoder (continue_streams w p q adaptation i k j d)
  unfolding continue_streams
  continue_streams-Kept q adaptation i zero j d inside i_lt few is = is
  continue_streams-Kept q adaptation i (suc k) j d inside i_lt few is =
      let s = get_or (entry_at d.transport i).streams j zeroed_stream in
      Gives-bind IsEngine IsDecoder _
        (if s.stream_pid == current_pid p
          then continue_pes w p q adaptation (d.data_engine i j)
          else some (d.data_engine i j))
        (if_intro (Gives IsEngine) (s.stream_pid == current_pid p)
          (λ y.
            continue_pes-IsEngine w p whole q adaptation (d.data_engine i j) inside
              (data_engine-IsEngine i j d is))
          λ y. data_engine-IsEngine i j d is)
        λ e e_is.
          continue_streams-Kept q adaptation i k (suc j) (put_engine i j e d) inside i_lt
            (omega arith) (put_engine-IsDecoder i j e d i_lt (omega arith) e_is is)
