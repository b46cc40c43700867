-- ===== src/Demux/Payload.antt =====
-- The payload of a packet in decode_packets of source/tsdecode.c leaves the table of PIDs alone.
use opensrthub.Base.{
  ℕ, zero, suc, ◌+◌, ◌-◌, ◌%◌, ◌^◌, not, ◌||◌, ltb, leb, ◌==◌, if◌then◌else◌, if_intro, length,
  get_or, Option, none, some, List, [], May, May-bind, May-any,
}
use opensrthub.Pmt.Table.{max_pmt_pids, zeroed_stream}
use opensrthub.Pmt.Select.{entry_at}
use opensrthub.Demux.State.{Decoder, PacketEntry, Event, World, ts_packet_size, ts_payload_size}
use opensrthub.Demux.Header.{octet, word, pusi, current_pid, has_payload}
use opensrthub.Demux.Sections.{Flow, ended, goes_on, version_at, start_programs, continue_programs}
use opensrthub.Demux.Programs.{
  add_program, add_programs, known_version, is_fresh, take_section, decode_pat,
}
use opensrthub.Demux.Stream.{put_engine, start_pes, start_stream, continue_pes, continue_streams}
use opensrthub.Demux.Packets.{
  decode_cues, selected, stream_of, without_events, after, start_rest, start_payload,
  continue_payload, decode_payload,
}
use opensrthub.Demux.Untouched.{Same, FlowSame, start_programs-Same, continue_programs-Same}

module _ (t : List PacketEntry) where
  abbrev pub StepSame : Decoder × List Event → Type 0
  StepSame r = Same t r.0

  add_program-Same : (number pid : ℕ) (d : Decoder) → Same t d → Same t (add_program number pid d)
  unfolding add_program
  add_program-Same number pid d h =
      if_intro (Same t) (number == 0) (λ y. h)
        λ y. if_intro (Same t) (ltb d.transport.pmt_pid_count max_pmt_pids) (λ z. h) λ z. h

  add_programs-Same :
      (p : List ℕ) (k e : ℕ) (d : Decoder) → Same t d → May (Same t) (add_programs p k e d)
  unfolding add_programs
  add_programs-Same p zero e d h = h
  add_programs-Same p (suc k) e d h =
      if_intro (May (Same t)) (leb (length p) (e + 3)) (λ y. tt)
        λ y. add_programs-Same p k (e + 4) _ (add_program-Same _ _ d h)

  decode_pat-Same : (p : List ℕ) (q : ℕ) (d : Decoder) → Same t d → May (Same t) (decode_pat p q d)
  unfolding decode_pat take_section
  decode_pat-Same p q d h =
      let unit_size = octet p q in
      if_intro (May (Same t)) (leb (length p) q) (λ y. tt)
        λ y.
          if_intro (May (Same t)) (ltb (ts_packet_size - q) (unit_size + 9)) (λ y. h)
            λ y.
              if_intro (May (Same t)) (leb (length p) (q + unit_size + 8)) (λ y. tt)
                λ y.
                  if_intro (May (Same t)) (ltb (word p (q + unit_size + 2) % 2 ^ 12) 9) (λ y. h)
                    λ y.
                      if_intro (May (Same t))
                        (is_fresh (known_version (word p (q + unit_size + 4)) d)
                          (version_at p (q + unit_size + 6)))
                        (λ z. add_programs-Same p _ (q + unit_size + 9) _ h) λ z. h

  start_stream-Same :
      (w : World) (p : List ℕ) (q adaptation i j : ℕ) (d : Decoder)
      → Same t d
      → May StepSame (start_stream w p q adaptation i j d)
  unfolding start_stream
  start_stream-Same w p q adaptation i j d h =
      May-bind (λ r. Unit) StepSame _
        (start_pes w p q adaptation d.transport.tables.pmt_table_entries
          (get_or (entry_at d.transport i).streams j zeroed_stream) (entry_at d.transport i)
          (d.data_engine i j))
        (May-any _) λ r u. h

  continue_streams-Same :
      (w : World) (p : List ℕ) (q adaptation i k j : ℕ) (d : Decoder)
      → Same t d
      → May (Same t) (continue_streams w p q adaptation i k j d)
  unfolding continue_streams
  continue_streams-Same w p q adaptation i zero j d h = h
  continue_streams-Same w p q adaptation i (suc k) j d h =
      May-bind (λ e. Unit) (Same t) _
        (if (get_or (entry_at d.transport i).streams j zeroed_stream).stream_pid == current_pid p
          then continue_pes w p q adaptation (d.data_engine i j)
          else some (d.data_engine i j))
        (May-any _) λ e u. continue_streams-Same w p q adaptation i k (suc j) (put_engine i j e d) h

  without_events-Same : (o : Option Decoder) → May (Same t) o → May StepSame (without_events o)
  without_events-Same none h = h
  without_events-Same (some d) h = h

  pub after-Same :
      (es : List Event) (o : Option (Decoder × List Event))
      → May StepSame o
      → May StepSame (after es o)
  after-Same es none h = h
  after-Same es (some r) h = h

  module _ (select : Option ℕ) (w : World) (p : List ℕ) where
    start_rest-Same :
        (q adaptation : ℕ) (d : Decoder)
        → Same t d
        → May StepSame (start_rest select w p q adaptation d)
    unfolding start_rest
    start_rest-Same q adaptation d h = rest (stream_of select p d)
      where
        rest :
            (o : Option (ℕ × ℕ))
            → May StepSame (elim o [
              | some (i, j) ↦ start_stream w p q adaptation i j d
              | none ↦
                  if current_pid p == 0 then without_events (decode_pat p q d) else some (d, [])
            ])
        rest (some (i, j)) = start_stream-Same w p q adaptation i j d h
        rest none =
            if_intro (May StepSame) (current_pid p == 0) {y = some (d, [])}
              (λ y. without_events-Same (decode_pat p q d) (decode_pat-Same p q d h)) λ y. h

    flow-Same :
        (adaptation : ℕ) (cues : List Event) (o : Option Flow)
        → May (FlowSame t) o
        → May StepSame (elim o [
          | none ↦ none
          | some (ended e) ↦ some (e, cues)
          | some (goes_on r e) ↦ after cues (start_rest select w p r adaptation e)
        ])
    flow-Same adaptation cues none h = h
    flow-Same adaptation cues (some (ended e)) h = h
    flow-Same adaptation cues (some (goes_on r e)) h =
        after-Same cues _ (start_rest-Same r adaptation e h)

    continued :
        (q adaptation : ℕ) (e : Decoder) (o : Option ℕ)
        → Same t e
        → May StepSame (elim o [
          | none ↦ some (e, [])
          | some i ↦
              without_events
                (continue_streams w p q adaptation i (entry_at e.transport i).stream_count 0 e)
        ])
    continued q adaptation e none h = h
    continued q adaptation e (some i) h =
        without_events-Same _ (continue_streams-Same w p q adaptation i _ 0 e h)

    pub decode_payload-Same :
        (adaptation : ℕ) (d : Decoder)
        → Same t d
        → May StepSame (decode_payload select w p adaptation d)
    unfolding decode_payload start_payload continue_payload
    decode_payload-Same adaptation d h =
        let q = 4 + adaptation in
        if_intro (May StepSame) (not (has_payload p) || leb ts_payload_size adaptation)
          {x = some (d, [])} (λ y. h)
          λ y.
            if_intro (May StepSame) (pusi p)
              (λ y.
                May-bind (λ cues. Unit) StepSame _ (decode_cues w p q d)
                  (May-any (decode_cues w p q d))
                  λ cues u.
                    flow-Same adaptation cues (start_programs p d.transport.pmt_pid_count 0 q d)
                      (start_programs-Same t p d.transport.pmt_pid_count 0 q d h))
              λ y.
                May-bind (Same t) StepSame _
                  (continue_programs p q d.transport.pmt_pid_count 0 (ts_packet_size - q) d)
                  (continue_programs-Same t p q d.transport.pmt_pid_count 0 (ts_packet_size - q) d
                    h)
                  λ e same. continued q adaptation e (selected select e) same
