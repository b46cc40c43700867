-- ===== src/Demux/Untouched.antt =====
-- The parts of decode_packets in source/tsdecode.c behind the header leave the table of PIDs alone.
use opensrthub.Base.{
  ℕ, zero, suc, ◌+◌, ◌-◌, ◌%◌, ◌^◌, ◌≡◌, Bool, true, not, ◌||◌, ◌&&◌, ltb, leb, ◌==◌, if◌then◌else◌,
  if_intro, length, get_or, Option, none, some, List, May, May-bind, May-any,
}
use opensrthub.Pmt.Table.{max_table_size}
use opensrthub.Pmt.Decode.{decode_pmt_table}
use opensrthub.Demux.State.{Decoder, PacketEntry, ts_packet_size}
use opensrthub.Demux.Header.{octet, word, current_pid}
use opensrthub.Demux.Sections.{
  Flow, ended, goes_on, copy_section, accept_section, forget, finish_section, start_section,
  start_program, visit_start, start_programs, continue_section, visit_continue, continue_programs,
  lacking, version_at, is_new, crc_matches,
}

module _ (t : List PacketEntry) where
  -- The table is this one.
  abbrev pub Same : Decoder → Type 0
  Same d = d.master_packet_table ≡ t

  abbrev pub FlowSame : Flow → Type 0
  FlowSame (ended d) = Same d
  FlowSame (goes_on q d) = Same d

  copy_section-Same :
      (p : List ℕ) (q n at : ℕ) (d : Decoder) → Same d → May Same (copy_section p q n at d)
  unfolding copy_section
  copy_section-Same p q n at d h =
      if_intro (May Same) (leb (q + n) (length p) && leb (at + n) (length d.pmt_data)) (λ y. h)
        λ y. tt

  accept_section-Same :
      (pid i version : ℕ) (d : Decoder) → Same d → May Same (accept_section pid i version d)
  unfolding accept_section
  accept_section-Same pid i version d h =
      May-bind (λ r. Unit) Same _
        (decode_pmt_table d.pmt_data d.pmt_data_size pid d.transport.tables)
        (May-any (decode_pmt_table d.pmt_data d.pmt_data_size pid d.transport.tables)) λ r u. h

  forget-Same : (o : Option Decoder) → May Same o → May Same (forget o)
  forget-Same none h = h
  forget-Same (some d) h = h

  finish_section-Same :
      (renewed : Bool) (pid i version : ℕ) (d : Decoder)
      → Same d
      → May Same (finish_section renewed pid i version d)
  unfolding finish_section
  finish_section-Same renewed pid i version d h = forget-Same _ (
      May-bind (λ r. Unit) Same _ (crc_matches d.pmt_data) (May-any (crc_matches d.pmt_data))
        λ matches u.
          if_intro (May Same) (not matches) (λ y. h)
            λ y.
              if_intro (May Same) renewed
                (λ y.
                  accept_section-Same pid i version
                    (record d { pmt_data_size = d.pmt_table_expected - 4 }) h)
                λ y. h)

  start_section-Same :
      (p : List ℕ) (before q i : ℕ) (d : Decoder) → Same d → May Same (start_section p before q i d)
  unfolding start_section
  start_section-Same p before q i d h =
      let available = ts_packet_size - before - (q - before) in
      let acquired =
        if ltb available (ts_packet_size - before) then available else ts_packet_size - before in
      let expected = word p (q + 2) % 2 ^ 12 + 4 in
      if_intro (May Same) (ltb max_table_size acquired || ltb max_table_size expected) (λ y. h)
        λ y.
          May-bind Same Same _ (copy_section p q acquired 0 _)
            (copy_section-Same p q acquired 0 _ h)
            λ copied same.
              if_intro (May Same) (ltb acquired expected) (λ y. same)
                λ y. finish_section-Same true (current_pid p) i (version_at p (q + 6)) copied same

  visit_start-Same :
      (p : List ℕ) (q i : ℕ) (d : Decoder) → Same d → May FlowSame (visit_start p q i d)
  unfolding visit_start start_program
  visit_start-Same p q i d h =
      let unit_size = octet p q in
      if_intro (May FlowSame) (leb (length d.pmt_pid_index) i) (λ y. tt)
        λ y.
          if_intro (May FlowSame) (get_or d.pmt_pid_index i 0 == current_pid p)
            {y = some (goes_on q d)}
            (λ y.
              if_intro (May FlowSame) (leb (length p) q) (λ y. tt)
                λ y.
                  if_intro (May FlowSame) (ltb (ts_packet_size - q) (unit_size + 7)) (λ y. h)
                    λ y.
                      if_intro (May FlowSame) (leb (length p) (q + unit_size + 6)) (λ y. tt)
                        λ y.
                          if_intro (May FlowSame) (not (octet p (q + unit_size + 1) == 2)) (λ y. h)
                            λ y.
                              if_intro (May FlowSame)
                                (is_new i (version_at p (q + unit_size + 6)) d)
                                (λ y.
                                  May-bind Same FlowSame _ (start_section p q (q + unit_size) i d)
                                    (start_section-Same p q (q + unit_size) i d h) λ e same. same)
                                λ y. h)
            λ y. h

  flow_step :
      (f : ℕ → Decoder → Option Flow) (o : Option Flow)
      → May FlowSame o
      → ((r : ℕ) (e : Decoder) → Same e → May FlowSame (f r e))
      → May FlowSame
          (elim o [ none ↦ none | some (ended e) ↦ some (ended e) | some (goes_on r e) ↦ f r e ])
  flow_step f none g h = g
  flow_step f (some (ended e)) g h = g
  flow_step f (some (goes_on r e)) g h = h r e g

  pub start_programs-Same :
      (p : List ℕ) (k i q : ℕ) (d : Decoder) → Same d → May FlowSame (start_programs p k i q d)
  unfolding start_programs
  start_programs-Same p zero i q d h = h
  start_programs-Same p (suc k) i q d h =
      flow_step (start_programs p k (suc i)) (visit_start p q i d) (visit_start-Same p q i d h)
        λ r e same. start_programs-Same p k (suc i) r e same

  continue_section-Same :
      (p : List ℕ) (q i n : ℕ) (d : Decoder) → Same d → May Same (continue_section p q i n d)
  unfolding continue_section
  continue_section-Same p q i n d h =
      May-bind Same Same _ (copy_section p q n d.pmt_table_acquired d)
        (copy_section-Same p q n d.pmt_table_acquired d h)
        λ copied same.
          if_intro (May Same) (leb d.pmt_table_expected (d.pmt_table_acquired + n))
            (λ y.
              finish_section-Same _ _ i _
                (record copied { pmt_table_acquired = d.pmt_table_acquired + n }) same)
            λ y. same

  pub continue_programs-Same :
      (p : List ℕ) (q k i n : ℕ) (d : Decoder) → Same d → May Same (continue_programs p q k i n d)
  unfolding continue_programs visit_continue
  continue_programs-Same p q zero i n d h = h
  continue_programs-Same p q (suc k) i n d h =
      May-bind (λ (r : ℕ × Decoder). Same r.1) Same _ (visit_continue p q i n d)
        (if_intro (May (λ (r : ℕ × Decoder). Same r.1)) (leb (length d.pmt_pid_index) i) (λ y. tt)
          λ y.
            if_intro (May (λ (r : ℕ × Decoder). Same r.1))
              (get_or d.pmt_pid_index i 0 == current_pid p
                && (ltb 0 d.pmt_table_acquired
                    && (ltb d.pmt_table_acquired max_table_size && ltb 0 d.pmt_table_expected)))
              (λ y.
                May-bind Same (λ (r : ℕ × Decoder). Same r.1) _
                  (continue_section p q i (lacking n d) d)
                  (continue_section-Same p q i (lacking n d) d h) λ e same. same)
              λ y. h)
        λ (left, e) same. continue_programs-Same p q k (suc i) left e same
