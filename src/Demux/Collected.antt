-- ===== src/Demux/Collected.antt =====
-- The loops of decode_packets in source/tsdecode.c over the programs, under the invariant.
use opensrthub.Base.{
  ℕ, zero, suc, ◌+◌, ◌-◌, ◌≤◌, ◌<◌, ◌≡◌, Option, none, some, List, arith, length, get_or, ltb, leb,
  if_intro, not, ◌==◌, ◌&&◌, Gives, Gives-bind,
}
use opensrthub.Pmt.Table.{max_pmt_pids, max_table_size}
use opensrthub.Demux.State.{Decoder, ts_packet_size}
use opensrthub.Demux.Header.{octet, current_pid}
use opensrthub.Demux.Sections.{
  Flow, ended, goes_on, copy_section, start_section, start_program, visit_start, start_programs,
  lacking, continue_section, visit_continue, continue_programs, is_new, version_at,
}
use opensrthub.Demux.Valid.{
  IsDecoder, IsFlow, copy_section-Kept, finish_section-Kept, start_section-Kept,
}

flow_intro :
    (f : ℕ → Decoder → Option Flow) (o : Option Flow)
    → Gives IsFlow o
    → ((r : ℕ) (e : Decoder) → 4 ≤ r → r < ts_packet_size → IsDecoder e → Gives IsFlow (f r e))
    → Gives IsFlow
        (elim o [ none ↦ none | some (ended e) ↦ some (ended e) | some (goes_on r e) ↦ f r e ])
flow_intro f none g h = g
flow_intro f (some (ended e)) g h = g
flow_intro f (some (goes_on r e)) (low, lt, is) h = h r e low lt is

module _ (p : List ℕ) (whole : length p ≡ ts_packet_size) where
  start_program-Kept :
      (q i : ℕ) (d : Decoder)
      → 4 ≤ q
      → q < ts_packet_size
      → IsDecoder d
      → Gives IsFlow (start_program p q i d)
  unfolding start_program
  start_program-Kept q i d low lt is =
      let unit_size = octet p q in
      if_intro (Gives IsFlow) (leb (length p) q) (λ y. absurd (ground arith))
        λ a.
          if_intro (Gives IsFlow) (ltb (ts_packet_size - q) (unit_size + 7)) (λ y. is)
            λ b.
              if_intro (Gives IsFlow) (leb (length p) (q + unit_size + 6))
                (λ y. absurd (ground arith))
                λ c.
                  if_intro (Gives IsFlow) (not (octet p (q + unit_size + 1) == 2)) (λ y. is)
                    λ t.
                      if_intro (Gives IsFlow) (is_new i (version_at p (q + unit_size + 6)) d)
                        (λ y.
                          Gives-bind IsDecoder IsFlow _ (start_section p q (q + unit_size) i d)
                            (start_section-Kept p q (q + unit_size) i d whole (omega arith)
                              (ground arith) low is)
                            λ e kept. (omega arith, ground arith, kept))
                        λ y. (omega arith, ground arith, is)

  visit_start-Kept :
      (q i : ℕ) (d : Decoder)
      → 4 ≤ q
      → q < ts_packet_size
      → i < max_pmt_pids
      → IsDecoder d
      → Gives IsFlow (visit_start p q i d)
  unfolding visit_start
  visit_start-Kept q i d low lt listed is =
      if_intro (Gives IsFlow) (leb (length d.pmt_pid_index) i) (λ y. absurd (ground (arith, is.2)))
        λ y.
          if_intro (Gives IsFlow) (get_or d.pmt_pid_index i 0 == current_pid p)
            {x = start_program p q i d} {y = some (goes_on q d)}
            (λ y. start_program-Kept q i d low lt is) λ y. (low, lt, is)

  pub start_programs-Kept :
      (k i q : ℕ) (d : Decoder)
      → 4 ≤ q
      → q < ts_packet_size
      → i + k ≤ max_pmt_pids
      → IsDecoder d
      → Gives IsFlow (start_programs p k i q d)
  unfolding start_programs
  start_programs-Kept zero i q d low lt listed is = (low, lt, is)
  start_programs-Kept (suc k) i q d low lt listed is =
      flow_intro (start_programs p k (suc i)) (visit_start p q i d)
        (visit_start-Kept q i d low lt (omega arith) is)
        λ r e low lt is. start_programs-Kept k (suc i) r e low lt (omega arith) is

  continue_section-Kept :
      (q i n : ℕ) (d : Decoder)
      → q + n ≤ ts_packet_size
      → d.pmt_table_acquired + n ≤ max_table_size
      → IsDecoder d
      → Gives IsDecoder (continue_section p q i n d)
  unfolding continue_section
  continue_section-Kept q i n d inside fits is =
      Gives-bind IsDecoder IsDecoder _ (copy_section p q n d.pmt_table_acquired d)
        (copy_section-Kept p whole q n d.pmt_table_acquired d inside fits is)
        λ copied kept.
          if_intro (Gives IsDecoder) (leb d.pmt_table_expected (d.pmt_table_acquired + n))
            (λ y.
              finish_section-Kept _ _ i _
                (record copied { pmt_table_acquired = d.pmt_table_acquired + n }) kept)
            λ y. kept

  -- The bytes that are left lie in the packet.
  IsLeft : ℕ → ℕ × Decoder → Type 0
  IsLeft q (n, d) = (q + n ≤ ts_packet_size) × IsDecoder d

  visit_continue-Kept :
      (q i n : ℕ) (d : Decoder)
      → q + n ≤ ts_packet_size
      → i < max_pmt_pids
      → IsDecoder d
      → Gives (IsLeft q) (visit_continue p q i n d)
  unfolding visit_continue IsLeft
  visit_continue-Kept q i n d inside listed is =
      if_intro (Gives (IsLeft q)) (leb (length d.pmt_pid_index) i)
        (λ y. absurd (ground (arith, is.2)))
        λ y.
          if_intro (Gives (IsLeft q))
            (get_or d.pmt_pid_index i 0 == current_pid p
              && (ltb 0 d.pmt_table_acquired
                  && (ltb d.pmt_table_acquired max_table_size && ltb 0 d.pmt_table_expected)))
            (λ y.
              Gives-bind IsDecoder (IsLeft q) _ (continue_section p q i (lacking n d) d)
                (continue_section-Kept q i (lacking n d) d (ground arith) (ground arith) is)
                λ e kept. (ground arith, kept))
            λ y. (inside, is)

  pub continue_programs-Kept :
      (q k i n : ℕ) (d : Decoder)
      → q + n ≤ ts_packet_size
      → i + k ≤ max_pmt_pids
      → IsDecoder d
      → Gives IsDecoder (continue_programs p q k i n d)
  unfolding continue_programs IsLeft
  continue_programs-Kept q zero i n d inside listed is = is
  continue_programs-Kept q (suc k) i n d inside listed is =
      Gives-bind (IsLeft q) IsDecoder _ (visit_continue p q i n d)
        (visit_continue-Kept q i n d inside (omega arith) is)
        λ (left, e) (inside, kept).
          continue_programs-Kept q k (suc i) left e inside (omega arith) kept
