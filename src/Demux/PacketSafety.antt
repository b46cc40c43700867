-- ===== src/Demux/PacketSafety.antt =====
-- One packet of decode_packets in source/tsdecode.c, under the invariant.
use opensrthub.Base.{
  ℕ, zero, suc, ◌+◌, ◌-◌, ◌/◌, ◌%◌, ◌^◌, drop, ◌≤◌, ◌<◌, ◌≡◌, ◌≢◌, ◌⊎◌, inl, inr, refl, sym, ap,
  ◌∙◌, Option, none, some, List, [], ◌∷◌, arith, ◌||◌, ◌&&◌, length, get_or, ltb, leb, if_intro,
  not, ◌==◌, Gives, Gives-bind, Gives-some, ==_iff, Option-cases,
}
use opensrthub.Pmt.Table.{max_pmt_pids, max_streams}
use opensrthub.Pmt.Select.{entry_at, get_scte35_pid}
use opensrthub.Scte35.Section
use opensrthub.Scte35.SectionSafety.{decode_section_total}
use opensrthub.Demux.State.{PacketEntry, Decoder, Event, World, ts_packet_size, ts_payload_size}
use opensrthub.Demux.Header.{
  octet, pusi, current_pid, has_payload, has_adaptation, count_pid, adaptation_size, received_pcr,
  take_pcr, take_adaptation, count_packet,
}
use opensrthub.Demux.Sections.{Flow, ended, goes_on, visit_start, start_programs, continue_programs}
use opensrthub.Demux.Programs.{decode_pat}
use opensrthub.Demux.Packets.{
  decode_cues, selected, stream_of, without_events, after, start_rest, start_payload,
  continue_payload, decode_payload, decode_packet,
}
use opensrthub.Demux.Placing.{stream_of_lt, selected_lt}
use opensrthub.Demux.Store.{entry-IsValid}
use opensrthub.Demux.Valid.{IsDecoder, IsFlow}
use opensrthub.Demux.Collected.{start_programs-Kept, continue_programs-Kept}
use opensrthub.Demux.Safety.{IsStep, decode_pat-Kept, start_stream-Kept, continue_streams-Kept}

length-count_pid : (pid : ℕ) (es : List PacketEntry) → length (count_pid pid es) ≡ length es
unfolding count_pid
length-count_pid pid [] = refl
length-count_pid pid (e ∷ es) = ground (arith, length-count_pid pid es)

-- The state once the header and the adaptation field are taken.
abbrev pub entered : List ℕ → Decoder → Decoder
entered p d = take_adaptation p (count_packet p d)

count_packet-IsDecoder : (p : List ℕ) (d : Decoder) → IsDecoder d → IsDecoder (count_packet p d)
unfolding count_packet
count_packet-IsDecoder p d (t, a, b, c, v, m, x, e) =
    (t, length-count_pid (current_pid p) d.master_packet_table ∙ a, b, c, v, m, x, e)

take_pcr-IsDecoder : (p : List ℕ) (d : Decoder) → IsDecoder d → IsDecoder (take_pcr p d)
unfolding take_pcr
take_pcr-IsDecoder p d is = elim (Option-cases (d.initial_pcr_base (current_pid p))) [
  | inl e ↦ rw (e, take_pcr) is
  | inr (base, e) ↦
      rw (e, take_pcr)
        (if_intro IsDecoder (octet p 5 / 2 ^ 7 % 2 == 1 || leb (received_pcr p) base) (λ y. is)
          λ y. is)
]

entered-IsDecoder : (p : List ℕ) (d : Decoder) → IsDecoder d → IsDecoder (entered p d)
unfolding take_adaptation
entered-IsDecoder p d is =
    let counted = count_packet-IsDecoder p d is in
    if_intro IsDecoder
      (has_adaptation p && (not (has_payload p) || ltb 0 (octet p 4)) && octet p 5 / 2 ^ 4 % 2 == 1)
      (λ y. take_pcr-IsDecoder p (count_packet p d) counted) λ y. counted

without_events-IsStep : (o : Option Decoder) → Gives IsDecoder o → Gives IsStep (without_events o)
without_events-IsStep none g = g
without_events-IsStep (some d) g = g

pub after-IsStep :
    (es : List Event) (o : Option (Decoder × List Event))
    → Gives IsStep o
    → Gives IsStep (after es o)
after-IsStep es none g = g
after-IsStep es (some r) g = g

decode_cues-total :
    (w : World) (p : List ℕ) (q : ℕ) (d : Decoder) → Gives (λ es. Unit) (decode_cues w p q d)
unfolding decode_cues
decode_cues-total w p q d =
    let pid = get_scte35_pid (some d.transport) in
    if_intro (Gives (λ es. Unit)) (not (pid == 0) && current_pid p == pid)
      (λ y.
        Gives-bind (λ cs. Unit) (λ es. Unit) _ (Section.decode_section (drop q p) (current_pid p))
          (let (cs, e) = decode_section_total (drop q p) (current_pid p) in rw e tt) λ cs u. tt)
      λ y. tt

-- No program has the packet's PID.
abbrev pub Unlisted : List ℕ → Decoder → Type 0
Unlisted p d = (i : ℕ) → i < d.transport.pmt_pid_count → get_or d.pmt_pid_index i 0 ≢ current_pid p

-- No stream of the selected program has it, once the programs have taken the packet behind an
-- adaptation field of this size.
abbrev pub Streamless : Option ℕ → List ℕ → ℕ → Decoder → Type 0
Streamless select p adaptation d =
    (r : ℕ) (e : Decoder)
    → start_programs p d.transport.pmt_pid_count 0 (4 + adaptation) d ≡ some (goes_on r e)
    → stream_of select p e ≡ none

-- The one or the other, for the adaptation field that the packet has.
abbrev pub IsClear : Option ℕ → List ℕ → Decoder → Type 0
IsClear select p d = Unlisted p d ⊎ ((n : ℕ) → adaptation_size p ≡ some n → Streamless select p n d)

visit_start_unlisted :
    (p : List ℕ) (q i : ℕ) (d : Decoder)
    → i < length d.pmt_pid_index
    → get_or d.pmt_pid_index i 0 ≢ current_pid p
    → visit_start p q i d ≡ some (goes_on q d)
unfolding visit_start
visit_start_unlisted p q i d listed ne =
    if_intro (λ o. o ≡ some (goes_on q d)) (leb (length d.pmt_pid_index) i)
      (λ e. absurd (ground arith))
      λ e.
        if_intro (λ o. o ≡ some (goes_on q d)) (get_or d.pmt_pid_index i 0 == current_pid p)
          (λ e. absurd (ne ((==_iff _ _).0 e))) λ e. refl

start_programs_unlisted :
    (p : List ℕ) (k i q : ℕ) (d : Decoder)
    → i + k ≤ length d.pmt_pid_index
    → ((j : ℕ) → j < i + k → get_or d.pmt_pid_index j 0 ≢ current_pid p)
    → start_programs p k i q d ≡ some (goes_on q d)
unfolding start_programs
start_programs_unlisted p zero i q d listed h = refl
start_programs_unlisted p (suc k) i q d listed h =
    ap
      (λ (o : Option Flow). elim o [
        | none ↦ none
        | some (ended e) ↦ some (ended e)
        | some (goes_on r e) ↦ start_programs p k (suc i) r e
      ])
      (visit_start_unlisted p q i d (omega arith) (h i (omega arith)))
    ∙ start_programs_unlisted p k (suc i) q d (omega arith) (λ j lt. h j (omega arith))

bounded_at :
    (i : ℕ) (d : Decoder)
    → i < max_pmt_pids
    → IsDecoder d
    → 0 + (entry_at d.transport i).stream_count ≤ max_streams
bounded_at i d lt is =
    let v = entry-IsValid d.transport.tables is.0.0 i lt in omega (arith, v.bounded)

module _ (select : Option ℕ) (w : World) (p : List ℕ) (whole : length p ≡ ts_packet_size) where
  start_rest-IsStep :
      (q adaptation : ℕ) (d : Decoder)
      → q < ts_packet_size
      → (q ≤ 4 + adaptation) ⊎ (stream_of select p d ≡ none)
      → IsDecoder d
      → Gives IsStep (start_rest select w p q adaptation d)
  unfolding start_rest
  start_rest-IsStep q adaptation d lt clear is = elim (Option-cases (stream_of select p d)) [
    | inl e ↦
        rw (e, start_rest)
          (if_intro (Gives IsStep) (current_pid p == 0)
            (λ y. without_events-IsStep (decode_pat p q d) (decode_pat-Kept p whole q d lt is))
            λ y. is)
    | inr ((i, j), e) ↦
        rw (e, start_rest)
          (start_stream-Kept w p whole q adaptation i j d
            (elim clear [ inl le ↦ le | inr n ↦ absurd (cc) ]) (stream_of_lt select p d i j e).0
            (stream_of_lt select p d i j e).1 is)
  ]

  flow-IsStep :
      (adaptation : ℕ) (d : Decoder) (cues : List Event) (f : Flow)
      → 4 + adaptation < ts_packet_size
      → Unlisted p d ⊎ Streamless select p adaptation d
      → IsDecoder d
      → start_programs p d.transport.pmt_pid_count 0 (4 + adaptation) d ≡ some f
      → IsFlow f
      → Gives IsStep (elim f [
        | ended e ↦ some (e, cues)
        | goes_on r e ↦ after cues (start_rest select w p r adaptation e)
      ])
  flow-IsStep adaptation d cues (ended e) lt clear begun s is = is
  flow-IsStep adaptation d cues (goes_on r e) lt clear begun s (low, high, is) =
      after-IsStep cues _ (
        start_rest-IsStep r adaptation e high
          (elim clear [ inl other ↦ inl (stays other) | inr none_of ↦ inr (none_of r e s) ]) is)
    where
      offset_of : Option Flow → ℕ
      offset_of none = 0
      offset_of (some (ended e)) = 0
      offset_of (some (goes_on r e)) = r

      stays : Unlisted p d → r ≤ 4 + adaptation
      stays other =
          let same : r ≡ 4 + adaptation = ap offset_of (
            sym s
            ∙ start_programs_unlisted p d.transport.pmt_pid_count 0 (4 + adaptation) d
                (omega (arith, begun.0, begun.2)) (λ j lt. other j (omega arith))) in
          omega arith

  start_payload-IsStep :
      (adaptation : ℕ) (d : Decoder)
      → 4 + adaptation < ts_packet_size
      → Unlisted p d ⊎ Streamless select p adaptation d
      → IsDecoder d
      → Gives IsStep (start_payload select w p (4 + adaptation) adaptation d)
  unfolding start_payload
  start_payload-IsStep adaptation d lt clear is =
      Gives-bind (λ es. Unit) IsStep _ (decode_cues w p (4 + adaptation) d)
        (decode_cues-total w p (4 + adaptation) d)
        λ cues u.
          let (f, e, f_is) =
            Gives-some IsFlow (start_programs p d.transport.pmt_pid_count 0 (4 + adaptation) d) (
              start_programs-Kept p whole d.transport.pmt_pid_count 0 (4 + adaptation) d
                (omega arith) lt (omega (arith, is.0)) is) in
          rw e (flow-IsStep adaptation d cues f lt clear is e f_is)

  continue_payload-IsStep :
      (adaptation : ℕ) (d : Decoder)
      → 4 + adaptation < ts_packet_size
      → IsDecoder d
      → Gives IsStep (continue_payload select w p (4 + adaptation) adaptation d)
  unfolding continue_payload
  continue_payload-IsStep adaptation d lt is =
      Gives-bind IsDecoder IsStep _
        (continue_programs p (4 + adaptation) d.transport.pmt_pid_count 0
          (ts_packet_size - (4 + adaptation)) d)
        (continue_programs-Kept p whole (4 + adaptation) d.transport.pmt_pid_count 0
          (ts_packet_size - (4 + adaptation)) d (omega arith) (omega (arith, is.0)) is)
        λ e kept. elim (Option-cases (selected select e)) [
          | inl o ↦ rw o kept
          | inr (i, o) ↦ rw o (
              without_events-IsStep _ (
                continue_streams-Kept w p whole (4 + adaptation) adaptation i
                  (entry_at e.transport i).stream_count 0 e (omega arith)
                  (omega (arith, kept.0.0.counted, selected_lt select e i o))
                  (bounded_at i e (omega (arith, kept.0.0.counted, selected_lt select e i o)) kept)
                  kept))
        ]

  decode_payload-IsStep :
      (adaptation : ℕ) (d : Decoder)
      → Unlisted p d ⊎ Streamless select p adaptation d
      → IsDecoder d
      → Gives IsStep (decode_payload select w p adaptation d)
  unfolding decode_payload
  decode_payload-IsStep adaptation d clear is =
      if_intro (Gives IsStep) (not (has_payload p) || leb ts_payload_size adaptation)
        {x = some (d, [])} (λ y. is)
        λ y.
          if_intro (Gives IsStep) (pusi p)
            (λ z. start_payload-IsStep adaptation d (ground arith) clear is)
            λ z. continue_payload-IsStep adaptation d (ground arith) is

  pub decode_packet-IsStep :
      (d : Decoder)
      → IsClear select p (entered p d)
      → IsDecoder d
      → Gives IsStep (decode_packet select w p d)
  unfolding decode_packet
  decode_packet-IsStep d clear is =
      if_intro (Gives IsStep) (ltb (length p) ts_packet_size) (λ y. absurd (ground arith))
        λ y.
          if_intro (Gives IsStep) (not (octet p 0 == 0x47)) {x = some (d, [])} (λ z. is)
            λ z. elim (Option-cases (adaptation_size p)) [
              | inl e ↦ rw e (count_packet-IsDecoder p d is)
              | inr (n, e) ↦ rw e (
                  decode_payload-IsStep n (entered p d)
                    (elim clear [ inl other ↦ inl other | inr none_of ↦ inr (none_of n e) ])
                    (entered-IsDecoder p d is))
            ]
