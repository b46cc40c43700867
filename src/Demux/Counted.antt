-- ===== src/Demux/Counted.antt =====
-- What the table of PIDs holds after decode_packets of source/tsdecode.c.
use opensrthub.Base.{
  ℕ, ◌/◌, ◌%◌, ◌^◌, ◌≤◌, ◌≡◌, refl, sym, subst, ap, ◌∙◌, not, ◌||◌, ◌&&◌, ltb, leb, ◌==◌,
  if◌then◌else◌, if_intro, length, Option, some, List, [], ◌∷◌, replicate, occurrences, May,
  May-bind, Option-cases, Bool-cases, inl, inr,
}
use opensrthub.Demux.State.{
  Decoder, PacketEntry, Event, World, ts_packet_size, max_pids, unseen, create_transport_data,
}
use opensrthub.Demux.Header.{
  octet, current_pid, has_payload, has_adaptation, received_pcr, adaptation_size, take_pcr,
  take_adaptation, count_packet, count_pid,
}
use opensrthub.Demux.Packets.{decode_packet, decode_packets}
use opensrthub.Demux.Decoded.{AreClear, decode_packets-IsDecoder, create_transport_data-IsDecoder}
use opensrthub.Demux.Counts.{count_pids, counted, unused, counted-count_pids}
use opensrthub.Demux.Payload.{StepSame, after-Same, decode_payload-Same}

take_adaptation-Same :
    (p : List ℕ) (d : Decoder) → (take_adaptation p d).master_packet_table ≡ d.master_packet_table
unfolding take_adaptation take_pcr
take_adaptation-Same p d =
    if_intro (λ (e : Decoder). e.master_packet_table ≡ d.master_packet_table)
      (has_adaptation p && (not (has_payload p) || ltb 0 (octet p 4)) && octet p 5 / 2 ^ 4 % 2 == 1)
      (λ y. elim (Option-cases (d.initial_pcr_base (current_pid p))) [
        | inl e ↦ rw (e, take_pcr) refl
        | inr (base, e) ↦
            rw (e, take_pcr)
              (if_intro (λ (e : Decoder). e.master_packet_table ≡ d.master_packet_table)
                (octet p 5 / 2 ^ 7 % 2 == 1 || leb (received_pcr p) base) (λ y. refl) λ y. refl)
      ])
      λ y. refl

-- The PIDs of the packets that have their synchronisation byte.
unfoldable pub pids_of : List (World × List ℕ) → List ℕ
pids_of [] = []
pids_of ((w, p) ∷ ps) =
    let rest = pids_of ps in if octet p 0 == 0x47 then current_pid p ∷ rest else rest

table_after : List ℕ → List PacketEntry → List PacketEntry
table_after p t = if octet p 0 == 0x47 then count_pid (current_pid p) t else t

decode_packet-Same :
    (select : Option ℕ) (w : World) (p : List ℕ) (d : Decoder)
    → May (StepSame (table_after p d.master_packet_table)) (decode_packet select w p d)
unfolding decode_packet table_after count_packet
decode_packet-Same select w p d =
    if_intro (May (StepSame (table_after p d.master_packet_table))) (ltb (length p) ts_packet_size)
      (λ y. tt)
      λ y. elim (Bool-cases (octet p 0 == 0x47)) [
        | inr e ↦ rw e refl
        | inl e ↦ elim (Option-cases (adaptation_size p)) [
          | inl f ↦ rw (e, f) refl
          | inr (n, f) ↦
              rw (e, f)
                (decode_payload-Same (count_pid (current_pid p) d.master_packet_table) select w p n
                  (take_adaptation p (count_packet p d))
                  (take_adaptation-Same p (count_packet p d)))
        ]
      ]

count_pids_after :
    (w : World) (p : List ℕ) (ps : List (World × List ℕ)) (t : List PacketEntry)
    → count_pids (pids_of ((w, p) ∷ ps)) t ≡ count_pids (pids_of ps) (table_after p t)
unfolding pids_of table_after count_pids
count_pids_after w p ps t = elim (Bool-cases (octet p 0 == 0x47)) [
  | inl e ↦ rw e refl
  | inr e ↦ rw e refl
]

decode_packets-Same :
    (select : Option ℕ) (ps : List (World × List ℕ)) (d : Decoder)
    → May (StepSame (count_pids (pids_of ps) d.master_packet_table)) (decode_packets select ps d)
unfolding decode_packets count_pids pids_of
decode_packets-Same select [] d = refl
decode_packets-Same select ((w, p) ∷ ps) d =
    May-bind (StepSame (table_after p d.master_packet_table))
      (StepSame (count_pids (pids_of ((w, p) ∷ ps)) d.master_packet_table)) _
      (decode_packet select w p d) (decode_packet-Same select w p d)
      λ (e, es) same. after-Same (count_pids (pids_of ((w, p) ∷ ps)) d.master_packet_table) es _ (
        subst (λ t. May (StepSame t) (decode_packets select ps e))
          (ap (count_pids (pids_of ps)) same ∙ sym (count_pids_after w p ps d.master_packet_table))
          (decode_packets-Same select ps e))

-- From the state of create_transport_data, as long as the PIDs of the packets leave an entry of
-- the table of PIDs that is not in use, decode_packets ends and the table then holds for every PID
-- the number of the packets that came with it and with their synchronisation byte, whatever the
-- packets carry. The packets are of 188 bytes, each of no PMT PID of the PAT, or left by the loop
-- over the PMTs to no stream of the selected program.
pub decode_packets-counted :
    (select : Option ℕ) (ps : List (World × List ℕ)) (q : ℕ)
    → AreClear select ps create_transport_data
    → 1 ≤ unused (count_pids (pids_of ps) (replicate max_pids unseen))
    → (e : Decoder) × (es : List Event) × (decode_packets select ps create_transport_data
        ≡ some (e, es))
      × (counted q e.master_packet_table ≡ occurrences q (pids_of ps))
unfolding create_transport_data
decode_packets-counted select ps q clear room =
    let (e, f, es, done, is, destroyed, bare) =
      decode_packets-IsDecoder select ps create_transport_data create_transport_data-IsDecoder
        clear in
    let table : e.master_packet_table ≡ count_pids (pids_of ps) (replicate max_pids unseen) =
      subst (May (StepSame (count_pids (pids_of ps) (replicate max_pids unseen)))) done
        (decode_packets-Same select ps create_transport_data) in
    (e, es, done, ap (counted q) table ∙ counted-count_pids q (pids_of ps) room)
