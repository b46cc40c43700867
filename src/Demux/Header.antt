-- ===== src/Demux/Header.antt =====
-- decode_packets of source/tsdecode.c: the header of a packet, the table of PIDs and the adaptation
-- field. The calls of gettimeofday and the multiplex rate, which nothing reads, are left out.
use opensrthub.Base.{
  ℕ, suc, ◌+◌, ◌*◌, ◌/◌, ◌%◌, ◌^◌, Bool, ◌&&◌, ◌||◌, not, Option, none, some, List, [], ◌∷◌, ltb,
  leb, ◌==◌, if◌then◌else◌, get_or,
}
use opensrthub.Demux.State.{PacketEntry, Decoder}

-- An entry of this PID that is valid is counted, else the first that is not becomes the PID's.
unfoldable pub count_pid : ℕ → List PacketEntry → List PacketEntry
count_pid current_pid [] = []
count_pid current_pid (e ∷ es) =
    let rest = count_pid current_pid es in
    if e.pid == current_pid && e.valid
    then record e { input_packets = suc e.input_packets } ∷ es
    else if not e.valid
    then record { pid = current_pid; input_packets = 1; valid = Bool.true } ∷ es
    else e ∷ rest

module _ (p : List ℕ) where
  abbrev pub octet : ℕ → ℕ
  octet i = get_or p i 0

  -- The two bytes at `i`, the first the high one.
  abbrev pub word : ℕ → ℕ
  word i = octet i * 2 ^ 8 + octet (i + 1)

  abbrev pub pusi : Bool
  pusi = octet 1 / 2 ^ 6 % 2 == 1

  abbrev pub current_pid : ℕ
  current_pid = word 1 % 2 ^ 13

  -- The two bits of afc: an adaptation field, and a payload.
  abbrev pub has_adaptation : Bool
  has_adaptation = octet 3 / 2 ^ 5 % 2 == 1

  abbrev pub has_payload : Bool
  has_payload = octet 3 / 2 ^ 4 % 2 == 1

  abbrev pub continuity_counter : ℕ
  continuity_counter = octet 3 % 2 ^ 4

  -- The base of 33 bits in units of 300, and the extension of 9 bits.
  unfoldable pub received_pcr : ℕ
  received_pcr =
      ((octet 6 * 2 ^ 24 + octet 7 * 2 ^ 16 + octet 8 * 2 ^ 8 + octet 9) * 2 + octet 10 / 2 ^ 7 % 2)
        * 300
      + (octet 10 % 2 * 2 ^ 8 + octet 11)

  -- A PCR opens the window of its PID, or opens it again at a discontinuity or without progress.
  unfoldable pub take_pcr : Decoder → Decoder
  unfolding received_pcr
  take_pcr d =
      let opened = record d {
        initial_pcr_base =
            λ pid. if pid == current_pid then some received_pcr else d.initial_pcr_base pid;
        received_ts_packets = 0;
      } in
      elim (d.initial_pcr_base current_pid) [
        | none ↦ record opened { initial_pcr_ext = 0 }
        | some base ↦ if octet 5 / 2 ^ 7 % 2 == 1 || leb received_pcr base then opened else d
      ]

  -- `none` is an adaptation field that is larger than the packet; else the bytes it takes, its
  -- length byte included. Without a payload it fills the packet.
  unfoldable pub adaptation_size : Option ℕ
  adaptation_size =
      if not has_adaptation
      then some 0
      else if not has_payload
      then some 184
      else if ltb 183 (octet 4)
      then none
      else some (suc (octet 4))

  unfoldable pub take_adaptation : Decoder → Decoder
  unfolding take_pcr
  take_adaptation d =
      if has_adaptation && (not has_payload || ltb 0 (octet 4)) && octet 5 / 2 ^ 4 % 2 == 1
      then take_pcr d
      else d

  -- The counters of packets, in front of the adaptation field.
  unfoldable pub count_packet : Decoder → Decoder
  unfolding count_pid
  count_packet d = record d {
    received_ts_packets = suc d.received_ts_packets;
    total_input_packets = suc d.total_input_packets;
    master_packet_table = count_pid current_pid d.master_packet_table;
  }
