-- ===== src/Demux/Decoded.antt =====
-- decode_packets of source/tsdecode.c is safe: it reads inside its packets, writes inside its buffers
-- and arrays, and keeps the invariant of its state.
use opensrthub.Base.{
  ℕ, ◌≡◌, refl, Option, none, some, List, [], ◌∷◌, arith, length, Gives, Gives-some,
}
use opensrthub.Pmt.Table.{create_tables}
use opensrthub.Pmt.Slots.{create_tables-IsTables}
use opensrthub.Demux.State.{Decoder, Event, World, ts_packet_size, create_transport_data}
use opensrthub.Demux.Packets.{decode_packet, decode_packets}
use opensrthub.Demux.Valid.{IsDecoder}
use opensrthub.Demux.Safety.{IsStep}
use opensrthub.Demux.Destroy.{destroy_transport_data, destroy_transport_data-freed}
use opensrthub.Demux.PacketSafety.{IsClear, entered, after-IsStep, decode_packet-IsStep}

-- Each packet has its size, and none is both of a program's PID and, when the programs have taken it,
-- of a stream's of the selected program.
unfoldable pub AreClear : Option ℕ → List (World × List ℕ) → Decoder → Type 0
AreClear select [] d = Unit
AreClear select ((w, p) ∷ ps) d =
    (length p ≡ ts_packet_size)
    × IsClear select p (entered p d)
    × ((e : Decoder) (es : List Event)
        → decode_packet select w p d ≡ some (e, es)
        → AreClear select ps e)

decode_packets-IsStep :
    (select : Option ℕ) (ps : List (World × List ℕ)) (d : Decoder)
    → AreClear select ps d
    → IsDecoder d
    → Gives IsStep (decode_packets select ps d)
unfolding decode_packets AreClear
decode_packets-IsStep select [] d clear is = is
decode_packets-IsStep select ((w, p) ∷ ps) d (whole, clear, rest) is =
    let ((e, es), same, kept) =
      Gives-some IsStep (decode_packet select w p d)
        (decode_packet-IsStep select w p whole d clear is) in
    rw (same, decode_packets)
      (after-IsStep es _ (decode_packets-IsStep select ps e (rest e es same) kept))

-- For packets of 188 bytes and any outcomes of malloc, decode_packets on a valid state ends, reads
-- only inside its packets, writes only inside its buffers and arrays, and leaves a valid state:
-- the tables hold valid entries, the counts stay inside their arrays, the section that is
-- collected fits pmt_data, and every frame that has begun fits a buffer that is there.
-- destroy_transport_data then frees every frame buffer. Each packet is of no PMT PID of the PAT,
-- or leaves the loop over the PMTs to no stream of the selected program.
pub decode_packets-IsDecoder :
    (select : Option ℕ) (ps : List (World × List ℕ)) (d : Decoder)
    → IsDecoder d
    → AreClear select ps d
    → (e f : Decoder) × (es : List Event) × (decode_packets select ps d ≡ some (e, es))
      × IsDecoder e
      × (destroy_transport_data (some e) ≡ some f)
      × ((i j : ℕ) → (f.data_engine i j).buffer ≡ none)
decode_packets-IsDecoder select ps d is clear =
    let ((e, es), same, kept) =
      Gives-some IsStep (decode_packets select ps d) (decode_packets-IsStep select ps d clear is) in
    let (f, destroyed, bare) = destroy_transport_data-freed e kept in
    (e, f, es, same, kept, destroyed, bare)

pub create_transport_data-IsDecoder : IsDecoder create_transport_data
unfolding create_transport_data create_tables
create_transport_data-IsDecoder =
    let is = create_tables-IsTables in
    (
      (
        record {
          table_size = is.table_size;
          counted = omega arith;
          valid = is.valid;
          filled = is.filled;
        },
        omega arith,
        refl,
      ),
      refl,
      refl,
      refl,
      refl,
      refl,
      omega arith,
      λ i j. ((refl, omega arith), ((λ h. refl), λ h. refl)),
    )
