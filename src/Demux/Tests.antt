-- ===== src/Demux/Tests.antt =====
-- Tests of the packet demultiplexer of source/tsdecode.c.
use opensrthub.Base.{
  ℕ, ◌==◌, ◌&&◌, if◌then◌else◌, if_intro, ◌≡◌, refl, inl, inr, Bool, true, false, none, some, List,
  [], ◌∷◌, ◌++◌, arith, replicate, set, occurrences,
}
use opensrthub.Pmt.Table.{Stream, Pmt, zeroed_stream, zeroed_pmt, create_tables}
use opensrthub.Pmt.Numbering.{range, audio_indices, cue_streams, Apart}
use opensrthub.Pmt.StreamLoop.{IsValid}
use opensrthub.Demux.State.{Engine, Decoder, Event, World, zeroed_engine, create_transport_data}
use opensrthub.Demux.Header.{count_pid, count_packet, take_adaptation}
use opensrthub.Demux.Frames.{sequence_video, delivery, flush}
use opensrthub.Demux.Stream.{timestamp, open_pes}
use opensrthub.Demux.Programs.{decode_pat}
use opensrthub.Demux.Packets.{stream_of, decode_packets}
use opensrthub.Demux.Store.{set-IsStore}
use opensrthub.Demux.Valid.{IsDecoder, IsEngine, Outside}
use opensrthub.Demux.Destroy.{destroy_transport_data}
use opensrthub.Demux.Decoded.{AreClear, decode_packets-IsDecoder, create_transport_data-IsDecoder}
use opensrthub.Demux.Continuity.{receive, gaps, IsClose, receive-gaps}
use opensrthub.Demux.Counts.{count_pids, counted, unused}
use opensrthub.Demux.Counted.{pids_of, decode_packets-counted}
use opensrthub.Demux.Association.{Program, program_bytes, pat_bytes, named, Lists}
use opensrthub.Demux.PatRoundTrip.{decode_pat-pat_bytes}
use opensrthub.Demux.Pes.{continue_all, payloads, first_bytes}
use opensrthub.Demux.Delivered.{Sends, flush-open_pes}

abbrev two_programs : List Program
two_programs = (0, 16) ∷ (7, 4096) ∷ []

abbrev pat_header : List ℕ
pat_header = 0x47 ∷ 0x40 ∷ 0 ∷ 0x10 ∷ []

abbrev stuffing : List ℕ
stuffing = replicate 167 0xff

abbrev pub pat_packet : List ℕ
pat_packet = pat_header ++ pat_bytes 1 3 two_programs stuffing

decode_pat-pat_bytes_example :
    (e : Decoder) × (decode_pat pat_packet 4 create_transport_data ≡ some e)
    × Lists ((7, 4096) ∷ []) e
unfolding create_transport_data named program_bytes
decode_pat-pat_bytes_example =
    decode_pat-pat_bytes pat_header stuffing 1 3 two_programs create_transport_data refl
      (omega arith) (omega arith) ((omega arith, omega arith), ((omega arith, omega arith), tt))
      (λ e. absurd (cc)) refl refl

abbrev pub heard : World
heard = record { registered = true; allocated = some (λ i. 7); late = false }

abbrev pub pes_packet : List ℕ
pes_packet =
    0x47
    ∷ 0x41
    ∷ 0x00
    ∷ 0x10
    ∷ 0
    ∷ 0
    ∷ 1
    ∷ 0xe0
    ∷ 0
    ∷ 0
    ∷ 0x80
    ∷ 0x80
    ∷ 5
    ∷ 0x21
    ∷ 0
    ∷ 1
    ∷ 0
    ∷ 3
    ∷ replicate 170 0xab

-- The two packets behind it; the second has an adaptation field of 150 bytes.
abbrev more_packets : List (List ℕ × ℕ)
more_packets =
    (0x47 ∷ 0x01 ∷ 0x00 ∷ 0x11 ∷ replicate 184 0xac, 0)
    ∷ (0x47 ∷ 0x01 ∷ 0x00 ∷ 0x32 ∷ 149 ∷ 0 ∷ replicate 182 0xad, 150)
    ∷ []

abbrev mpeg_video : Stream
mpeg_video = record zeroed_stream { stream_pid = 256; stream_type = 2 }

delivered_video : delivery 2 (some 0) ≡ sequence_video
unfolding delivery
delivered_video = refl

flush-open_pes_example :
    (u : Pmt) × (g h : Engine) × (r : Engine × Bool × List Event) × (open_pes heard pes_packet 4 0
        zeroed_pmt zeroed_engine
      ≡ some (u, g))
    × (continue_all heard more_packets g ≡ some h)
    × (flush heard mpeg_video 1 h ≡ some r)
    × Sends (first_bytes pes_packet 0 ++ payloads more_packets) 1 0 r.2
unfolding delivery timestamp
flush-open_pes_example =
    flush-open_pes heard pes_packet 0 more_packets mpeg_video zeroed_pmt zeroed_engine (λ i. 7) 1
      refl refl refl (omega arith) (λ e. absurd (omega arith)) (λ e. omega arith)
      (λ e. absurd (omega arith)) ((refl, omega arith), ((refl, omega arith), tt)) (omega arith)
      (λ e. absurd (cc))

-- Packets 3, 6 to 19 and 21 to 32 are missing.
receive-gaps_example :
    (receive
      (1 ∷ 2 ∷ 4 ∷ 5 ∷ 20 ∷ 33 ∷ [])
      (record zeroed_engine { corruption_count = 5 })).corruption_count
    ≡ 8
unfolding gaps IsClose
receive-gaps_example =
    receive-gaps 0 (1 ∷ 2 ∷ 4 ∷ 5 ∷ 20 ∷ 33 ∷ []) (record zeroed_engine { corruption_count = 5 })
      refl
      (
        omega arith,
        omega arith,
        (
          omega arith,
          omega arith,
          (
            omega arith,
            omega arith,
            (omega arith, omega arith, (omega arith, omega arith, (omega arith, omega arith, tt))),
          ),
        ),
      )

abbrev four_packets : List (World × List ℕ)
four_packets =
    (heard, pat_packet)
    ∷ (heard, pes_packet)
    ∷ (heard, 0x48 ∷ replicate 187 0)
    ∷ (heard, pes_packet)
    ∷ []

four_packets-AreClear : AreClear none four_packets create_transport_data
unfolding AreClear stream_of program_bytes
four_packets-AreClear = (
  refl,
  inr (λ n f r e h. refl),
  λ e es h. (
    refl,
    inr (λ n f r e h. refl),
    λ e es h.
        (refl, inr (λ n f r e h. refl), λ e es h. (refl, inr (λ n f r e h. refl), λ e es h. tt)),
  ),
)

decode_packets-counted_example :
    (e : Decoder) × (es : List Event) × (decode_packets none four_packets create_transport_data
      ≡ some (e, es))
    × (counted 256 e.master_packet_table ≡ 2)
unfolding occurrences unused count_pids count_pid pids_of
decode_packets-counted_example =
    decode_packets-counted none four_packets 256 four_packets-AreClear (omega arith)

-- A program of one stream, whose frame has begun.
abbrev video_entry : Pmt
video_entry = record zeroed_pmt {
  pmt_pid = 4096;
  stream_count = 1;
  streams = set zeroed_pmt.streams 0 (record mpeg_video { audio_stream_index = none });
}

video_entry-IsValid : IsValid video_entry
unfolding range audio_indices cue_streams Apart
video_entry-IsValid = record {
  descriptor_room = refl;
  stream_room = refl;
  bounded = omega arith;
  indices = refl;
  cue_count = refl;
  apart = (λ e. refl, tt);
}

abbrev receiving : Decoder
receiving = record create_transport_data {
  data_engine = λ i j.
      if i == 0 && j == 0
      then record zeroed_engine { buffer = some (λ i. 7); data_index = 170 }
      else zeroed_engine;
  transport = record create_transport_data.transport {
    tables = record {
      pmt_table_entries = 1;
      master_pmt_table = set create_tables.master_pmt_table 0 video_entry;
    };
  };
}

receiving-IsDecoder : IsDecoder receiving
unfolding create_transport_data
receiving-IsDecoder =
    let ((s, n, l), a, b, c, v, m, x, e) = create_transport_data-IsDecoder in
    (
      (
        set-IsStore create_tables s 0 1 video_entry (omega arith) (omega arith) video_entry-IsValid
            (λ lt z. absurd (omega arith)) (λ j q ne at lt. absurd (ne (omega arith))),
        n,
        l,
      ),
      a,
      b,
      c,
      v,
      m,
      x,
      λ i j.
          if_intro (λ e. IsEngine e × Outside i j e) (i == 0 && j == 0)
            (λ y. ((tt, omega arith), ((λ h. absurd (ground arith)), λ h. absurd (ground arith))))
            λ y. ((refl, omega arith), ((λ h. refl), λ h. refl)),
    )

one_packet-AreClear : AreClear (some 0) ((heard, pes_packet) ∷ []) receiving
unfolding AreClear create_transport_data count_packet take_adaptation
one_packet-AreClear = (refl, inl (λ i lt. elim lt [ ]), λ e es h. tt)

decode_packets-IsDecoder_example :
    (e f : Decoder) × (es : List Event) × (decode_packets
        (some 0)
        ((heard, pes_packet) ∷ [])
        receiving
      ≡ some (e, es))
    × IsDecoder e
    × (destroy_transport_data (some e) ≡ some f)
    × ((i j : ℕ) → (f.data_engine i j).buffer ≡ none)
decode_packets-IsDecoder_example =
    decode_packets-IsDecoder (some 0) ((heard, pes_packet) ∷ []) receiving receiving-IsDecoder
      one_packet-AreClear
