-- ===== src/Demux/StreamTests.antt =====
-- A test of decode_packets of source/tsdecode.c on a stream from its PAT to a frame.
use opensrthub.Base.{ℕ, ◌≡◌, refl, Option, none, some, List, [], ◌∷◌, replicate}
use opensrthub.Crc.{getcrc32}
use opensrthub.Pmt.Decode.{decode_pmt_table}
use opensrthub.Pmt.Select.{get_scte35_pid}
use opensrthub.Demux.State.{Decoder, Event, sent, cued, World, create_transport_data}
use opensrthub.Demux.Packets.{decode_packets}
use opensrthub.Demux.Association.{program_bytes}
use opensrthub.Demux.Tests.{heard, pat_packet, pes_packet}

-- One program of one H.264 stream.
abbrev pmt_packet : List ℕ
pmt_packet =
    0x47
    ∷ 0x50
    ∷ 0
    ∷ 0x10
    ∷ 0
    ∷ 2
    ∷ 0xb0
    ∷ 18
    ∷ 0
    ∷ 7
    ∷ 0xc7
    ∷ 0
    ∷ 0
    ∷ 0xe1
    ∷ 0
    ∷ 0xf0
    ∷ 0
    ∷ 0x1b
    ∷ 0xe1
    ∷ 0
    ∷ 0xf0
    ∷ 0
    ∷ 0x7f
    ∷ 0xd0
    ∷ 0xc8
    ∷ 0x32
    ∷ replicate 162 0xff

abbrev whole_stream : List (World × List ℕ)
whole_stream =
    (heard, pat_packet) ∷ (heard, pmt_packet) ∷ (heard, pes_packet) ∷ (heard, pes_packet) ∷ []

abbrev samples : List Event → List (List ℕ)
samples [] = []
samples (sent f ∷ es) = f.sample ∷ samples es
samples (cued c ∷ es) = samples es

abbrev samples_of : Option (Decoder × List Event) → List (List ℕ)
samples_of none = []
samples_of (some (d, es)) = samples es

whole_stream_frames :
    samples_of (decode_packets (some 0) whole_stream create_transport_data)
    ≡ replicate 170 0xab ∷ []
unfolding create_transport_data decode_packets program_bytes get_scte35_pid getcrc32
    decode_pmt_table
whole_stream_frames = refl
