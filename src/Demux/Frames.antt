-- ===== src/Demux/Frames.antt =====
-- decode_packets of source/tsdecode.c: the frame of an elementary stream that the start of the next
-- one completes, and its delivery.
use opensrthub.Base.{
  ℕ, zero, suc, ◌+◌, ◌-◌, ◌/◌, ◌%◌, ◌^◌, Bool, true, false, ◌&&◌, ◌||◌, Option, none, some, List,
  [], ◌∷◌, ◌==◌, if◌then◌else◌,
}
use opensrthub.Pmt.Table.{Stream, mpeg2, h264, hevc, ac3, aac, mpeg, unknown_audio}
use opensrthub.Demux.State.{Engine, Frame, Event, sent, World}

-- The `n` bytes from position `i` on.
unfoldable pub prefix : (ℕ → ℕ) → ℕ → ℕ → List ℕ
prefix m i zero = []
prefix m i (suc n) = m i ∷ prefix m (suc i) n

-- How a stream type is delivered: with its STREAM_TYPE_ value and, for video of NAL units, how an
-- intra unit is told from the byte behind its start code.
pub data Delivery : Type 0 where
  sequence_video : Delivery
  nal_video : ℕ → (ℕ → Bool) → Delivery
  audio : ℕ → Delivery
  dropped : Delivery

abbrev pub is_intra_h264 : ℕ → Bool
is_intra_h264 b = let t = b % 2 ^ 5 in t == 5 || (t == 7 || t == 8)

abbrev pub is_intra_hevc : ℕ → Bool
is_intra_hevc b = let t = b % 2 ^ 7 / 2 in t == 20 || t == 19

unfoldable pub delivery : ℕ → Option ℕ → Delivery
delivery stream_type audio_index =
    if stream_type == 0x02 || stream_type == 0x80
    then sequence_video
    else if stream_type == 0x0f
    then audio aac
    else if stream_type == 0x81
    then audio ac3
    else if stream_type == 0x06 && elim audio_index [ none ↦ false | some k ↦ true ]
    then audio unknown_audio
    else if stream_type == 0x04 || (stream_type == 0x03 || stream_type == 0x01)
    then audio mpeg
    else if stream_type == 0x86
    then dropped
    else if stream_type == 0x24
    then nal_video hevc is_intra_hevc
    else if stream_type == 0x1b
    then nal_video h264 is_intra_h264
    else dropped

-- The loop from position `vf` over `k` start codes: whether an intra unit is found.
unfoldable pub find_intra : (ℕ → Bool) → (ℕ → ℕ) → ℕ → ℕ → Bool
find_intra is_intra m zero vf = false
find_intra is_intra m (suc k) vf =
    let rest = find_intra is_intra m k (suc vf) in
    if m vf == 0 && (m (vf + 1) == 0 && (m (vf + 2) == 1 && is_intra (m (vf + 3))))
    then true
    else rest

-- The four bytes of a sequence header's start code.
abbrev pub is_sequence : (ℕ → ℕ) → Bool
is_sequence m = m 0 == 0 && (m 1 == 0 && (m 2 == 1 && m 3 == 0xb3))

abbrev pub frame_of : ℕ → Bool → Option ℕ → Stream → Engine → ℕ → (ℕ → ℕ) → Frame
frame_of sample_type intra sub_source s e entries m = record {
  sample = prefix m 0 e.data_index;
  sample_type = sample_type;
  intra = intra;
  frame_pts = e.pts;
  frame_dts = e.dts;
  sub_source = sub_source;
  lang_tag = s.decoded_language_tag;
  corruptions = e.corruption_count;
  muxstreams = entries;
}

abbrev pub deliver : World → Frame → List Event
deliver w f = if w.registered then sent f ∷ [] else []

-- The count of frames, the frame, and whether it is an intra frame at the start of the stream.
unfoldable pub flush_frame :
    World → Stream → Engine → ℕ → (ℕ → ℕ) → Delivery → ℕ × Bool × List Event
unfolding find_intra prefix
flush_frame w s e entries m sequence_video = (
  if w.late then 0 else suc e.video_frame_count,
  false,
  deliver w (frame_of mpeg2 (is_sequence m) (some 0) s e entries m),
)
flush_frame w s e entries m (nal_video t is_intra) =
    let intra = find_intra is_intra m (e.data_index - 4) 0 in
    (
      suc e.video_frame_count,
      intra && e.video_frame_count == 0,
      deliver w (frame_of t intra (some 0) s e entries m),
    )
flush_frame w s e entries m (audio t) =
    (e.video_frame_count, false, deliver w (frame_of t true s.audio_stream_index s e entries m))
flush_frame w s e entries m dropped = (e.video_frame_count, false, [])

-- Nothing is read of a buffer that is not there; the buffer is there whenever `data_index` is not 0.
unfoldable pub flush : World → Stream → ℕ → Engine → Option (Engine × Bool × List Event)
unfolding flush_frame delivery
flush w s entries e = if e.data_index == 0 then some (e, false, []) else elim e.buffer [
  | none ↦ none
  | some m ↦
      let (count, first, sends) =
        flush_frame w s e entries m (delivery s.stream_type s.audio_stream_index) in
      some (record e { video_frame_count = count; data_index = 0; pts = 0; dts = 0 }, first, sends)
]
