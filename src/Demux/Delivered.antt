-- ===== src/Demux/Delivered.antt =====
-- The frame that decode_packets of source/tsdecode.c delivers is the payload of its PES packet.
use opensrthub.Base.{
  ℕ, ◌+◌, ◌≤◌, ◌<◌, ◌≡◌, ◌≢◌, refl, ◌∙◌, Bool, true, some, List, [], ◌∷◌, ◌++◌, arith, All, length,
  length-append, if_intro, ◌==◌, Gives, Gives-bind, Gives-some,
}
use opensrthub.Pmt.Table.{Stream, Pmt}
use opensrthub.Demux.State.{
  Engine, Frame, Event, sent, World, ts_packet_size, ts_payload_size, max_buffer_size,
}
use opensrthub.Demux.Frames.{
  prefix, Delivery, sequence_video, nal_video, audio, dropped, delivery, deliver, flush_frame,
  flush,
}
use opensrthub.Demux.Stream.{buffer_of, open_pes}
use opensrthub.Demux.Reassembly.{Carries}
use opensrthub.Demux.Pes.{
  continue_all, continue_all-Carries, payloads, IsPacket, header, stamps, first_bytes, pts_of,
  dts_of, size, open_pes-Opened,
}

-- One frame is sent, with this sample and these time stamps.
abbrev pub Sends : List ℕ → ℕ → ℕ → List Event → Type 0
Sends xs pts dts es =
    (f : Frame) × (es ≡ sent f ∷ []) × (f.sample ≡ xs) × (f.frame_pts ≡ pts) × (f.frame_dts ≡ dts)

module _ (w : World) (heard : w.registered ≡ true) (s : Stream) (entries : ℕ) where
  deliver-heard : (f : Frame) → deliver w f ≡ sent f ∷ []
  deliver-heard f = rw heard refl

  flush_frame-Sends :
      (e : Engine) (m : ℕ → ℕ) (v : Delivery)
      → v ≢ dropped
      → Sends (prefix m 0 e.data_index) e.pts e.dts (flush_frame w s e entries m v).2
  unfolding flush_frame
  flush_frame-Sends e m sequence_video kept = (_, deliver-heard _, refl, refl, refl)
  flush_frame-Sends e m (nal_video t is_intra) kept = (_, deliver-heard _, refl, refl, refl)
  flush_frame-Sends e m (audio t) kept = (_, deliver-heard _, refl, refl, refl)
  flush_frame-Sends e m dropped kept = absurd (kept refl)

  flush-Sends :
      (xs : List ℕ) (pts dts : ℕ) (e : Engine)
      → 1 ≤ length xs
      → delivery s.stream_type s.audio_stream_index ≢ dropped
      → Carries xs pts dts e
      → Gives (λ r. Sends xs pts dts r.2) (flush w s entries e)
  unfolding flush
  flush-Sends xs pts dts e some_of kept (b, n, a, c) =
      if_intro (Gives (λ r. Sends xs pts dts r.2)) (e.data_index == 0) (λ y. absurd (ground arith))
        λ y.
          Gives-bind (λ m. prefix m 0 e.data_index ≡ xs) (λ r. Sends xs pts dts r.2) _ e.buffer b
            λ m same.
              let (f, one, sample, f_pts, f_dts) = flush_frame-Sends e m _ kept in
              (f, one, sample ∙ same, f_pts ∙ a, f_dts ∙ c)

-- The packet that starts a PES packet, whose header leaves a payload, has its time stamps inside
-- and does not have the forbidden value 1 of PTS_DTS_flags, and the packets behind it, each with a
-- payload, give one frame where a callback is registered, the buffer is there, the stream type is
-- delivered and the payloads fit the buffer: its sample is the payloads in their order, its time
-- stamps are those of the header, or 0 where it has none.
pub flush-open_pes :
    (w : World) (p : List ℕ) (adaptation : ℕ) (ps : List (List ℕ × ℕ)) (s : Stream) (t : Pmt)
    (e : Engine) (m : ℕ → ℕ) (entries : ℕ)
    → w.registered ≡ true
    → buffer_of w e ≡ some m
    → length p ≡ ts_packet_size
    → 9 + header p adaptation + adaptation < ts_payload_size
    → stamps p adaptation ≢ 1
    → (stamps p adaptation ≡ 2 → 5 ≤ header p adaptation)
    → (stamps p adaptation ≡ 3 → 10 ≤ header p adaptation)
    → All IsPacket ps
    → length (first_bytes p adaptation ++ payloads ps) ≤ max_buffer_size
    → delivery s.stream_type s.audio_stream_index ≢ dropped
    → (u : Pmt) × (g h : Engine) × (r : Engine × Bool × List Event) × (open_pes w p
          (4 + adaptation)
          adaptation
          t
          e
        ≡ some (u, g))
      × (continue_all w ps g ≡ some h)
      × (flush w s entries h ≡ some r)
      × Sends
          (first_bytes p adaptation ++ payloads ps)
          (pts_of p adaptation)
          (dts_of p adaptation)
          r.2
flush-open_pes w p adaptation ps s t e m entries heard has whole lt known one two all fits kept =
    let first = first_bytes p adaptation in
    let grown = length-append first (payloads ps) in
    let room = size w p adaptation t m whole lt in
    let ((u, g), opened, g_is) =
      Gives-some (λ r. Carries first (pts_of p adaptation) (dts_of p adaptation) r.1)
        (open_pes w p (4 + adaptation) adaptation t e)
        (open_pes-Opened w p adaptation t m whole lt known one two e has) in
    let (h, continued, h_is) =
      Gives-some (Carries (first ++ payloads ps) (pts_of p adaptation) (dts_of p adaptation))
        (continue_all w ps g)
        (continue_all-Carries w ps first _ _ g all (omega arith) (omega arith) g_is) in
    let (r, flushed, sends) =
      Gives-some _ (flush w s entries h)
        (flush-Sends w heard s entries _ _ _ h (omega arith) kept h_is) in
    (u, g, h, r, opened, continued, flushed, sends)
