-- ===== src/Demux/Streaming.antt =====
-- The packets of an elementary stream in decode_packets of source/tsdecode.c, under the invariant.
use opensrthub.Base.{
  ℕ, ◌+◌, ◌-◌, ◌/◌, ◌%◌, ◌^◌, ◌≤◌, ◌≡◌, refl, ◌∙◌, Bool, false, Option, none, some, List, [], arith,
  length, ltb, leb, if_intro, ◌==◌, ◌||◌, Gives, Gives-bind, if◌then◌else◌,
}
use opensrthub.Pmt.Table.{Stream, Pmt}
use opensrthub.Pmt.StreamLoop.{IsValid}
use opensrthub.Demux.State.{Engine, Event, World, ts_packet_size, ts_payload_size, max_buffer_size}
use opensrthub.Demux.Header.{octet, word, current_pid, continuity_counter}
use opensrthub.Demux.Sections.{slice}
use opensrthub.Demux.Frames.{flush}
use opensrthub.Demux.Stream.{
  write_buffer, continuity, timestamp, stamp_pts, begin_pes, buffer_of, first_payload, with_entry,
  stamped_payload, open_pes, start_pes, append_payload, continue_pes,
}
use opensrthub.Demux.Valid.{Backed, IsEngine}
use opensrthub.Demux.Stamps.{Alike-IsValid, stamp_pts-Alike, stamp_dts-Alike}

continuity-IsEngine : (c : ℕ) (e : Engine) → IsEngine e → IsEngine (continuity c e)
unfolding continuity
continuity-IsEngine c e is = ground arith

Backed-zero : (o : Option (ℕ → ℕ)) → Backed o 0
Backed-zero none = refl
Backed-zero (some m) = tt

Backed-Gives : (o : Option (ℕ → ℕ)) (n : ℕ) → Backed o n → (n == 0) ≡ false → Gives (λ m. Unit) o
Backed-Gives none n b h = absurd (ground arith)
Backed-Gives (some m) n b h = tt

-- A frame is flushed without an access outside its buffer.
abbrev IsFlushed : Engine × Bool × List Event → Type 0
IsFlushed r = IsEngine r.0

flush-IsFlushed :
    (w : World) (s : Stream) (entries : ℕ) (e : Engine)
    → IsEngine e
    → Gives IsFlushed (flush w s entries e)
unfolding flush
flush-IsFlushed w s entries e (b, n) =
    if_intro (Gives IsFlushed) (e.data_index == 0) {x = some (e, false, [])} (λ y. (b, n))
      λ y.
        Gives-bind (λ m. Unit) IsFlushed _ e.buffer (Backed-Gives e.buffer e.data_index b y)
          λ m u. (Backed-zero e.buffer, omega arith)

-- A valid entry of this PID, and an engine.
abbrev IsPart : ℕ → Pmt × Engine → Type 0
IsPart pid r = IsValid r.0 × (r.0.pmt_pid ≡ pid) × IsEngine r.1

-- The same of what a packet that starts a PES packet leaves.
abbrev pub IsStarted : ℕ → Pmt × Engine × Bool × List Event → Type 0
IsStarted pid r = IsValid r.0 × (r.0.pmt_pid ≡ pid) × IsEngine r.1

module _ (w : World) (p : List ℕ) (whole : length p ≡ ts_packet_size) where
  Allocated-IsEngine :
      (o : Option (ℕ → ℕ)) (q n : ℕ) (e : Engine)
      → 1 ≤ n
      → n ≤ max_buffer_size
      → q + n ≤ length p
      → IsEngine e
      → Gives IsEngine (elim o [
        | none ↦ some e
        | some m ↦
            if ltb (length p) (q + n)
            then none
            else some (record e { buffer = some (write_buffer 0 (slice q n p) m); data_index = n })
      ])
  Allocated-IsEngine none q n e low high le is = is
  Allocated-IsEngine (some m) q n e low high le is =
      if_intro (Gives IsEngine) (ltb (length p) (q + n)) (λ y. absurd (ground arith))
        λ y. (tt, high)

  first_payload-IsEngine :
      (q taken : ℕ) (e : Engine)
      → q ≤ 4 + taken
      → IsEngine e
      → Gives IsEngine (first_payload w p q taken e)
  unfolding first_payload
  first_payload-IsEngine q taken e inside is =
      if_intro (Gives IsEngine) (leb ts_payload_size taken) (λ y. is)
        λ y.
          Allocated-IsEngine (buffer_of w e) q (ts_payload_size - taken) e (ground arith)
            (omega arith) (ground arith) is

  with_entry-IsPart :
      (u : Pmt) (t : Pmt) (o : Option Engine)
      → IsValid u
      → u.pmt_pid ≡ t.pmt_pid
      → Gives IsEngine o
      → Gives (IsPart t.pmt_pid) (with_entry w p u o)
  with_entry-IsPart u t none v same g = g
  with_entry-IsPart u t (some e) v same g = (v, same, g)

  stamped_payload-IsPart :
      (q adaptation header : ℕ) (t : Pmt) (e : Engine)
      → q ≤ 4 + adaptation
      → IsValid t
      → IsEngine e
      → Gives (IsPart t.pmt_pid) (stamped_payload w p q adaptation header t e)
  unfolding stamped_payload
  stamped_payload-IsPart q adaptation header t e inside v is =
      let present = octet p (q + 7) / 2 ^ 6 % 2 ^ 2 in
      let pts = timestamp p (q + 9) in
      let dts = timestamp p (q + 14) in
      let with_pts = stamp_pts (current_pid p) pts t.stream_count t.streams in
      let alike = stamp_pts-Alike (current_pid p) pts t.stream_count t.streams in
      let payload = λ (f : Engine) (is : IsEngine f).
        first_payload-IsEngine (q + 9 + header) (9 + header + adaptation) f (omega arith) is in
      if_intro (Gives (IsPart t.pmt_pid)) (present == 1) {x = some (t, e)} (λ y. (v, refl, is))
        λ a.
          if_intro (Gives (IsPart t.pmt_pid)) (present == 2)
            (λ b.
              if_intro (Gives (IsPart t.pmt_pid)) (ltb (ts_packet_size - q) 14) {x = some (t, e)}
                (λ y. (v, refl, is))
                λ y.
                  if_intro (Gives (IsPart t.pmt_pid)) (leb (length p) (q + 13))
                    (λ z. absurd (ground arith))
                    λ z.
                      with_entry-IsPart _ t _ (Alike-IsValid t with_pts alike v) refl
                        (payload (record e { pts = pts }) is))
            λ b.
              if_intro (Gives (IsPart t.pmt_pid)) (present == 3)
                (λ c.
                  if_intro (Gives (IsPart t.pmt_pid)) (ltb (ts_packet_size - q) 19)
                    {x = some (t, e)} (λ y. (v, refl, is))
                    λ y.
                      if_intro (Gives (IsPart t.pmt_pid)) (leb (length p) (q + 18))
                        (λ z. absurd (ground arith))
                        λ z.
                          with_entry-IsPart _ t _
                            (Alike-IsValid t _
                              (stamp_dts-Alike (current_pid p) dts t.stream_count with_pts ∙ alike)
                              v)
                            refl (payload (record e { pts = pts; dts = dts }) is))
                λ c. with_entry-IsPart t t _ v refl (payload (record e { pts = 0; dts = 0 }) is)

  open_pes-IsPart :
      (q adaptation : ℕ) (t : Pmt) (e : Engine)
      → q ≤ 4 + adaptation
      → IsValid t
      → IsEngine e
      → Gives (IsPart t.pmt_pid) (open_pes w p q adaptation t e)
  unfolding open_pes begin_pes
  open_pes-IsPart q adaptation t e inside v is =
      let header = octet p (q + 8) in
      let begun : IsEngine (begin_pes (word p (q + 4)) e) = (Backed-zero e.buffer, omega arith) in
      if_intro (Gives (IsPart t.pmt_pid)) (ltb (ts_packet_size - q) 9) {x = some (t, e)}
        (λ y. (v, refl, is))
        λ a.
          if_intro (Gives (IsPart t.pmt_pid)) (leb (length p) (q + 8)) (λ y. absurd (ground arith))
            λ b.
              if_intro (Gives (IsPart t.pmt_pid))
                (ltb 184 header || ltb (ts_packet_size - q) (9 + header)) {x = some (t, _)}
                (λ y. (v, refl, begun))
                λ c. stamped_payload-IsPart q adaptation header t _ inside v begun

  pub start_pes-IsStarted :
      (q adaptation entries : ℕ) (s : Stream) (t : Pmt) (e : Engine)
      → q ≤ 4 + adaptation
      → IsValid t
      → IsEngine e
      → Gives (IsStarted t.pmt_pid) (start_pes w p q adaptation entries s t e)
  unfolding start_pes
  start_pes-IsStarted q adaptation entries s t e inside v is =
      Gives-bind IsFlushed (IsStarted t.pmt_pid) _ (flush w s entries e)
        (flush-IsFlushed w s entries e is)
        λ (f, first, sends) f_is.
          Gives-bind (IsPart t.pmt_pid) (IsStarted t.pmt_pid) _
            (open_pes w p q adaptation t (continuity (continuity_counter p) f))
            (open_pes-IsPart q adaptation t _ inside v
              (continuity-IsEngine (continuity_counter p) f f_is))
            λ (u, g) part. part

  append_payload-IsEngine :
      (q adaptation : ℕ) (e : Engine)
      → q ≤ 4 + adaptation
      → IsEngine e
      → Gives IsEngine (append_payload w p q adaptation e)
  unfolding append_payload
  append_payload-IsEngine q adaptation e inside (b, n) =
      if_intro (Gives IsEngine) (e.data_index == 0 || ltb ts_payload_size adaptation) (λ y. (b, n))
        λ y.
          if_intro (Gives IsEngine)
            (ltb max_buffer_size (e.data_index + (ts_payload_size - adaptation))) (λ z. (b, n))
            λ z.
              if_intro (Gives IsEngine) (ltb (length p) (q + (ts_payload_size - adaptation)))
                (λ z. absurd (ground arith))
                λ a.
                  Gives-bind (λ m. Unit) IsEngine _ e.buffer
                    (Backed-Gives e.buffer e.data_index b (ground arith)) λ m u. (tt, ground arith)

  pub continue_pes-IsEngine :
      (q adaptation : ℕ) (e : Engine)
      → q ≤ 4 + adaptation
      → IsEngine e
      → Gives IsEngine (continue_pes w p q adaptation e)
  unfolding continue_pes
  continue_pes-IsEngine q adaptation e inside is =
      append_payload-IsEngine q adaptation _ inside
        (continuity-IsEngine (continuity_counter p) e is)
