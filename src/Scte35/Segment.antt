-- ===== src/Scte35/Segment.antt =====
-- scte35_parse_segmentation_descriptor of source/tsdecode.c, one definition for each part. Here the
-- end `e` is `d_end`, the end of the descriptor.
use opensrthub.Base.{ℕ, ◌+◌, ◌*◌, ◌^◌, Bool, true, false, ◌&&◌, Option, some, List}
use opensrthub.Base.{◌==◌, if◌then◌else◌}
use opensrthub.Scte35.Cue.{
  Cue, CueDirection, unknown, cue_in, cue_out, cue_direction_of, segmentation_type_name,
}
use opensrthub.Scte35.Reader.{
  Cmd, pure, stop, ◌>>=◌, ◌>>◌, update, returned, bit, byte, be32, need, unless_cancelled,
}

abbrev pub is_out : CueDirection → Bool
is_out cue_out = true
is_out cue_in = false
is_out unknown = false

module _ (m : List ℕ) (e : ℕ) where
  -- The identifier must be "CUEI".
  unfoldable pub identifier : ℕ → Cmd ℕ
  unfolding need byte
  identifier p = do
    need e p 4
    a ← byte m p
    b ← byte m (p + 1)
    c ← byte m (p + 2)
    d ← byte m (p + 3)
    if a == b'C' && (b == b'U' && (c == b'E' && d == b'I')) then pure (p + 4) else stop false

  unfoldable pub segment_header : ℕ → Cmd ℕ
  unfolding need byte be32
  segment_header p = do
    need e p 5
    id ← be32 m p
    f ← byte m (p + 4)
    update (λ c. record c { splice_event_id = id; cancel = bit f 7 })
    pure (p + 5)

  -- Six bytes for each component, skipped.
  unfoldable pub skip_components : ℕ → Cmd ℕ
  unfolding need byte
  skip_components p = do need e p 1; n ← byte m p; need e (p + 1) (6 * n); pure (p + 1 + 6 * n)

  -- `segmentation_duration`, a 40-bit value.
  unfoldable pub segment_duration : ℕ → Cmd ℕ
  unfolding need byte be32
  segment_duration p = do
    need e p 5
    a ← byte m p
    rest ← be32 m (p + 1)
    update (λ c. record c { pts_duration = a * 2 ^ 32 + rest })
    pure (p + 5)

  -- The upid's type is kept and its bytes are skipped.
  unfoldable pub upid : ℕ → Cmd ℕ
  unfolding need byte
  upid p = do
    need e p 2
    t ← byte m p
    update (λ c. record c { segmentation_upid_type = some t })
    n ← byte m (p + 1)
    need e (p + 2) n
    pure (p + 2 + n)

  unfoldable pub segment_type : ℕ → Cmd (Unit {0})
  unfolding need byte
  segment_type p = do
    need e p 3
    t ← byte m p
    n ← byte m (p + 1)
    k ← byte m (p + 2)
    update (λ c. record c {
      segmentation_type_id = some t;
      segment_num = n;
      segments_expected = k;
      cue_direction = cue_direction_of t;
      out_of_network_indicator = is_out (cue_direction_of t);
      descriptor_name = segmentation_type_name t;
    })

  unfoldable pub segment_body : ℕ → Cmd (Unit {0})
  unfolding skip_components segment_duration upid segment_type
  segment_body p = do
    need e p 1
    f ← byte m p
    q ← (if bit f 7 then pure (p + 1) else skip_components (p + 1))
    r ← (if bit f 6 then segment_duration q else pure q)
    s ← upid r
    segment_type s

  -- The name is set on the way out of a cancelled event only.
  abbrev pub segment_or_cancel : ℕ → Cmd (Unit {0})
  unfolding segment_body
  segment_or_cancel p c =
      unless_cancelled segment_body p
        (if c.cancel then record c { descriptor_name = "Segmentation Event Canceled" } else c)

  unfoldable pub parse_segmentation_descriptor : ℕ → Cue → Option (Bool × Cue)
  unfolding identifier segment_header segment_body
  parse_segmentation_descriptor p out =
      returned ((do q ← identifier p; r ← segment_header q; segment_or_cancel r) out)
