-- ===== src/Scte35/Section.antt =====
-- scte35_parse_time_signal, scte35_decode_section and scte35_emit_cue of source/tsdecode.c. The
-- result is the list of cues handed to scte35_emit_cue, in order; `none` is a read outside the
-- payload, or a descriptor loop that the fuel did not finish. The payload `m` is the
-- `payload_remaining` bytes at `pdata`, so an offset into it is a pointer into them.
use opensrthub.Base.{
  ℕ, zero, suc, ◌+◌, ◌-◌, ◌*◌, ◌%◌, ◌^◌, Bool, true, false, ◌&&◌, not, Option, none, some, List, [],
  ◌∷◌, ltb, leb, ◌==◌, if◌then◌else◌, length, get_or,
}
use opensrthub.Scte35.Cue.{
  Cue, unknown, cue_in, cue_out, base_cue, cmd_splice_insert, cmd_time_signal,
  descriptor_segmentation,
}
use opensrthub.Scte35.Reader.{Parse, next, stop, fault, Cmd, pure, ◌>>=◌, ◌>>◌, be16, u16_at, need}
use opensrthub.Scte35.Insert.{splice_time, parse_splice_insert}
use opensrthub.Scte35.Segment.{parse_segmentation_descriptor}

-- Cues in front of those of the rest of the loop.
abbrev pub emit_before : Option Cue → Option (List Cue) → Option (List Cue)
emit_before c none = none
emit_before none (some cs) = some cs
emit_before (some c) (some cs) = some (c ∷ cs)

-- A cue that a descriptor's parse returned is emitted if the parse was complete.
abbrev pub completed : Bool × Cue → Option Cue
completed (b, c) = if b then some (record c { parse_complete = true }) else none

-- The declared length of the command, if it is known and fits, else where the parse stopped.
abbrev pub after_command : ℕ → ℕ → ℕ → ℕ → ℕ
after_command e cmd command_length p =
    if not (command_length == 0x0fff) && leb (cmd + command_length) e
    then cmd + command_length
    else p

-- The descriptor loop's start and end, once its length is read at `p`.
abbrev pub clip : ℕ → ℕ → ℕ
clip e loop_end = if ltb e loop_end then e else loop_end

unfoldable pub time_signal_cue : Option ℕ → Cue → Cue
time_signal_cue none base = record base {
  splice_command_type = cmd_time_signal;
  pts_time = 0;
  splice_immediate = true;
}
time_signal_cue (some t) base = record base {
  splice_command_type = cmd_time_signal;
  pts_time = t;
  splice_immediate = false;
}

-- Direction and name of a splice_insert cue.
abbrev pub finish_insert : Bool × Cue → Cue
finish_insert (complete, c) =
    if c.cancel
    then record c {
      parse_complete = complete;
      cue_direction = unknown;
      descriptor_name = "Splice Event Canceled";
    }
    else record c {
      parse_complete = complete;
      cue_direction = if c.out_of_network_indicator then cue_out else cue_in;
      descriptor_name =
          if c.out_of_network_indicator
          then "Splice Insert Out of Network"
          else "Splice Insert Return to Network";
    }

module _ (m : List ℕ) where
  -- What one descriptor of the loop adds.
  unfoldable pub descriptor_cue : ℕ → ℕ → Cue → Option (Option Cue)
  unfolding parse_segmentation_descriptor
  descriptor_cue d d_end cue = elim (parse_segmentation_descriptor m d_end d cue) [
    | none ↦ none
    | some r ↦ some (completed r)
  ]

  -- The offset behind the descriptor at `p`.
  abbrev pub descriptor_end : ℕ → ℕ
  descriptor_end p = p + 2 + get_or m (p + 1) 0

  -- The cues of the descriptor at `p`, then those of the rest; other descriptors are skipped.
  unfoldable pub take_descriptor : ℕ → Cue → Option (List Cue) → Option (List Cue)
  unfolding descriptor_cue
  take_descriptor p cue rest =
      if get_or m p 0 == descriptor_segmentation
      then elim (descriptor_cue (p + 2) (descriptor_end p) cue) [
        | none ↦ none
        | some c ↦ emit_before c rest
      ]
      else rest

  -- `while (loop + 2 <= loop_end)`; a descriptor that runs past the loop ends it.
  unfoldable pub descriptor_loop : ℕ → ℕ → ℕ → Cue → Option (List Cue)
  unfolding take_descriptor
  descriptor_loop zero p loop_end cue = none
  descriptor_loop (suc k) p loop_end cue =
      let rest = descriptor_loop k (descriptor_end p) loop_end cue in
      if ltb loop_end (p + 2)
      then some []
      else if ltb (p + 1) (length m)
      then if ltb loop_end (descriptor_end p) then some [] else take_descriptor p cue rest
      else none

  -- splice_time(), then the loop's length; the result is the time, the loop's start and its end.
  unfoldable pub time_signal_header : ℕ → ℕ → ℕ → Cmd (Option ℕ × ℕ × ℕ)
  unfolding splice_time need be16
  time_signal_header e cmd command_length = do
    (t, q) ← splice_time m e cmd
    let p = after_command e cmd command_length q
    need e p 2
    n ← be16 m p
    pure (t, p + 2, clip e (p + 2 + n))

  -- The descriptor loop, if the header was complete; a truncated one emits nothing.
  unfoldable pub walk : Cue → Parse (Option ℕ × ℕ × ℕ) → Option (List Cue)
  unfolding descriptor_loop time_signal_cue
  walk base (next (t, p, loop_end) _) =
      descriptor_loop (suc (loop_end - p)) p loop_end (time_signal_cue t base)
  walk base (stop _ _) = some []
  walk base fault = none

  unfoldable pub parse_time_signal : ℕ → ℕ → ℕ → Cue → Option (List Cue)
  unfolding time_signal_header walk
  parse_time_signal e cmd command_length base =
      walk base (time_signal_header e cmd command_length base)

  -- The smaller of the declared section end and the bytes present.
  abbrev pub scte_end : ℕ → ℕ
  scte_end section_size = if ltb (section_size + 4) (length m) then 4 + section_size else length m

  -- The command, once the fixed header has been read.
  unfoldable pub decode_command : ℕ → ℕ → ℕ → Cue → Option (List Cue)
  unfolding parse_splice_insert parse_time_signal
  decode_command e command_type command_length base =
      if command_type == cmd_splice_insert
      then elim (parse_splice_insert m e 15 base) [
        | none ↦ none
        | some r ↦ some (finish_insert r ∷ [])
      ]
      else if command_type == cmd_time_signal
      then parse_time_signal e 15 command_length base
      else some []

  -- The header is read to its byte 14: in a shorter payload that is an access outside.
  unfoldable pub decode_section : ℕ → Option (List Cue)
  unfolding decode_command
  decode_section pid =
      let section_size = u16_at m 2 % 2 ^ 12 in
      let adjustment =
        get_or m 5 0 % 2 * 2 ^ 32
        + get_or m 6 0 * 2 ^ 24
        + get_or m 7 0 * 2 ^ 16
        + get_or m 8 0 * 2 ^ 8
        + get_or m 9 0 in
      let command_length = get_or m 12 0 % 16 * 2 ^ 8 + get_or m 13 0 in
      if ltb (length m) 15
      then some []
      else if leb (length m) 14
      then none
      else if get_or m 1 0 == 0xfc
      then decode_command (scte_end section_size) (get_or m 14 0) command_length
          (base_cue adjustment pid)
      else some []

-- scte35_emit_cue: a cue reaches the client if a frame callback is registered.
unfoldable pub delivered : Bool → List Cue → List Cue
delivered registered cues = if registered then cues else []
