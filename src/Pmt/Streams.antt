-- ===== src/Pmt/Streams.antt =====
-- The elementary streams of decode_pmt_table in source/tsdecode.c. `none` is an access outside the
-- table or an array, or a loop that the fuel did not finish. The table `m` is the buffer pmt_data;
-- an offset into it is the pointer `pdata`.
use opensrthub.Base.{
  ℕ, zero, suc, ◌+◌, ◌*◌, ◌%◌, ◌^◌, Bool, true, false, ◌&&◌, Option, none, some, List, [], ◌∷◌, ltb,
  leb, ◌==◌, if◌then◌else◌, length, get_or, set,
}
use opensrthub.Pmt.Table.{
  Stream, Pmt, max_streams, unknown_audio, mpeg2, h264, hevc, ac3, aac, mpeg, scte35, no_language,
  zeroed_stream,
}

-- What stream_type says: a decoded type, one with an audio index, a cue stream, or that a
-- descriptor is to say it.
pub data Kind : Type 0 where
  typed audio : ℕ → Kind
  cues deferred : Kind

unfoldable pub stream_kind : ℕ → Kind
stream_kind t =
    if t == 0x02
    then typed mpeg2
    else if t == 0x1b
    then typed h264
    else if t == 0x24
    then typed hevc
    else if t == 0x01
    then audio mpeg
    else if t == 0x03
    then audio mpeg
    else if t == 0x04
    then audio mpeg
    else if t == 0x0f
    then audio aac
    else if t == 0x81
    then audio ac3
    else if t == 0x06
    then deferred
    else if t == 0x86
    then cues
    else typed unknown_audio

abbrev pub is_deferred : Kind → Bool
is_deferred deferred = true
is_deferred cues = false
is_deferred (typed t) = false
is_deferred (audio t) = false

abbrev pub new_stream : ℕ → ℕ → Stream
new_stream pid t = record {
  stream_pid = pid;
  stream_type = t;
  decoded_stream_type = unknown_audio;
  decoded_language_tag = no_language;
  first_pts = none;
  first_dts = none;
  last_pts = none;
  last_dts = none;
  audio_stream_index = none;
}

-- The entry of a new stream where `n` audio streams come before it.
unfoldable pub classify : Kind → ℕ → Stream → Stream
classify (typed t) n s = record s { decoded_stream_type = t }
classify (audio t) n s = record s { decoded_stream_type = t; audio_stream_index = some n }
classify cues n s = record s { decoded_stream_type = scte35 }
classify deferred n s = s

abbrev pub audio_more : Kind → ℕ
audio_more (audio t) = 1
audio_more (typed t) = 0
audio_more cues = 0
audio_more deferred = 0

abbrev pub cues_more : Kind → ℕ
cues_more cues = 1
cues_more (audio t) = 0
cues_more (typed t) = 0
cues_more deferred = 0

-- The entry at `n`, the local stream_count, written, and every count moved on.
abbrev pub added : ℕ → Kind → Stream → Pmt → Pmt
added n kind s pmt = record pmt {
  streams = set pmt.streams n (classify kind pmt.audio_stream_count s);
  audio_stream_count = pmt.audio_stream_count + audio_more kind;
  scte35_stream_count = pmt.scte35_stream_count + cues_more kind;
  stream_count = suc pmt.stream_count;
}

unfoldable pub add_stream : ℕ → Kind → Stream → Pmt → Option Pmt
unfolding classify
add_stream n kind s pmt = if ltb n (length pmt.streams) then some (added n kind s pmt) else none

-- What a descriptor does: end the wait of a stream of type 6, with or without making it an audio
-- stream, give the language, or nothing.
pub data Tag : Type 0 where
  skipped alignment ends_wait language : Tag
  makes_audio : ℕ → ℕ → Tag

-- `makes_audio` has the new decoded_stream_type and stream_type.
unfoldable pub tag_of : ℕ → Tag
tag_of t =
    if t == 0x06
    then alignment
    else if t == 0x59
    then ends_wait
    else if t == 0x56
    then ends_wait
    else if t == 0x7a
    then ends_wait
    else if t == 0x05
    then makes_audio unknown_audio 0x06
    else if t == 0x81
    then makes_audio ac3 0x81
    else if t == 0x0a
    then language
    else if t == 0x6a
    then makes_audio ac3 0x81
    else skipped

abbrev pub ends_waiting : Tag → Bool
ends_waiting skipped = false
ends_waiting alignment = false
ends_waiting language = false
ends_waiting ends_wait = true
ends_waiting (makes_audio t raw) = true

-- The entry at `n`, which is stream_count - 1 by then.
abbrev pub amend : ℕ → (Stream → Stream) → Pmt → Pmt
amend n f pmt = record pmt { streams = set pmt.streams n (f (get_or pmt.streams n zeroed_stream)) }

-- The last stream made an audio stream.
abbrev pub made_audio : ℕ → ℕ → ℕ → Pmt → Pmt
made_audio t raw n pmt =
    record (amend n
      (λ s. record s {
        decoded_stream_type = t;
        stream_type = raw;
        audio_stream_index = some pmt.audio_stream_count;
      })
      pmt) { audio_stream_count = suc pmt.audio_stream_count }

unfoldable pub end_wait : Tag → ℕ → Pmt → Pmt
end_wait skipped n pmt = pmt
end_wait alignment n pmt = pmt
end_wait language n pmt = pmt
end_wait ends_wait n pmt = pmt
end_wait (makes_audio t raw) n pmt = made_audio t raw n pmt

module _ (m : List ℕ) where
  -- A language descriptor of three bytes at least gives the language.
  unfoldable pub read_language : Tag → ℕ → ℕ → ℕ → Pmt → Pmt
  read_language language size p n pmt =
      if ltb size 3
      then pmt
      else amend n
          (λ s. record s {
            decoded_language_tag = get_or m p 0 ∷ get_or m (p + 1) 0 ∷ get_or m (p + 2) 0 ∷ 0 ∷ [];
          })
          pmt
  read_language skipped size p n pmt = pmt
  read_language alignment size p n pmt = pmt
  read_language ends_wait size p n pmt = pmt
  read_language (makes_audio t raw) size p n pmt = pmt

  -- The furthest byte that the descriptor at `t` behind `p` is read to; an alignment descriptor of
  -- one byte reads the fourth byte of the stream's descriptors.
  abbrev pub furthest : Tag → ℕ → ℕ → ℕ → ℕ
  furthest alignment size p t = if size == 1 then p + 3 else p + t + 1
  furthest skipped size p t = p + t + 1
  furthest ends_wait size p t = p + t + 1
  furthest language size p t = if ltb size 3 then p + t + 1 else p + t + 4
  furthest (makes_audio a raw) size p t = p + t + 1

  module _ (p info_length n : ℕ) where
    -- `while (local_count > 0)`, where local_count is info_length less the tag_index `t`. The
    -- result tells whether the loop jumps to _redo_decode.
    unfoldable pub tag_loop : ℕ → Bool → ℕ → Pmt → Option (Bool × Pmt)
    unfolding tag_of end_wait read_language
    tag_loop zero waiting t pmt = none
    tag_loop (suc k) waiting t pmt =
        let tag : Tag = tag_of (get_or m (p + t) 0) in
        let size : ℕ = get_or m (p + t + 1) 0 in
        let rest = tag_loop k waiting (t + 2 + size) (read_language tag size (p + t + 2) n pmt) in
        if ltb info_length (t + 2)
        then some (false, pmt)
        else if ltb (p + t + 1) (length m)
        then if ltb info_length (t + 2 + size)
          then some (false, pmt)
          else if ltb (furthest tag size p t) (length m)
          then if waiting && ends_waiting tag then some (true, end_wait tag n pmt) else rest
          else none
        else none

    -- The loop and its restarts, each with waiting_for_descriptor cleared.
    unfoldable pub redo_decode : ℕ → Bool → Pmt → Option Pmt
    unfolding tag_loop
    redo_decode zero waiting pmt = none
    redo_decode (suc k) waiting pmt = elim (tag_loop (suc info_length) waiting 0 pmt) [
      | none ↦ none
      | some (true, q) ↦ redo_decode k false q
      | some (false, q) ↦ some q
    ]

  abbrev pub stream_pid_at : ℕ → ℕ
  stream_pid_at p = (get_or m (p + 1) 0 * 2 ^ 8 + get_or m (p + 2) 0) % 2 ^ 13

  abbrev pub info_length_at : ℕ → ℕ
  info_length_at p = (get_or m (p + 3) 0 * 2 ^ 8 + get_or m (p + 4) 0) % 2 ^ 12

  -- The stream at `p`, written as number `n`, with its descriptors.
  unfoldable pub one_stream : ℕ → ℕ → Pmt → Option Pmt
  unfolding stream_kind add_stream redo_decode
  one_stream p n pmt =
      let kind : Kind = stream_kind (get_or m p 0) in
      elim (add_stream n kind (new_stream (stream_pid_at p) (get_or m p 0)) pmt) [
        | none ↦ none
        | some q ↦ redo_decode (p + 5) (info_length_at p) n 2 (is_deferred kind) q
      ]

  -- `while (pmt_remaining >= 5)`, where pmt_remaining is `size` less `p`.
  unfoldable pub stream_loop : ℕ → ℕ → ℕ → ℕ → Pmt → Option Pmt
  unfolding one_stream
  stream_loop size zero p n pmt = none
  stream_loop size (suc k) p n pmt =
      if ltb size (p + 5)
      then some pmt
      else if leb max_streams n
      then some pmt
      else if ltb (p + 4) (length m)
      then if ltb size (p + 5 + info_length_at p) then some pmt else elim (one_stream p n pmt) [
        | none ↦ none
        | some q ↦ stream_loop size k (p + 5 + info_length_at p) (suc n) q
      ]
      else none
