-- ===== src/Pmt/Numbering.antt =====
-- The numbers that decode_pmt_table of source/tsdecode.c gives to audio streams: the entries read as
-- lists, and an entry of zeroed memory.
use mathlib.Core.List.{append_assoc, append-nil}
use opensrthub.Base.{
  ℕ, zero, suc, ◌+◌, ◌≡◌, sym, ap, ◌∙◌, Option, none, some, List, [], ◌∷◌, ◌++◌, arith, ◌==◌,
  if◌then◌else◌,
}
use opensrthub.Pmt.Table.{Stream, scte35}

-- 0, 1, … below the bound.
unfoldable pub range : ℕ → List ℕ
range zero = []
range (suc n) = range n ++ (n ∷ [])

abbrev pub index_list : Option ℕ → List ℕ
index_list none = []
index_list (some i) = i ∷ []

-- The audio indices of the entries, in their order.
unfoldable pub audio_indices : List Stream → List ℕ
audio_indices [] = []
audio_indices (s ∷ ss) = index_list s.audio_stream_index ++ audio_indices ss

abbrev pub cue_stream : Stream → ℕ
cue_stream s = if s.decoded_stream_type == scte35 then 1 else 0

-- The number of entries that carry cues.
unfoldable pub cue_streams : List Stream → ℕ
cue_streams [] = 0
cue_streams (s ∷ ss) = cue_stream s + cue_streams ss

-- A cue stream has no audio index.
unfoldable pub Apart : Stream → Type 0
Apart s = cue_stream s ≡ 1 → s.audio_stream_index ≡ none

pub audio_indices-append :
    (xs : List Stream) (v : Stream)
    → audio_indices (xs ++ (v ∷ [])) ≡ audio_indices xs ++ index_list v.audio_stream_index
unfolding audio_indices
audio_indices-append [] v = append-nil _
audio_indices-append (x ∷ xs) v =
    ap (λ ys. index_list x.audio_stream_index ++ ys) (audio_indices-append xs v)
    ∙ sym (append_assoc (index_list x.audio_stream_index) (audio_indices xs) _)

pub cue_streams-append :
    (xs : List Stream) (v : Stream) → cue_streams (xs ++ (v ∷ [])) ≡ cue_streams xs + cue_stream v
unfolding cue_streams
cue_streams-append [] v = omega arith
cue_streams-append (x ∷ xs) v = omega (arith, cue_streams-append xs v)
