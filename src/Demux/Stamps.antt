-- ===== src/Demux/Stamps.antt =====
-- The time stamps that decode_packets of source/tsdecode.c stores leave an entry of the tables valid.
use opensrthub.Base.{
  ℕ, zero, suc, ◌+◌, ◌++◌, ◌≡◌, refl, sym, subst, ap, ◌∙◌, Option, none, some, List, [], ◌∷◌, All,
  take, length, map, not, ◌==◌, if_intro,
}
use opensrthub.Pmt.Table.{Stream, Pmt}
use opensrthub.Pmt.Numbering.{index_list, audio_indices, cue_stream, cue_streams, Apart}
use opensrthub.Pmt.StreamLoop.{IsValid}
use opensrthub.Demux.Stream.{stamp_pts, stamp_dts}

-- The stream without its stamps.
abbrev unstamped : Stream → Stream
unstamped s = record s { first_pts = none; first_dts = none; last_pts = none; last_dts = none }

-- A list with the same streams up to stamps.
abbrev pub Alike : List Stream → List Stream → Type 0
Alike ss us = map unstamped ss ≡ map unstamped us

stamped_cons :
    (a b s : Stream) (ss us : List Stream)
    → unstamped a ≡ unstamped s
    → unstamped b ≡ unstamped s
    → Alike us ss
    → (o : Option ℕ) → Alike (elim o [ none ↦ a ∷ ss | some f ↦ b ∷ us ]) (s ∷ ss)
stamped_cons a b s ss us p q e none = ap (λ x. x ∷ map unstamped ss) p
stamped_cons a b s ss us p q e (some f) = cc

pub stamp_pts-Alike : (pid t k : ℕ) (ss : List Stream) → Alike (stamp_pts pid t k ss) ss
unfolding stamp_pts
stamp_pts-Alike pid t zero ss = refl
stamp_pts-Alike pid t (suc k) [] = refl
stamp_pts-Alike pid t (suc k) (s ∷ ss) =
    let rest = stamp_pts-Alike pid t k ss in
    if_intro (λ us. Alike us (s ∷ ss)) (not (s.stream_pid == pid))
      (λ e. ap (λ us. unstamped s ∷ us) rest)
      λ e. stamped_cons _ _ s ss _ refl refl rest s.first_pts

pub stamp_dts-Alike : (pid t k : ℕ) (ss : List Stream) → Alike (stamp_dts pid t k ss) ss
unfolding stamp_dts
stamp_dts-Alike pid t zero ss = refl
stamp_dts-Alike pid t (suc k) [] = refl
stamp_dts-Alike pid t (suc k) (s ∷ ss) =
    let rest = stamp_dts-Alike pid t k ss in
    if_intro (λ us. Alike us (s ∷ ss)) (not (s.stream_pid == pid))
      (λ e. ap (λ us. unstamped s ∷ us) rest)
      λ e. stamped_cons _ _ s ss _ refl refl rest s.first_dts

length-unstamped : (ss : List Stream) → length (map unstamped ss) ≡ length ss
length-unstamped [] = refl
length-unstamped (s ∷ ss) = ap suc (length-unstamped ss)

take-unstamped : (n : ℕ) (ss : List Stream) → map unstamped (take n ss) ≡ take n (map unstamped ss)
take-unstamped zero ss = refl
take-unstamped (suc n) [] = refl
take-unstamped (suc n) (s ∷ ss) = ap (λ us. unstamped s ∷ us) (take-unstamped n ss)

Alike-take : (n : ℕ) (ss us : List Stream) → Alike ss us → Alike (take n ss) (take n us)
Alike-take n ss us e = take-unstamped n ss ∙ ap (take n) e ∙ sym (take-unstamped n us)

audio_indices-unstamped : (ss : List Stream) → audio_indices (map unstamped ss) ≡ audio_indices ss
unfolding audio_indices
audio_indices-unstamped [] = refl
audio_indices-unstamped (s ∷ ss) =
    ap (λ r. index_list s.audio_stream_index ++ r) (audio_indices-unstamped ss)

cue_streams-unstamped : (ss : List Stream) → cue_streams (map unstamped ss) ≡ cue_streams ss
unfolding cue_streams
cue_streams-unstamped [] = refl
cue_streams-unstamped (s ∷ ss) = ap (λ (n : ℕ). cue_stream s + n) (cue_streams-unstamped ss)

All-unstamped : (ss : List Stream) → All Apart ss → All Apart (map unstamped ss)
unfolding Apart
All-unstamped [] h = tt
All-unstamped (s ∷ ss) (a, h) = (a, All-unstamped ss h)

All-stamped : (ss : List Stream) → All Apart (map unstamped ss) → All Apart ss
unfolding Apart
All-stamped [] h = tt
All-stamped (s ∷ ss) (a, h) = (a, All-stamped ss h)

-- Streams that are alike but for stamps make an entry valid alike.
pub Alike-IsValid :
    (t : Pmt) (us : List Stream)
    → Alike us t.streams
    → IsValid t
    → IsValid (record t { streams = us })
Alike-IsValid t us e v =
    let counted = Alike-take t.stream_count us t.streams e in
    record {
      descriptor_room = v.descriptor_room;
      stream_room =
          sym (length-unstamped us) ∙ ap length e ∙ length-unstamped t.streams ∙ v.stream_room;
      bounded = v.bounded;
      indices =
          sym (audio_indices-unstamped (take t.stream_count us))
          ∙ ap audio_indices counted
          ∙ audio_indices-unstamped (take t.stream_count t.streams)
          ∙ v.indices;
      cue_count =
          sym (cue_streams-unstamped (take t.stream_count us))
          ∙ ap cue_streams counted
          ∙ cue_streams-unstamped (take t.stream_count t.streams)
          ∙ v.cue_count;
      apart =
          All-stamped (take t.stream_count us) (
            subst (All Apart) (sym counted)
              (All-unstamped (take t.stream_count t.streams) v.apart));
    }
