-- ===== src/Pmt/EndWait.antt =====
-- A descriptor in decode_pmt_table of source/tsdecode.c keeps the numbers of the streams.
use mathlib.Core.List.{append-nil}
use opensrthub.Base.{
  ℕ, suc, ◌+◌, ◌<◌, ◌≡◌, refl, sym, ap, ◌∙◌, Bool, true, false, some, [], ◌∷◌, ◌++◌, arith, length,
  get_or, set, take, length-set, get_or-set_self, ◌==◌, if◌then◌else◌,
}
use opensrthub.Pmt.Table.{Stream, Pmt, scte35, zeroed_stream}
use opensrthub.Pmt.Streams.{
  Tag, skipped, alignment, ends_wait, language, makes_audio, tag_of, made_audio, end_wait,
}
use opensrthub.Pmt.Numbering.{range, index_list, audio_indices, cue_stream, Apart}
use opensrthub.Pmt.Pending.{
  Header, Pending, settled, indices_last, indices_split, cues_last, cues_split, Apart-front,
  Apart-get_or, Apart-set, next, range-grown,
}

-- A waiting stream that a descriptor makes an audio stream takes the next index.
unfoldable pub TypeFree : Tag → Type 0
TypeFree (makes_audio t raw) = (t == scte35) ≡ false
TypeFree skipped = Unit
TypeFree alignment = Unit
TypeFree ends_wait = Unit
TypeFree language = Unit

pub tag_of-TypeFree : (t : ℕ) → TypeFree (tag_of t)
unfolding TypeFree tag_of
tag_of-TypeFree t = ground arith

last_room : {h : Header} {w : Bool} {n : ℕ} {pmt : Pmt} → Pending h w n pmt → n < length pmt.streams
last_room p = omega (arith, p.numbered.size, p.numbered.within)

made_audio-Pending :
    {h : Header} (t raw n : ℕ) (pmt : Pmt)
    → Pending h true n pmt
    → (t == scte35) ≡ false
    → Pending h false n (made_audio t raw n pmt)
unfolding Apart
made_audio-Pending t raw n pmt p free = record {
  numbered = record {
    kept = p.numbered.kept;
    size = length-set pmt.streams n _ ∙ p.numbered.size;
    counted = p.numbered.counted;
    within = p.numbered.within;
    indices =
        indices_last pmt.streams n _ room
        ∙ ap (λ ys. ys ++ (pmt.audio_stream_count ∷ [])) before
        ∙ range-grown next
        ∙ ap range {x = pmt.audio_stream_count + 1} {y = suc pmt.audio_stream_count} (omega arith);
    cue_count = omega (
      arith,
      cues_last pmt.streams n v room,
      cues_split pmt.streams n room,
      (p.bare refl).1,
      p.numbered.cue_count,
      ap {B = ℕ} (λ b. if b then 1 else 0) free,
    );
    apart =
        Apart-set pmt.streams n v room (Apart-front pmt.streams n room p.numbered.apart)
          (λ e. absurd (ground (arith, free)));
  };
  bare = λ e. absurd (cc);
}
  where
    room : n < length pmt.streams
    room = last_room p

    v : Stream
    v = record (get_or pmt.streams n zeroed_stream) {
      decoded_stream_type = t;
      stream_type = raw;
      audio_stream_index = some pmt.audio_stream_count;
    }

    before : audio_indices (take n pmt.streams) ≡ range pmt.audio_stream_count
    before =
        sym (append-nil _)
        ∙ ap (λ i. audio_indices (take n pmt.streams) ++ index_list i) (sym (p.bare refl).0)
        ∙ sym (indices_split pmt.streams n room)
        ∙ p.numbered.indices

pub end_wait-Pending :
    {h : Header} (tag : Tag) (n : ℕ) (pmt : Pmt)
    → Pending h true n pmt
    → TypeFree tag
    → Pending h false n (end_wait tag n pmt)
unfolding end_wait TypeFree
end_wait-Pending skipped n pmt p free = settled p
end_wait-Pending alignment n pmt p free = settled p
end_wait-Pending ends_wait n pmt p free = settled p
end_wait-Pending language n pmt p free = settled p
end_wait-Pending (makes_audio t raw) n pmt p free = made_audio-Pending t raw n pmt p free

-- A change of the last entry that keeps its type and its index.
pub amend-Pending :
    {h : Header} {w : Bool} (n : ℕ) (v : Stream) (pmt : Pmt)
    → v.audio_stream_index ≡ (get_or pmt.streams n zeroed_stream).audio_stream_index
    → cue_stream v ≡ cue_stream (get_or pmt.streams n zeroed_stream)
    → Pending h w n pmt
    → Pending h w n (record pmt { streams = set pmt.streams n v })
unfolding Apart
amend-Pending n v pmt i c p = record {
  numbered = record {
    kept = p.numbered.kept;
    size = length-set pmt.streams n v ∙ p.numbered.size;
    counted = p.numbered.counted;
    within = p.numbered.within;
    indices =
        indices_last pmt.streams n v room
        ∙ ap (λ k. audio_indices (take n pmt.streams) ++ index_list k) i
        ∙ sym (indices_split pmt.streams n room)
        ∙ p.numbered.indices;
    cue_count = omega (
      arith,
      cues_last pmt.streams n v room,
      cues_split pmt.streams n room,
      c,
      p.numbered.cue_count,
    );
    apart =
        Apart-set pmt.streams n v room (Apart-front pmt.streams n room p.numbered.apart)
          (λ e. i ∙ Apart-get_or pmt.streams n room p.numbered.apart (sym c ∙ e));
  };
  bare = λ e. (
    ap (λ (s : Stream). s.audio_stream_index) now ∙ i ∙ (p.bare e).0,
    ap (λ (s : Stream). cue_stream s) now ∙ c ∙ (p.bare e).1,
  );
}
  where
    room : n < length pmt.streams
    room = last_room p

    now : get_or (set pmt.streams n v) n zeroed_stream ≡ v
    now = get_or-set_self pmt.streams n v zeroed_stream room
