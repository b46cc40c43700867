-- ===== src/Pmt/AddStream.antt =====
-- A new stream in decode_pmt_table of source/tsdecode.c keeps the numbers of the streams.
use opensrthub.Base.{
  ℕ, suc, ◌<◌, ◌≡◌, refl, ap, ◌∙◌, true, false, none, some, ◌++◌, arith, length, get_or, set,
  length-set, get_or-set_self, ◌==◌, ltb, if◌then◌else◌,
}
use opensrthub.Pmt.Table.{Stream, Pmt, max_streams, scte35, zeroed_stream}
use opensrthub.Pmt.Streams.{
  Kind, typed, audio, cues, deferred, is_deferred, stream_kind, new_stream, classify, audio_more,
  cues_more, added, add_stream,
}
use opensrthub.Pmt.Numbering.{index_list, cue_stream, Apart}
use opensrthub.Pmt.Pending.{
  Header, Numbered, Pending, indices_last, cues_last, Apart-set, Grown, same, next, range-grown,
}

-- A decoded type that a kind carries is not that of cues.
unfoldable pub CueFree : Kind → Type 0
CueFree (typed t) = (t == scte35) ≡ false
CueFree (audio t) = (t == scte35) ≡ false
CueFree cues = Unit
CueFree deferred = Unit

pub stream_kind-CueFree : (t : ℕ) → CueFree (stream_kind t)
unfolding CueFree stream_kind
stream_kind-CueFree t = ground arith

kind-Grown :
    (kind : Kind) (a pid t : ℕ)
    → Grown a (classify kind a (new_stream pid t)).audio_stream_index (audio_more kind)
unfolding classify
kind-Grown (typed t) a pid raw = same
kind-Grown (audio t) a pid raw = next
kind-Grown cues a pid raw = same
kind-Grown deferred a pid raw = same

kind-cues :
    (kind : Kind) (a pid t : ℕ)
    → CueFree kind
    → cue_stream (classify kind a (new_stream pid t)) ≡ cues_more kind
unfolding classify CueFree
kind-cues (typed t) a pid raw free = ap (λ b. if b then 1 else 0) free
kind-cues (audio t) a pid raw free = ap (λ b. if b then 1 else 0) free
kind-cues cues a pid raw free = refl
kind-cues deferred a pid raw free = refl

kind-Apart : (kind : Kind) (a pid t : ℕ) → CueFree kind → Apart (classify kind a (new_stream pid t))
unfolding classify CueFree Apart
kind-Apart (typed t) a pid raw free = λ e. refl
kind-Apart (audio t) a pid raw free = λ e. absurd (ground (arith, free))
kind-Apart cues a pid raw free = λ e. refl
kind-Apart deferred a pid raw free = λ e. refl

kind-bare :
    (kind : Kind) (a pid t : ℕ)
    → is_deferred kind ≡ true
    → classify kind a (new_stream pid t) ≡ new_stream pid t
unfolding classify
kind-bare (typed t) a pid raw e = absurd (cc)
kind-bare (audio t) a pid raw e = absurd (cc)
kind-bare cues a pid raw e = absurd (cc)
kind-bare deferred a pid raw e = refl

pub add_stream-Pending :
    {h : Header} (n : ℕ) (kind : Kind) (pid t : ℕ) (pmt : Pmt)
    → Numbered h n pmt
    → n < max_streams
    → CueFree kind
    → (q : Pmt) × (add_stream n kind (new_stream pid t) pmt ≡ some q)
      × Pending h (is_deferred kind) n q
unfolding add_stream
add_stream-Pending n kind pid t pmt is lt free = (
  added n kind (new_stream pid t) pmt,
  ap (λ b. if b then some (added n kind (new_stream pid t) pmt) else none)
      {x = ltb n (length pmt.streams)} {y = true} (ground (arith, is.size)),
  record {
    numbered = record {
      kept = is.kept;
      size = length-set pmt.streams n _ ∙ is.size;
      counted = ap suc is.counted;
      within = omega arith;
      indices =
          indices_last pmt.streams n _ room
          ∙ ap (λ ys. ys ++ index_list v.audio_stream_index) is.indices
          ∙ range-grown (kind-Grown kind pmt.audio_stream_count pid t);
      cue_count = omega (
        arith,
        cues_last pmt.streams n v room,
        is.cue_count,
        kind-cues kind pmt.audio_stream_count pid t free,
      );
      apart =
          Apart-set pmt.streams n v room is.apart
            (kind-Apart kind pmt.audio_stream_count pid t free);
    };
    bare = λ e. (
      ap (λ (s : Stream). s.audio_stream_index) (at e),
      ap (λ (s : Stream). cue_stream s) (at e),
    );
  },
)
  where
    room : n < length pmt.streams
    room = omega (arith, is.size)

    v : Stream
    v = classify kind pmt.audio_stream_count (new_stream pid t)

    at : is_deferred kind ≡ true → get_or (set pmt.streams n v) n zeroed_stream ≡ new_stream pid t
    at e =
        get_or-set_self pmt.streams n v zeroed_stream room
        ∙ kind-bare kind pmt.audio_stream_count pid t e
