-- ===== src/Pmt/StreamLoop.antt =====
-- The stream loop of decode_pmt_table in source/tsdecode.c, and what makes an entry of its tables valid.
use opensrthub.Base.{
  ℕ, zero, suc, ◌+◌, ◌-◌, ◌≤◌, ◌<◌, ◌≡◌, refl, sym, subst, ap, ◌∙◌, Option, none, some, List, arith,
  length, All, get_or, take, ltb, leb, if_intro,
}
use opensrthub.Pmt.Table.{Pmt, max_streams, array_size}
use opensrthub.Pmt.Streams.{
  Kind, is_deferred, stream_kind, redo_decode, info_length_at, stream_pid_at, one_stream,
  stream_loop,
}
use opensrthub.Pmt.Numbering.{range, audio_indices, cue_streams, Apart}
use opensrthub.Pmt.Pending.{Header, Numbered}
use opensrthub.Pmt.AddStream.{stream_kind-CueFree, add_stream-Pending}
use opensrthub.Pmt.Totality.{Redone, redo_decode-Redone}

-- The arrays have their size, at most 32 streams are kept, their audio indices are 0, 1, … in order,
-- and the two counts are those of the audio and of the cue streams.
pub record IsValid (pmt : Pmt) : Type 0 where
  pub descriptor_room : length pmt.descriptors ≡ array_size
  pub stream_room : length pmt.streams ≡ array_size
  pub bounded : pmt.stream_count ≤ max_streams
  pub indices : audio_indices (take pmt.stream_count pmt.streams) ≡ range pmt.audio_stream_count
  pub cue_count : cue_streams (take pmt.stream_count pmt.streams) ≡ pmt.scte35_stream_count
  pub apart : All Apart (take pmt.stream_count pmt.streams)

-- What a decode writes: a valid entry of this PID and program.
pub record Written (pid program : ℕ) (q : Pmt) : Type 0 where
  pub pid_kept : q.pmt_pid ≡ pid
  pub program_kept : q.pmt_program_number ≡ program
  pub valid : IsValid q

pub Numbered-Written :
    {h : Header} {c : ℕ} {q : Pmt} → Numbered h c q → length h.3 ≡ array_size → Written h.0 h.1 q
Numbered-Written {h} {c} {q} is room = record {
  pid_kept = ap (λ (h : Header). h.0) is.kept;
  program_kept = ap (λ (h : Header). h.1) is.kept;
  valid = record {
    descriptor_room = ap (λ (h : Header). length h.3) is.kept ∙ room;
    stream_room = is.size;
    bounded = omega (arith, is.counted, is.within);
    indices = ap (λ k. audio_indices (take k q.streams)) is.counted ∙ is.indices;
    cue_count = ap (λ k. cue_streams (take k q.streams)) is.counted ∙ is.cue_count;
    apart = subst (λ k. All Apart (take k q.streams)) (sym is.counted) is.apart;
  };
}

module _ (m : List ℕ) (h : Header) where
  -- A result, whose first `c` entries are numbered streams.
  unfoldable pub Streamed : Option Pmt → Type 0
  Streamed none = ⊥
  Streamed (some q) = (c : ℕ) × Numbered h c q

  one_stream-ok :
      (p n : ℕ) (pmt : Pmt)
      → p + 5 + info_length_at m p < length m
      → n < max_streams
      → Numbered h n pmt
      → (q : Pmt) × (one_stream m p n pmt ≡ some q) × Numbered h (suc n) q
  unfolding one_stream Redone
  one_stream-ok p n pmt inside lt is =
      let (q, e, pending) =
        add_stream-Pending n kind (stream_pid_at m p) (get_or m p 0) pmt is lt
          (stream_kind-CueFree (get_or m p 0)) in
      let r = redone _ (
        redo_decode-Redone m h (p + 5) (info_length_at m p) n inside (is_deferred kind) q
          pending) in
      (
        r.0,
        ap
              (λ (o : Option Pmt). elim o [
                | none ↦ none
                | some q ↦ redo_decode m (p + 5) (info_length_at m p) n 2 (is_deferred kind) q
              ])
              e
            ∙ r.1,
        r.2,
      )
    where
      kind : Kind
      kind = stream_kind (get_or m p 0)

      redone :
          (o : Option Pmt)
          → Redone m h (p + 5) (info_length_at m p) n inside o
          → (q : Pmt) × (o ≡ some q) × Numbered h (suc n) q
      redone none r = absurd r
      redone (some q) r = (q, refl, r.numbered)

  module _ (size : ℕ) (room : size < length m) where
    pub stream_loop-Streamed :
        (k p n : ℕ) (pmt : Pmt)
        → size - p < k
        → Numbered h n pmt
        → Streamed (stream_loop m size k p n pmt)
    unfolding stream_loop Streamed
    stream_loop-Streamed zero p n pmt fuel is = elim fuel [ ]
    stream_loop-Streamed (suc k) p n pmt fuel is =
        if_intro Streamed (ltb size (p + 5)) (λ e. (n, is))
          λ more.
            if_intro Streamed (leb max_streams n) (λ e. (n, is))
              λ below.
                if_intro Streamed (ltb (p + 4) (length m))
                  (λ e.
                    if_intro Streamed (ltb size (p + 5 + info_length_at m p)) (λ e. (n, is))
                      λ fits.
                        let (q, e, next) = one_stream-ok p n pmt (ground arith) (ground arith) is in
                        subst
                          (λ (o : Option Pmt). Streamed (elim o [
                            | none ↦ none
                            | some q ↦ stream_loop m size k (p + 5 + info_length_at m p) (suc n) q
                          ]))
                          (sym e)
                          (stream_loop-Streamed k (p + 5 + info_length_at m p) (suc n) q
                            (ground arith) next))
                  (λ e. absurd (ground arith))
