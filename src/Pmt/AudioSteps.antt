-- ===== src/Pmt/AudioSteps.antt =====
-- One stream of get_pid_summary in source/tsdecode.c: the audio PIDs kept so far.
use native.Mathlib.Decide.{dec_lt}
use mathlib.Core.List.{head-eq_of_cons-eq, tail-eq_of_cons-eq}
use opensrthub.Base.{
  ℕ, zero, suc, ◌+◌, ◌<◌, ◌≡◌, ◌≢◌, refl, sym, subst, ap, ◌∙◌, Bool, true, none, some, List, [],
  ◌∷◌, ◌++◌, arith, ltb, ◌==◌, if◌then◌else◌, if_intro, set, inl, inr, Bool-cases, get_elem?,
  length, length-set, get_elem?-set_self, get_elem?-set_ne,
}
use opensrthub.Pmt.Table.{Stream, scte35}
use opensrthub.Pmt.Numbering.{range, Apart}
use opensrthub.Pmt.Select.{Summary, max_audio_pids, put_audio, put_other, put_stream}

-- The audio streams, in order.
unfoldable pub audio_streams : List Stream → List Stream
audio_streams [] = []
audio_streams (s ∷ ss) =
    let rest = audio_streams ss in elim s.audio_stream_index [ none ↦ rest | some k ↦ s ∷ rest ]

-- The numbers from `a` on.
unfoldable pub interval : ℕ → ℕ → List ℕ
interval a zero = []
interval a (suc n) = a ∷ interval (suc a) n

interval-snoc : (a n : ℕ) → interval a (suc n) ≡ interval a n ++ ((a + n) ∷ [])
unfolding interval
interval-snoc a zero = ap (λ k. k ∷ []) {x = a} {y = a + 0} (omega arith)
interval-snoc a (suc n) =
    ap (λ ks. a ∷ ks) (interval-snoc (suc a) n)
    ∙ ap (λ k. (a ∷ interval (suc a) n) ++ (k ∷ [])) {x = suc a + n} {y = a + suc n} (omega arith)

pub range-interval : (n : ℕ) → range n ≡ interval 0 n
unfolding range interval
range-interval zero = refl
range-interval (suc n) =
    ap (λ ks. ks ++ (n ∷ [])) (range-interval n)
    ∙ ap (λ k. interval 0 n ++ (k ∷ [])) {x = n} {y = 0 + n} (omega arith)
    ∙ sym (interval-snoc 0 n)

pub interval_first :
    {b : ℕ} {xs : List ℕ} (a n : ℕ)
    → b ∷ xs ≡ interval a n
    → (c : ℕ) × (n ≡ suc c) × (b ≡ a) × (xs ≡ interval (suc a) c)
unfolding interval
interval_first a zero e = absurd (cc)
interval_first a (suc n) e = (n, refl, head-eq_of_cons-eq e, tail-eq_of_cons-eq e)

-- The PIDs kept for the first `a` audio streams, as `pids` lists them, up to the cap.
pub record Kept (pids : ℕ → ℕ) (a : ℕ) (sum : Summary) : Type 0 where
  pub room : length sum.audio_pid ≡ max_audio_pids
  pub counted : sum.audio_pid_count ≡ (if ltb a max_audio_pids then a else max_audio_pids)
  pub held : (k : ℕ) → k < a → k < max_audio_pids → get_elem? sum.audio_pid k ≡ some (pids k)

put_audio-Kept :
    (pids : ℕ → ℕ) (a : ℕ) (s : Stream) (sum : Summary)
    → s.stream_pid ≡ pids a
    → Kept pids a sum
    → Kept pids (suc a) (put_audio a s sum)
unfolding put_audio
put_audio-Kept pids a s sum at is =
    if_intro (Kept pids (suc a)) (ltb a max_audio_pids)
      (λ below. record {
        room = length-set sum.audio_pid a s.stream_pid ∙ is.room;
        counted = ground (arith, is.counted);
        held = λ k lt cap. elim (dec_lt k a) [
          | yes old ↦
              get_elem?-set_ne sum.audio_pid a k s.stream_pid (λ e. absurd (omega arith))
              ∙ is.held k old cap
          | no same ↦
              subst (λ i. get_elem? (set sum.audio_pid a s.stream_pid) i ≡ some (pids i)) {x = a}
                {y = k} (omega arith)
                (get_elem?-set_self sum.audio_pid a s.stream_pid (omega (arith, is.room))
                  ∙ ap (λ p. some p) at)
        ];
      })
      (λ above. record {
        room = is.room;
        counted = ground (arith, is.counted);
        held = λ k lt cap. is.held k (ground arith) cap;
      })

-- A stream without an audio index changes none of them.
put_stream_other :
    (s : Stream) (sum : Summary)
    → s.audio_stream_index ≡ none
    → ((put_stream s sum).audio_pid ≡ sum.audio_pid)
      × ((put_stream s sum).audio_pid_count ≡ sum.audio_pid_count)
unfolding put_stream put_other
put_stream_other s sum e = (ground (arith, e), ground (arith, e))

pub other-Kept :
    (pids : ℕ → ℕ) (a : ℕ) (s : Stream) (sum : Summary)
    → s.audio_stream_index ≡ none
    → Kept pids a sum
    → Kept pids a (put_stream s sum)
other-Kept pids a s sum e is =
    let (list, count) = put_stream_other s sum e in
    record {
      room = ap length list ∙ is.room;
      counted = count ∙ is.counted;
      held = λ k lt cap. ap (λ ps. get_elem? ps k) list ∙ is.held k lt cap;
    }

put_stream_audio :
    (a : ℕ) (s : Stream) (sum : Summary)
    → s.audio_stream_index ≡ some a
    → Apart s
    → put_stream s sum ≡ put_audio a s sum
unfolding put_stream Apart
put_stream_audio a s sum e apart = elim (Bool-cases (s.decoded_stream_type == scte35)) [
  | inl cue ↦ absurd (
      index_free (
        apart (
          ap (λ (b : Bool). if b then 1 else 0) {x = s.decoded_stream_type == scte35} {y = true}
            cue)))
  | inr other ↦ rw (other, e)
]
  where
    index_free : s.audio_stream_index ≢ none
    index_free = λ z. cc

pub audio-Kept :
    (pids : ℕ → ℕ) (a : ℕ) (s : Stream) (sum : Summary)
    → s.audio_stream_index ≡ some a
    → Apart s
    → s.stream_pid ≡ pids a
    → Kept pids a sum
    → Kept pids (suc a) (put_stream s sum)
audio-Kept pids a s sum e apart at is =
    subst (Kept pids (suc a)) (sym (put_stream_audio a s sum e apart))
      (put_audio-Kept pids a s sum at is)

-- The audio streams of the list have the PIDs `pids` from `a` on.
unfoldable pub Listed : (ℕ → ℕ) → ℕ → List Stream → Type 0
Listed pids a ss = (k : ℕ) (s : Stream) → get_elem? ss k ≡ some s → s.stream_pid ≡ pids (a + k)
