-- ===== src/Pmt/AudioSummary.antt =====
-- The audio PIDs that get_pid_summary of source/tsdecode.c reports of a valid entry.
use mathlib.Core.Option.{some_inj}
use opensrthub.Base.{
  ℕ, zero, suc, ◌+◌, ◌<◌, ◌≡◌, ◌≢◌, refl, sym, subst, ap, ◌∙◌, true, Option, none, some, List, [],
  ◌∷◌, ◌++◌, arith, ltb, ◌==◌, if◌then◌else◌, if_intro, get_or, All, inl, inr, Option-cases, ==_iff,
  get_elem?, take, get_elem?-eq-get_or, get_elem?_lt,
}
use opensrthub.Pmt.Table.{Stream, Pmt, zeroed_stream}
use opensrthub.Pmt.Numbering.{index_list, audio_indices, Apart}
use opensrthub.Pmt.StreamLoop.{IsValid}
use opensrthub.Pmt.Select.{
  Summary, max_audio_pids, walked, put_stream, put_streams, put_monitored, put_programs,
  max_programs, Transport, entry_at, no_summary, find_monitored_index, summary_of, get_pid_summary,
}
use opensrthub.Pmt.AudioSteps.{
  audio_streams, interval, range-interval, interval_first, Kept, other-Kept, audio-Kept, Listed,
}

module _ (s : Stream) (ss : List Stream) where
  indices-none : s.audio_stream_index ≡ none → audio_indices (s ∷ ss) ≡ audio_indices ss
  unfolding audio_indices
  indices-none e = ap (λ i. index_list i ++ audio_indices ss) e

  streams-none : s.audio_stream_index ≡ none → audio_streams (s ∷ ss) ≡ audio_streams ss
  unfolding audio_streams
  streams-none e = rw e

  indices-some :
      {b : ℕ} → s.audio_stream_index ≡ some b → audio_indices (s ∷ ss) ≡ b ∷ audio_indices ss
  unfolding audio_indices
  indices-some e = ap (λ i. index_list i ++ audio_indices ss) e

  streams-some :
      {b : ℕ} → s.audio_stream_index ≡ some b → audio_streams (s ∷ ss) ≡ s ∷ audio_streams ss
  unfolding audio_streams
  streams-some e =
      ap (λ (o : Option ℕ). elim o [ none ↦ audio_streams ss | some k ↦ s ∷ audio_streams ss ]) e

Listed-next :
    (pids : ℕ → ℕ) (a : ℕ) (s : Stream) (ss : List Stream)
    → Listed pids a (s ∷ ss)
    → (s.stream_pid ≡ pids a) × Listed pids (suc a) ss
unfolding Listed
Listed-next pids a s ss listed = (
  listed 0 s refl ∙ ap pids {x = a + 0} {y = a} (omega arith),
  (λ k r e. listed (suc k) r e ∙ ap pids {x = a + suc k} {y = suc a + k} (omega arith)),
)

module _ (pids : ℕ → ℕ) where
  put_streams-Kept :
      (ss : List Stream) (a n : ℕ) (sum : Summary)
      → audio_indices ss ≡ interval a n
      → All Apart ss
      → Listed pids a (audio_streams ss)
      → Kept pids a sum
      → Kept pids (a + n) (put_streams ss sum)
  unfolding put_streams audio_indices audio_streams interval Listed
  put_streams-Kept [] a zero sum e apart listed is =
      subst (λ k. Kept pids k sum) {x = a} {y = a + 0} (omega arith) is
  put_streams-Kept [] a (suc n) sum e apart listed is = absurd (cc)
  put_streams-Kept (s ∷ ss) a n sum e apart listed is = elim (Option-cases s.audio_stream_index) [
    | inl at ↦
        put_streams-Kept ss a n (put_stream s sum) (sym (indices-none s ss at) ∙ e) apart.1
          (subst (Listed pids a) (streams-none s ss at) listed) (other-Kept pids a s sum at is)
    | inr (b, at) ↦
        let (c, more, first, rest) = interval_first a n (sym (indices-some s ss at) ∙ e) in
        let (same, next) =
          Listed-next pids a s (audio_streams ss)
            (subst (Listed pids a) (streams-some s ss at) listed) in
        subst (λ k. Kept pids k (put_streams ss (put_stream s sum))) {x = suc a + c} {y = a + n}
          (omega arith)
          (put_streams-Kept ss (suc a) c (put_stream s sum) rest apart.1 next
            (audio-Kept pids a s sum (at ∙ ap (λ k. some k) first) apart.0 same is))
  ]

walked_valid : (q : Pmt) → IsValid q → walked q ≡ take q.stream_count q.streams
walked_valid q v = ap (λ n. take n q.streams) (ground (arith, v.bounded))

get_elem?-Listed : (ss : List Stream) → Listed (λ k. (get_or ss k zeroed_stream).stream_pid) 0 ss
unfolding Listed
get_elem?-Listed ss k s e =
    ap (λ (s : Stream). s.stream_pid)
      (some_inj.0 (sym e ∙ get_elem?-eq-get_or ss k zeroed_stream (get_elem?_lt ss k e)))
    ∙ ap (λ i. (get_or ss i zeroed_stream).stream_pid) {x = k} {y = 0 + k} (omega arith)

-- The PIDs of the audio streams that a reader walks.
abbrev pub audio_pids : Pmt → ℕ → ℕ
audio_pids q k = (get_or (audio_streams (walked q)) k zeroed_stream).stream_pid

put_monitored-Kept :
    (q : Pmt) (sum : Summary)
    → IsValid q
    → q.pmt_pid ≢ 0
    → Kept (audio_pids q) 0 sum
    → Kept (audio_pids q) q.audio_stream_count (put_monitored q sum)
unfolding put_monitored
put_monitored-Kept q sum v real is =
    if_intro (Kept (audio_pids q) q.audio_stream_count) (q.pmt_pid == 0)
      (λ e. absurd (real ((==_iff _ _).0 e)))
      λ e.
        subst (λ k. Kept (audio_pids q) k (put_streams (walked q) found))
          {x = 0 + q.audio_stream_count} {y = q.audio_stream_count} (omega arith)
          (put_streams-Kept (audio_pids q) (walked q) 0 q.audio_stream_count found
            (ap audio_indices (walked_valid q v) ∙ v.indices ∙ range-interval q.audio_stream_count)
            (subst (All Apart) (sym (walked_valid q v)) v.apart)
            (get_elem?-Listed (audio_streams (walked q)))
            (record { room = is.room; counted = is.counted; held = is.held }))
  where
    found : Summary
    found = record sum {
      summary_pcr_pid = q.pcr_pid;
      program_number = q.pmt_program_number;
      program_found = true;
    }

put_programs-Kept :
    (pids : ℕ → ℕ) (ps : List ℕ) (k i : ℕ) (sum : Summary)
    → Kept pids 0 sum
    → Kept pids 0 (put_programs ps k i sum)
unfolding put_programs
put_programs-Kept pids ps zero i sum is = is
put_programs-Kept pids ps (suc k) i sum is =
    if_intro (Kept pids 0) (ltb i max_programs)
      (λ e.
        put_programs-Kept pids ps k (suc i) _
          (record { room = is.room; counted = is.counted; held = is.held }))
      (λ e. is)

-- Where the PAT lists a program and the monitored entry is valid and has a PID, get_pid_summary
-- counts its audio streams, up to eight, and lists the PID of its audio stream number k at
-- position k.
pub get_pid_summary-audio :
    (t : Transport) (i : ℕ)
    → 0 < t.pmt_pid_count
    → find_monitored_index t ≡ some i
    → IsValid (entry_at t i)
    → (entry_at t i).pmt_pid ≢ 0
    → ((get_pid_summary (some t)).1.audio_pid_count ≡ (
        if ltb (entry_at t i).audio_stream_count max_audio_pids
        then (entry_at t i).audio_stream_count
        else max_audio_pids))
      × ((k : ℕ)
          → k < (entry_at t i).audio_stream_count
          → k < max_audio_pids
          → get_elem? (get_pid_summary (some t)).1.audio_pid k ≡ some (audio_pids (entry_at t i) k))
unfolding get_pid_summary summary_of
get_pid_summary-audio t i pat e v real = (kept.counted, kept.held)
  where
    start : Summary
    start = put_programs t.pat_program_number t.pmt_pid_count 0 (record no_summary {
      program_count = t.pmt_pid_count;
      requested_program = t.selected_program;
    })

    summed :
        (o : Option ℕ)
        → o ≡ some i
        → Kept (audio_pids (entry_at t i)) (entry_at t i).audio_stream_count (summary_of t o start)
    summed o at =
        subst
          (λ o.
            Kept (audio_pids (entry_at t i)) (entry_at t i).audio_stream_count
              (summary_of t o start))
          (sym at)
          (if_intro (Kept (audio_pids (entry_at t i)) (entry_at t i).audio_stream_count)
            (ltb 0 t.pmt_pid_count)
            (λ e. put_monitored-Kept (entry_at t i) start v real (
              put_programs-Kept (audio_pids (entry_at t i)) t.pat_program_number t.pmt_pid_count 0 _
                (record { room = refl; counted = refl; held = λ k lt. elim lt [ ] })))
            (λ e. absurd (ground arith)))

    kept :
        Kept
          (audio_pids (entry_at t i))
          (entry_at t i).audio_stream_count
          (get_pid_summary (some t)).1
    kept = summed (find_monitored_index t) e
