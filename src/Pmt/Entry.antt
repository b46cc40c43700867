-- ===== src/Pmt/Entry.antt =====
-- The whole decode of an entry by decode_pmt_table of source/tsdecode.c.
use opensrthub.Base.{
  ℕ, zero, suc, ◌+◌, ◌-◌, ◌*◌, ◌^◌, ◌≤◌, ◌<◌, ◌≡◌, refl, subst, ◌∙◌, Bool, true, ◌&&◌, ◌||◌, not,
  Option, none, some, List, ◌++◌, take, drop, arith, length, get_or, length-set, ltb, leb, if_intro,
}
use opensrthub.Pmt.Table.{Pmt, array_size, max_descriptors, max_table_size}
use opensrthub.Pmt.Decode.{
  Walked, failed, finished, add_descriptor, program_info_length_at, copy, begin_entry, reset_entry,
  reach, program_loop, decode_streams, decode_entry,
}
use opensrthub.Pmt.Numbering.{range, audio_indices, cue_streams}
use opensrthub.Pmt.Pending.{Header, header_of, Numbered}
use opensrthub.Pmt.StreamLoop.{IsValid, Written, Numbered-Written, Streamed, stream_loop-Streamed}

-- An entry with its header and no stream yet.
record Fresh (pid program : ℕ) (q : Pmt) : Type 0 where
  head_pid : q.pmt_pid ≡ pid
  head_program : q.pmt_program_number ≡ program
  descriptor_size : length q.descriptors ≡ array_size
  numbered : Numbered (header_of q) 0 q

add_descriptor-Fresh :
    {pid program : ℕ} (n tag size : ℕ) (q : Pmt)
    → Fresh pid program q
    → Fresh pid program (add_descriptor n tag size q)
add_descriptor-Fresh {pid} {program} n tag size q fresh =
    if_intro (Fresh pid program) (ltb n max_descriptors)
      (λ e. record {
        head_pid = fresh.head_pid;
        head_program = fresh.head_program;
        descriptor_size = length-set q.descriptors n _ ∙ fresh.descriptor_size;
        numbered = record {
          kept = refl;
          size = fresh.numbered.size;
          counted = fresh.numbered.counted;
          within = fresh.numbered.within;
          indices = fresh.numbered.indices;
          cue_count = fresh.numbered.cue_count;
          apart = fresh.numbered.apart;
        };
      })
      (λ e. fresh)

module _ (m : List ℕ) (pid program : ℕ) where
  Walking : Option Walked → Type 0
  Walking none = ⊥
  Walking (some (failed q)) = Fresh pid program q
  Walking (some (finished p q)) = Fresh pid program q

  program_loop-Walking :
      (e k p n : ℕ) (q : Pmt)
      → e + 4 ≤ length m
      → e - p < k
      → Fresh pid program q
      → Walking (program_loop m e k p n q)
  unfolding program_loop Walking
  program_loop-Walking e zero p n q inside fuel fresh = elim fuel [ ]
  program_loop-Walking e (suc k) p n q inside fuel fresh =
      if_intro Walking (leb e p) (λ end. fresh)
        λ more.
          if_intro Walking (ltb (p + 1) (length m))
            (λ readable.
              if_intro Walking (ltb (e - p) (get_or m (p + 1) 0)) (λ long. fresh)
                λ fits.
                  if_intro Walking
                    (ltb (reach m p) (length m)
                      && (not (ltb n max_descriptors) || ltb n (length q.descriptors)))
                    (λ safe.
                      program_loop-Walking e k (p + 2 + get_or m (p + 1) 0) _ _ inside
                        (ground arith)
                        (add_descriptor-Fresh n (get_or m p 0) (get_or m (p + 1) 0) q fresh))
                    (λ unsafe. absurd (ground (arith, fresh.descriptor_size))))
            (λ unreadable. absurd (ground arith))

  -- What decode_streams and decode_entry leave.
  Kept : Option (Bool × Pmt) → Type 0
  Kept none = ⊥
  Kept (some (r, q)) = Written pid program q

  Fresh-Written : (q : Pmt) → Fresh pid program q → Written pid program q
  Fresh-Written q fresh =
      subst (λ a. Written a program q) fresh.head_pid
        (subst (λ b. Written q.pmt_pid b q) fresh.head_program
          (Numbered-Written fresh.numbered fresh.descriptor_size))

  streams-Kept :
      (h : Header) (o : Option Pmt)
      → h.0 ≡ pid
      → h.1 ≡ program
      → length h.3 ≡ array_size
      → Streamed m h o
      → Kept (elim o [ none ↦ none | some q ↦ some (true, q) ])
  unfolding Streamed Kept
  streams-Kept h none a b room s = s
  streams-Kept h (some q) a b room s =
      subst (λ a. Written a program q) a
        (subst (λ b. Written h.0 b q) b (Numbered-Written s.1 room))

  decode_streams-Kept :
      (size : ℕ) (w : Walked) → size < length m → Walking (some w) → Kept (decode_streams m size w)
  unfolding decode_streams Walking Kept
  decode_streams-Kept size (failed q) room fresh = Fresh-Written q fresh
  decode_streams-Kept size (finished p q) room fresh =
      if_intro Kept (ltb size p || ltb (13 + program_info_length_at m) p)
        (λ e. Fresh-Written q fresh)
        λ e. streams-Kept (header_of q) _ fresh.head_pid fresh.head_program fresh.descriptor_size (
          stream_loop-Streamed m (header_of q) size room (suc (size - p)) p 0 q (omega arith)
            fresh.numbered)

  walked-Kept :
      (size : ℕ) (o : Option Walked)
      → size < length m
      → Walking o
      → Kept (elim o [ none ↦ none | some w ↦ decode_streams m size w ])
  unfolding Walking Kept
  walked-Kept size none room w = w
  walked-Kept size (some (failed q)) room w = decode_streams-Kept size (failed q) room w
  walked-Kept size (some (finished p q)) room w = decode_streams-Kept size (finished p q) room w

-- The program number that the header holds.
abbrev pub program_at : List ℕ → ℕ
program_at m = get_or m 4 0 * 2 ^ 8 + get_or m 5 0

module _ (m : List ℕ) (size pid : ℕ) (room : size + 4 ≤ length m) where
  -- The table is copied only where it fits, and the buffer holds it.
  reset_entry_lem :
      (pmt : Pmt)
      → (held : List ℕ) × (reset_entry m size pid pmt ≡ some (begin_entry m size pid held pmt))
  unfolding reset_entry copy
  reset_entry_lem pmt =
      if_intro
        (λ (o : Option (List ℕ)).
          (held : List ℕ) × (elim o [ none ↦ none | some d ↦ some (begin_entry m size pid d pmt) ]
            ≡ some (begin_entry m size pid held pmt)))
        (leb size max_table_size) (λ e. (take size m ++ drop size pmt.pmt_data, ground arith))
        λ e. (pmt.pmt_data, refl)

  begin_entry-Fresh :
      (held : List ℕ) (pmt : Pmt)
      → IsValid pmt
      → Fresh pid (program_at m) (begin_entry m size pid held pmt)
  unfolding begin_entry audio_indices cue_streams range
  begin_entry-Fresh held pmt v = record {
    head_pid = refl;
    head_program = refl;
    descriptor_size = v.descriptor_room;
    numbered = record {
      kept = refl;
      size = v.stream_room;
      counted = refl;
      within = omega arith;
      indices = refl;
      cue_count = refl;
      apart = tt;
    };
  }

  decode_entry-Kept :
      (pmt : Pmt) → IsValid pmt → Kept m pid (program_at m) (decode_entry m size pid pmt)
  unfolding decode_entry Kept
  decode_entry-Kept pmt v =
      let (held, e) = reset_entry_lem pmt in
      let start = begin_entry-Fresh held pmt v in
      rw (e, Kept)
        (if_intro (Kept m pid (program_at m))
          (ltb size (13 + program_info_length_at m)
            || ltb max_table_size (program_info_length_at m))
          (λ e. Fresh-Written m pid (program_at m) _ start)
          (λ e. walked-Kept m pid (program_at m) size _ (omega arith) (
            program_loop-Walking m pid (program_at m) (13 + program_info_length_at m)
              (suc (program_info_length_at m)) 13 0 _ (ground arith) (omega arith) start)))

  -- With the room for the checksum behind the table, the decode of a valid entry ends and stays inside the buffer and
  -- the arrays; it leaves a valid entry of this PID and program, whether the result is 0 or -1.
  pub decode_entry-ok :
      (pmt : Pmt)
      → IsValid pmt
      → (r : Bool) × (q : Pmt) × (decode_entry m size pid pmt ≡ some (r, q))
        × Written pid (program_at m) q
  unfolding Kept
  decode_entry-ok pmt v = kept _ (decode_entry-Kept pmt v)
    where
      kept :
          (o : Option (Bool × Pmt))
          → Kept m pid (program_at m) o
          → (r : Bool) × (q : Pmt) × (o ≡ some (r, q)) × Written pid (program_at m) q
      kept none w = absurd w
      kept (some (r, q)) w = (r, q, refl, w)
