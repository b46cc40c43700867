-- ===== src/Demux/Association.antt =====
-- decode_packets of source/tsdecode.c recovers the programs of an encoded program association section.
use mathlib.Core.List.{append-nil, append_assoc}
use opensrthub.Base.{
  ℕ, suc, ◌+◌, ◌*◌, ◌/◌, ◌%◌, ◌^◌, ◌≤◌, ◌<◌, ◌≡◌, refl, sym, subst, ap, ◌∙◌, true, false, List, [],
  ◌∷◌, ◌++◌, map, arith, All, length, set, take, length-append, length-set, take-set,
  get_or-append_right, ltb, leb, ◌==◌, if◌then◌else◌, if_intro, Gives,
}
use opensrthub.Pmt.Table.{max_pmt_pids}
use opensrthub.Demux.State.{Decoder}
use opensrthub.Demux.Header.{octet, word}
use opensrthub.Demux.Programs.{add_program, add_programs}

-- A program number and the PID of its map section.
abbrev pub Program : Type 0
Program = ℕ × ℕ

abbrev pub IsProgram : Program → Type 0
IsProgram (number, pid) = (number < 2 ^ 16) × (pid < 2 ^ 13)

-- The entries of a section; the three reserved bits are set.
unfoldable pub program_bytes : List Program → List ℕ
program_bytes [] = []
program_bytes ((number, pid) ∷ ps) =
    (number / 2 ^ 8) ∷ (number % 2 ^ 8) ∷ (224 + pid / 2 ^ 8) ∷ (pid % 2 ^ 8) ∷ program_bytes ps

-- The section behind its pointer field of 0; its length counts from the stream's number to the CRC.
abbrev pub pat_bytes : ℕ → ℕ → List Program → List ℕ → List ℕ
pat_bytes stream_id version ps rest =
    let size = 9 + 4 * length ps in
    0
    ∷ 0
    ∷ (176 + size / 2 ^ 8)
    ∷ (size % 2 ^ 8)
    ∷ (stream_id / 2 ^ 8)
    ∷ (stream_id % 2 ^ 8)
    ∷ (193 + 2 * version)
    ∷ 0
    ∷ 0
    ∷ (program_bytes ps ++ rest)

-- Those that are programs: number 0 is the network information.
unfoldable pub named : List Program → List Program
named [] = []
named ((number, pid) ∷ ps) = if number == 0 then named ps else (number, pid) ∷ named ps

-- These programs are listed.
abbrev pub Lists : List Program → Decoder → Type 0
Lists done d =
    (d.transport.pmt_pid_count ≡ length done)
    × (take (length done) d.pmt_pid_index ≡ map (λ (q : Program). q.1) done)
    × (take (length done) d.transport.pat_program_number ≡ map (λ (q : Program). q.0) done)
    × (length d.pmt_pid_index ≡ max_pmt_pids)
    × (length d.transport.pat_program_number ≡ max_pmt_pids)

pub length-program_bytes : (ps : List Program) → length (program_bytes ps) ≡ 4 * length ps
unfolding program_bytes
length-program_bytes [] = omega arith
length-program_bytes (q ∷ ps) = omega (arith, length-program_bytes ps)

map_snoc :
    (f : Program → ℕ) (done : List Program) (q : Program)
    → map f (done ++ (q ∷ [])) ≡ map f done ++ (f q ∷ [])
map_snoc f [] q = refl
map_snoc f (x ∷ done) q = ap (λ xs. f x ∷ xs) (map_snoc f done q)

-- One more is listed.
listed_snoc :
    (f : Program → ℕ) (done : List Program) (q : Program) (xs : List ℕ) (c : ℕ)
    → c ≡ length done
    → length done < length xs
    → take (length done) xs ≡ map f done
    → take (length (done ++ (q ∷ []))) (set xs c (f q)) ≡ map f (done ++ (q ∷ []))
listed_snoc f done q xs c at lt e =
    ap (λ (n : ℕ). take n (set xs c (f q))) {x = length (done ++ (q ∷ []))} {y = suc (length done)}
      (omega (arith, length-append done (q ∷ [])))
    ∙ ap (λ (n : ℕ). take (suc (length done)) (set xs n (f q))) at
    ∙ take-set xs (length done) (f q) lt
    ∙ ap (λ ys. ys ++ (f q ∷ [])) e
    ∙ sym (map_snoc f done q)

add_program-Lists :
    (number pid : ℕ) (done : List Program) (d : Decoder)
    → (number == 0) ≡ false
    → length done < max_pmt_pids
    → Lists done d
    → Lists (done ++ ((number, pid) ∷ [])) (add_program number pid d)
unfolding add_program
add_program-Lists number pid done d real room (c, i, n, l, k) =
    let q : Program = (number, pid) in
    let fits : ltb d.transport.pmt_pid_count max_pmt_pids ≡ true = ground arith in
    if_intro (Lists (done ++ (q ∷ []))) (number == 0) (λ y. absurd (ground arith))
      λ y.
        if_intro (Lists (done ++ (q ∷ []))) (ltb d.transport.pmt_pid_count max_pmt_pids)
          (λ z. (
            omega (arith, length-append done (q ∷ [])),
            listed_snoc (λ (q : Program). q.1) done q d.pmt_pid_index d.transport.pmt_pid_count c
                (omega arith) i,
            listed_snoc (λ (q : Program). q.0) done q d.transport.pat_program_number
                d.transport.pmt_pid_count c (omega arith) n,
            length-set d.pmt_pid_index d.transport.pmt_pid_count pid ∙ l,
            length-set d.transport.pat_program_number d.transport.pmt_pid_count number ∙ k,
          ))
          λ z. absurd (ground arith)

add_program-zero :
    (number pid : ℕ) (d : Decoder) → (number == 0) ≡ true → add_program number pid d ≡ d
unfolding add_program
add_program-zero number pid d e = rw e refl

-- The bytes behind a list of known length.
pub byte_behind : (front ys : List ℕ) (i : ℕ) → octet (front ++ ys) (length front + i) ≡ octet ys i
byte_behind front ys i = get_or-append_right front ys i 0

pub word_behind : (front ys : List ℕ) (i : ℕ) → word (front ++ ys) (length front + i) ≡ word ys i
word_behind front ys i =
    let high = byte_behind front ys i in
    let low = byte_behind front ys (i + 1) in
    let at : octet (front ++ ys) (length front + i + 1)
        ≡ octet (front ++ ys) (length front + (i + 1)) =
      ap (octet (front ++ ys)) {x = length front + i + 1} {y = length front + (i + 1)}
        (omega arith) in
    omega arith

entry_bytes : Program → List ℕ
entry_bytes (number, pid) =
    (number / 2 ^ 8) ∷ (number % 2 ^ 8) ∷ (224 + pid / 2 ^ 8) ∷ (pid % 2 ^ 8) ∷ []

-- The two words of an entry.
entry_words :
    (front ys : List ℕ) (e number pid : ℕ)
    → e ≡ length front
    → IsProgram (number, pid)
    → (word (front ++ (entry_bytes (number, pid) ++ ys)) e ≡ number)
      × (word (front ++ (entry_bytes (number, pid) ++ ys)) (e + 2) % 2 ^ 13 ≡ pid)
unfolding entry_bytes
entry_words front ys e number pid at (number_lt, pid_lt) =
    let xs = entry_bytes (number, pid) ++ ys in
    let first : word (front ++ xs) e ≡ word xs 0 =
      ap (word (front ++ xs)) {x = e} {y = length front + 0} (omega arith)
      ∙ word_behind front xs 0 in
    let second : word (front ++ xs) (e + 2) ≡ word xs 2 =
      ap (word (front ++ xs)) {x = e + 2} {y = length front + 2} (omega arith)
      ∙ word_behind front xs 2 in
    (first ∙ (omega arith), ap (λ (x : ℕ). x % 2 ^ 13) second ∙ (omega arith))

module _ (rest : List ℕ) where
  pub add_programs-Lists :
      (ps : List Program) (front : List ℕ) (e : ℕ) (done : List Program) (d : Decoder)
      → e ≡ length front
      → All IsProgram ps
      → length done + length ps ≤ max_pmt_pids
      → Lists done d
      → Gives
          (Lists (done ++ named ps))
          (add_programs (front ++ (program_bytes ps ++ rest)) (length ps) e d)
  unfolding add_programs program_bytes named entry_bytes
  add_programs-Lists [] front e done d at all room h =
      subst (λ qs. Lists qs d) (sym (append-nil done)) h
  add_programs-Lists ((number, pid) ∷ ps) front e done d at (is, all) room h =
      let q : Program = (number, pid) in
      let p = front ++ (program_bytes (q ∷ ps) ++ rest) in
      let (first, second) = entry_words front (program_bytes ps ++ rest) e number pid at is in
      let moved : (front ++ entry_bytes q) ++ (program_bytes ps ++ rest) ≡ p =
        append_assoc front (entry_bytes q) (program_bytes ps ++ rest) in
      let behind : e + 4 ≡ length (front ++ entry_bytes q) =
        omega (arith, length-append front (entry_bytes q)) in
      let long : length p ≡ length front + (4 + length (program_bytes ps ++ rest)) =
        omega (arith, length-append front (program_bytes (q ∷ ps) ++ rest)) in
      if_intro (Gives (Lists (done ++ named (q ∷ ps)))) (leb (length p) (e + 3))
        (λ y. absurd (ground arith))
        λ y.
          subst
            (λ (r : ℕ × ℕ).
              Gives (Lists (done ++ named (q ∷ ps)))
                (add_programs p (length ps) (e + 4) (add_program r.0 r.1 d)))
            {x = q} {y = (word p e, word p (e + 2) % 2 ^ 13)} (λ i. (sym first i, sym second i))
            (if_intro
              (λ qs.
                Gives (Lists (done ++ qs))
                  (add_programs p (length ps) (e + 4) (add_program number pid d)))
              (number == 0)
              (λ z.
                subst
                  (λ (x : List ℕ × Decoder).
                    Gives (Lists (done ++ named ps)) (add_programs x.0 (length ps) (e + 4) x.1))
                  {x = ((front ++ entry_bytes q) ++ (program_bytes ps ++ rest), d)}
                  {y = (p, add_program number pid d)}
                  (λ i. (moved i, sym (add_program-zero number pid d z) i))
                  (add_programs-Lists ps (front ++ entry_bytes q) (e + 4) done d behind all
                    (omega arith) h))
              λ z.
                subst
                  (λ (x : List ℕ × List Program).
                    Gives (Lists x.1)
                      (add_programs x.0 (length ps) (e + 4) (add_program number pid d)))
                  {x = (
                    (front ++ entry_bytes q) ++ (program_bytes ps ++ rest),
                    (done ++ (q ∷ [])) ++ named ps,
                  )}
                  {y = (p, done ++ (q ∷ named ps))}
                  (λ i. (moved i, append_assoc done (q ∷ []) (named ps) i))
                  (add_programs-Lists ps (front ++ entry_bytes q) (e + 4) (done ++ (q ∷ []))
                    (add_program number pid d) behind all
                    (omega (arith, length-append done (q ∷ [])))
                    (add_program-Lists number pid done d z (omega arith) h)))
