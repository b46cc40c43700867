-- ===== src/Demux/PatRoundTrip.antt =====
-- decode_packets of source/tsdecode.c recovers the programs of an encoded program association section.
use mathlib.Core.List.{append_assoc}
use opensrthub.Base.{
  ℕ, ◌+◌, ◌-◌, ◌*◌, ◌/◌, ◌%◌, ◌^◌, ◌≤◌, ◌<◌, ◌≡◌, ◌≢◌, refl, sym, subst, ap, ◌∙◌, true, Option,
  none, some, List, [], ◌∷◌, ◌++◌, arith, All, length, length-append, ltb, leb, ◌==◌, if_intro,
  Gives, Gives-some, Bool-cases, inl, inr, ==_iff,
}
use opensrthub.Pmt.Table.{max_pmt_pids}
use opensrthub.Demux.State.{Decoder, ts_packet_size}
use opensrthub.Demux.Header.{octet, word}
use opensrthub.Demux.Sections.{version_at}
use opensrthub.Demux.Programs.{
  section_entries, add_programs, known_version, is_fresh, take_section, decode_pat,
}
use opensrthub.Demux.Association.{
  Program, IsProgram, pat_bytes, named, Lists, program_bytes, length-program_bytes, byte_behind,
  word_behind, add_programs-Lists,
}

decode_pat_at :
    (p : List ℕ) (q : ℕ) (d : Decoder)
    → length p ≡ ts_packet_size
    → q + 9 ≤ ts_packet_size
    → octet p q ≡ 0
    → 9 ≤ word p (q + 2) % 2 ^ 12
    → decode_pat p q d
      ≡ take_section p q
          (section_entries (word p (q + 2) % 2 ^ 12) (ts_packet_size - q))
          (word p (q + 4))
          (version_at p (q + 6))
          d
unfolding decode_pat
decode_pat_at p q d whole inside pointer enough =
    let unit_size = octet p q in
    let taken = λ (x : ℕ × ℕ).
      take_section p x.0 (section_entries (word p (x.0 + 2) % 2 ^ 12) x.1) (word p (x.0 + 4))
        (version_at p (x.0 + 6)) d in
    let same : q + unit_size ≡ q = omega arith in
    let there : ts_packet_size - q - unit_size ≡ ts_packet_size - q = omega arith in
    let size : word p (q + unit_size + 2) % 2 ^ 12 ≡ word p (q + 2) % 2 ^ 12 =
      ap (λ (x : ℕ). word p (x + 2) % 2 ^ 12) same in
    if_intro (λ o. o ≡ taken (q, ts_packet_size - q)) (leb (length p) q)
      (λ y. absurd (ground arith))
      λ a.
        if_intro (λ o. o ≡ taken (q, ts_packet_size - q)) (ltb (ts_packet_size - q) (unit_size + 9))
          (λ y. absurd (ground arith))
          λ b.
            if_intro (λ o. o ≡ taken (q, ts_packet_size - q)) (leb (length p) (q + unit_size + 8))
              (λ y. absurd (ground arith))
              λ c.
                if_intro (λ o. o ≡ taken (q, ts_packet_size - q))
                  (ltb (word p (q + unit_size + 2) % 2 ^ 12) 9) (λ y. absurd (ground arith))
                  λ y.
                    ap taken {x = (q + unit_size, ts_packet_size - q - unit_size)}
                      {y = (q, ts_packet_size - q)} (λ i. (same i, there i))

section_entries_lem :
    (n available : ℕ)
    → n ≤ max_pmt_pids
    → 9 + 4 * n ≤ available
    → section_entries (9 + 4 * n) available ≡ n
unfolding section_entries
section_entries_lem n available few room = ground arith

take_section_fresh :
    (p : List ℕ) (q entries stream_id version : ℕ) (d : Decoder) (done : List Program)
    → is_fresh (known_version stream_id d) version ≡ true
    → length d.pmt_pid_index ≡ max_pmt_pids
    → length d.transport.pat_program_number ≡ max_pmt_pids
    → ((e : Decoder) → Lists [] e → Gives (Lists done) (add_programs p entries (q + 9) e))
    → Gives (Lists done) (take_section p q entries stream_id version d)
unfolding take_section
take_section_fresh p q entries stream_id version d done fresh a b add =
    if_intro (Gives (Lists done)) (is_fresh (known_version stream_id d) version)
      (λ y. add _ (refl, refl, refl, a, b)) λ y. absurd (cc)

fresh_of : (o : Option ℕ) (version : ℕ) → o ≢ some version → is_fresh o version ≡ true
fresh_of none version h = refl
fresh_of (some v) version h = elim (Bool-cases (version == v)) [
  | inl e ↦ absurd (h (ap some (sym ((==_iff version v).0 e))))
  | inr e ↦ rw e refl
]

-- The nine bytes in front of the entries.
abbrev head_bytes : ℕ → ℕ → ℕ → List ℕ
head_bytes stream_id version n =
    let size = 9 + 4 * n in
    0
    ∷ 0
    ∷ (176 + size / 2 ^ 8)
    ∷ (size % 2 ^ 8)
    ∷ (stream_id / 2 ^ 8)
    ∷ (stream_id % 2 ^ 8)
    ∷ (193 + 2 * version)
    ∷ 0
    ∷ 0
    ∷ []

-- A program association section behind a pointer field of 0, as large as its packet allows, whose
-- version below 16 is not the known one of its transport stream, is decoded to its programs: the
-- PMT PIDs and the program numbers are listed in their order, without the entry of number 0.
pub decode_pat-pat_bytes :
    (front rest : List ℕ) (stream_id version : ℕ) (ps : List Program) (d : Decoder)
    → length (front ++ pat_bytes stream_id version ps rest) ≡ ts_packet_size
    → stream_id < 2 ^ 16
    → version < 2 ^ 4
    → All IsProgram ps
    → known_version stream_id d ≢ some version
    → length d.pmt_pid_index ≡ max_pmt_pids
    → length d.transport.pat_program_number ≡ max_pmt_pids
    → (e : Decoder) × (decode_pat (front ++ pat_bytes stream_id version ps rest) (length front) d
        ≡ some e)
      × Lists (named ps) e
decode_pat-pat_bytes front rest stream_id version ps d whole id_lt v_lt all new a b =
    let xs = pat_bytes stream_id version ps rest in
    let p = front ++ xs in
    let q = length front in
    let head = head_bytes stream_id version (length ps) in
    let moved : (front ++ head) ++ (program_bytes ps ++ rest) ≡ p =
      append_assoc front head (program_bytes ps ++ rest) in
    let long : q + (9 + (length (program_bytes ps) + length rest)) ≡ ts_packet_size =
      omega (arith, whole, length-append front xs, length-append (program_bytes ps) rest) in
    let few : 4 * length ps + q + 9 ≤ ts_packet_size = omega (arith, length-program_bytes ps) in
    let size : word p (q + 2) % 2 ^ 12 ≡ 9 + 4 * length ps =
      ap (λ (x : ℕ). x % 2 ^ 12) (word_behind front xs 2) ∙ (omega arith) in
    let pointer : octet p q ≡ 0 =
      ap (octet p) {x = q} {y = q + 0} (omega arith) ∙ byte_behind front xs 0 in
    let id : word p (q + 4) ≡ stream_id = word_behind front xs 4 ∙ (omega arith) in
    let v : version_at p (q + 6) ≡ version =
      ap (λ (x : ℕ). x / 2 % 2 ^ 4) (byte_behind front xs 6) ∙ (omega arith) in
    let entries : section_entries (word p (q + 2) % 2 ^ 12) (ts_packet_size - q) ≡ length ps =
      ap (λ (x : ℕ). section_entries x (ts_packet_size - q)) size
      ∙ section_entries_lem (length ps) (ts_packet_size - q) (omega arith) (omega arith) in
    let added = λ (e : Decoder) (none_yet : Lists [] e).
      subst (λ ys. Gives (Lists (named ps)) (add_programs ys (length ps) (q + 9) e)) moved
        (add_programs-Lists rest ps (front ++ head) (q + 9) [] e
          (omega (arith, length-append front head)) all (omega arith) none_yet) in
    let (e, taken, listed) =
      Gives-some (Lists (named ps)) (take_section p q (length ps) stream_id version d) (
        take_section_fresh p q (length ps) stream_id version d (named ps)
          (fresh_of (known_version stream_id d) version new) a b added) in
    (
      e,
      decode_pat_at p q d whole (omega arith) pointer (omega arith)
          ∙ ap (λ (x : ℕ × ℕ × ℕ). take_section p q x.0 x.1 x.2 d)
              {x = (
                section_entries (word p (q + 2) % 2 ^ 12) (ts_packet_size - q),
                word p (q + 4),
                version_at p (q + 6),
              )}
              {y = (length ps, stream_id, version)} (λ i. (entries i, id i, v i))
          ∙ taken,
      listed,
    )
