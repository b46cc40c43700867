-- ===== src/Demux/Reassembly.antt =====
-- The frames that decode_packets of source/tsdecode.c puts together from the payloads of a stream.
use opensrthub.Base.{
  ℕ, zero, suc, ◌+◌, ◌-◌, ◌≤◌, ◌<◌, ◌≡◌, inl, inr, refl, sym, ap, ◌∙◌, List, [], ◌∷◌, ◌++◌, arith,
  ◌||◌, length, get_or, length-append, ltb, leb, if_intro, ◌==◌, Option-cases, Gives, Gives-bind,
}
use opensrthub.Demux.State.{Engine, World, ts_packet_size, ts_payload_size, max_buffer_size}
use opensrthub.Demux.Sections.{slice}
use opensrthub.Demux.Frames.{prefix}
use opensrthub.Demux.Stream.{write_buffer, continuity, append_payload}
use opensrthub.Demux.Valid.{length-slice}

prefix-agree :
    (f g : ℕ → ℕ) (n i : ℕ) → ((j : ℕ) → j < i + n → f j ≡ g j) → prefix f i n ≡ prefix g i n
unfolding prefix
prefix-agree f g zero i h = refl
prefix-agree f g (suc n) i h =
    let first : f i ≡ g i = h i (omega arith) in
    let rest = prefix-agree f g n (suc i) (λ j lt. h j (omega arith)) in cc

prefix-values :
    (f : ℕ → ℕ) (ys : List ℕ) (i : ℕ)
    → ((j : ℕ) → j < length ys → f (i + j) ≡ get_or ys j 0)
    → prefix f i (length ys) ≡ ys
unfolding prefix
prefix-values f [] i h = refl
prefix-values f (y ∷ ys) i h =
    let first : f i ≡ y = ap f {x = i} {y = i + 0} (omega arith) ∙ h 0 (omega arith) in
    let rest =
      prefix-values f ys (suc i)
        (λ j lt. ap f {x = suc i + j} {y = i + suc j} (omega arith) ∙ h (suc j) (omega arith)) in
    cc

prefix-append : (m : ℕ → ℕ) (n k i : ℕ) → prefix m i (n + k) ≡ prefix m i n ++ prefix m (i + n) k
unfolding prefix
prefix-append m zero k i =
    ap (λ (x : ℕ). prefix m i x) {x = zero + k} {y = k} (omega arith)
    ∙ ap (λ (x : ℕ). prefix m x k) {x = i} {y = i + 0} (omega arith)
prefix-append m (suc n) k i =
    ap (λ (x : ℕ). prefix m i x) {x = suc n + k} {y = suc (n + k)} (omega arith)
    ∙ ap (λ xs. m i ∷ xs) (prefix-append m n k (suc i))
    ∙ ap (λ (x : ℕ). m i ∷ (prefix m (suc i) n ++ prefix m x k)) {x = suc i + n} {y = i + suc n}
        (omega arith)

write_before : (m : ℕ → ℕ) (n : ℕ) (ys : List ℕ) (j : ℕ) → j < n → write_buffer n ys m j ≡ m j
unfolding write_buffer
write_before m n ys j lt = ground arith

write_at :
    (m : ℕ → ℕ) (n : ℕ) (ys : List ℕ) (j i : ℕ)
    → i ≡ n + j
    → j < length ys
    → write_buffer n ys m i ≡ get_or ys j 0
unfolding write_buffer
write_at m n ys j i e lt =
    let shift : i - n ≡ j = omega arith in
    if_intro (λ x. x ≡ get_or ys j 0) (ltb i n || leb (n + length ys) i)
      (λ y. absurd (ground arith)) λ y. ap (λ (k : ℕ). get_or ys k 0) shift

-- What is written behind the first bytes is appended to them.
pub prefix-write_buffer :
    (m : ℕ → ℕ) (n : ℕ) (ys : List ℕ)
    → prefix (write_buffer n ys m) 0 (n + length ys) ≡ prefix m 0 n ++ ys
prefix-write_buffer m n ys =
    prefix-append (write_buffer n ys m) n (length ys) 0
    ∙ ap (λ xs. xs ++ prefix (write_buffer n ys m) (0 + n) (length ys))
        (prefix-agree (write_buffer n ys m) m n 0 (λ j lt. before j (omega arith)))
    ∙ ap (λ xs. prefix m 0 n ++ xs) (prefix-values (write_buffer n ys m) ys (0 + n) written)
  where
    before : (j : ℕ) → j < n → write_buffer n ys m j ≡ m j
    before j lt = write_before m n ys j lt

    written : (j : ℕ) → j < length ys → write_buffer n ys m (0 + n + j) ≡ get_or ys j 0
    written j lt = write_at m n ys j (0 + n + j) (omega arith) lt

-- The engine's frame is this list, with these time stamps.
abbrev pub Carries : List ℕ → ℕ → ℕ → Engine → Type 0
Carries xs pts dts e =
    Gives (λ m. prefix m 0 e.data_index ≡ xs) e.buffer
    × (e.data_index ≡ length xs)
    × (e.pts ≡ pts)
    × (e.dts ≡ dts)

-- The payload of a packet behind an adaptation field of this size.
abbrev pub payload : List ℕ × ℕ → List ℕ
payload (p, adaptation) = slice (4 + adaptation) (ts_payload_size - adaptation) p

pub continuity-Carries :
    (xs : List ℕ) (pts dts c : ℕ) (e : Engine)
    → Carries xs pts dts e
    → Carries xs pts dts (continuity c e)
unfolding continuity
continuity-Carries xs pts dts c e h = elim (Option-cases e.last_cc) [
  | inl o ↦ rw (o, continuity) h
  | inr (last, o) ↦ rw (o, continuity) h
]

module _ (w : World) where
  pub append_payload-Carries :
      (p : List ℕ) (adaptation : ℕ) (xs : List ℕ) (pts dts : ℕ) (e : Engine)
      → length p ≡ ts_packet_size
      → adaptation < ts_payload_size
      → 1 ≤ length xs
      → length xs + (ts_payload_size - adaptation) ≤ max_buffer_size
      → Carries xs pts dts e
      → Gives
          (Carries (xs ++ payload (p, adaptation)) pts dts)
          (append_payload w p (4 + adaptation) adaptation e)
  unfolding append_payload
  append_payload-Carries p adaptation xs pts dts e whole lt some_of fits (b, n, t, u) =
      let n_payload = ts_payload_size - adaptation in
      if_intro (Gives (Carries (xs ++ payload (p, adaptation)) pts dts))
        (e.data_index == 0 || ltb ts_payload_size adaptation) (λ y. absurd (ground arith))
        λ y.
          if_intro (Gives (Carries (xs ++ payload (p, adaptation)) pts dts))
            (ltb max_buffer_size (e.data_index + n_payload)) (λ y. absurd (ground arith))
            λ y.
              if_intro (Gives (Carries (xs ++ payload (p, adaptation)) pts dts))
                (ltb (length p) (4 + adaptation + n_payload)) (λ y. absurd (ground arith))
                λ y.
                  Gives-bind (λ m. prefix m 0 e.data_index ≡ xs)
                    (Carries (xs ++ payload (p, adaptation)) pts dts) _ e.buffer b
                    λ m same. (
                      appended m e.data_index same,
                      omega (arith, size, length-append xs (payload (p, adaptation))),
                      t,
                      u,
                    )
    where
      size : length (payload (p, adaptation)) ≡ ts_payload_size - adaptation
      size = length-slice (4 + adaptation) (ts_payload_size - adaptation) p (omega arith)

      appended :
          (m : ℕ → ℕ) (k : ℕ)
          → prefix m 0 k ≡ xs
          → prefix
              (write_buffer k (payload (p, adaptation)) m)
              0
              (k + (ts_payload_size - adaptation))
            ≡ xs ++ payload (p, adaptation)
      appended m k same =
          ap (λ (x : ℕ). prefix (write_buffer k (payload (p, adaptation)) m) 0 (k + x)) (sym size)
          ∙ prefix-write_buffer m k (payload (p, adaptation))
          ∙ ap (λ ys. ys ++ payload (p, adaptation)) same
