-- ===== src/Demux/Destroy.antt =====
-- destroy_transport_data of source/tsdecode.c. Its result is the state at the last call of `free`, which
-- frees the state itself; `none` is NULL. Freeing a buffer leaves none behind the pointer.
use native.Mathlib.Decide.{ℕ_discrete, dec_lt}
use opensrthub.Base.{
  ℕ, zero, suc, ◌+◌, ◌≤◌, ◌<◌, ◌≡◌, refl, subst, ◌&&◌, Option, none, some, arith, ◌==◌, if_intro,
}
use opensrthub.Pmt.Table.{max_streams, max_pmt_pids}
use opensrthub.Demux.State.{Engine, Decoder}
use opensrthub.Demux.Stream.{put_engine}
use opensrthub.Demux.Valid.{IsDecoder}

-- The loop over `k` streams of entry `i` from number `j` on.
unfoldable pub free_streams : ℕ → ℕ → ℕ → Decoder → Decoder
free_streams i zero j d = d
free_streams i (suc k) j d =
    free_streams i k (suc j) (put_engine i j (record (d.data_engine i j) { buffer = none }) d)

-- The loop over `k` entries from number `i` on.
unfoldable pub free_entries : ℕ → ℕ → Decoder → Decoder
unfolding free_streams
free_entries zero i d = d
free_entries (suc k) i d = free_entries k (suc i) (free_streams i max_streams 0 d)

unfoldable pub destroy_transport_data : Option Decoder → Option Decoder
unfolding free_entries
destroy_transport_data none = none
destroy_transport_data (some d) = some (free_entries max_pmt_pids 0 d)

-- No buffer is there.
Bare : ℕ → ℕ → Decoder → Type 0
Bare a b d = (d.data_engine a b).buffer ≡ none

put_engine-Bare :
    (i j a b : ℕ) (d : Decoder)
    → Bare a b d
    → Bare a b (put_engine i j (record (d.data_engine i j) { buffer = none }) d)
unfolding Bare
put_engine-Bare i j a b d h =
    if_intro (λ (e : Engine). e.buffer ≡ none) (a == i && b == j) (λ y. refl) λ y. h

put_engine-freed :
    (i j : ℕ) (d : Decoder)
    → Bare i j (put_engine i j (record (d.data_engine i j) { buffer = none }) d)
unfolding Bare
put_engine-freed i j d =
    if_intro (λ (e : Engine). e.buffer ≡ none) (i == i && j == j) (λ y. refl)
      λ y. absurd (ground arith)

free_streams-Bare : (i k j a b : ℕ) (d : Decoder) → Bare a b d → Bare a b (free_streams i k j d)
unfolding free_streams
free_streams-Bare i zero j a b d h = h
free_streams-Bare i (suc k) j a b d h =
    free_streams-Bare i k (suc j) a b _ (put_engine-Bare i j a b d h)

free_streams-freed :
    (i k j b : ℕ) (d : Decoder) → j ≤ b → b < j + k → Bare i b (free_streams i k j d)
unfolding free_streams
free_streams-freed i zero j b d le lt = absurd (omega arith)
free_streams-freed i (suc k) j b d le lt = elim (ℕ_discrete j b) [
  | yes e ↦
      subst (λ (b : ℕ). Bare i b (free_streams i (suc k) j d)) e
        (free_streams-Bare i k (suc j) i j _ (put_engine-freed i j d))
  | no ne ↦ free_streams-freed i k (suc j) b _ (omega arith) (omega arith)
]

free_entries-Bare : (k i a b : ℕ) (d : Decoder) → Bare a b d → Bare a b (free_entries k i d)
unfolding free_entries
free_entries-Bare zero i a b d h = h
free_entries-Bare (suc k) i a b d h =
    free_entries-Bare k (suc i) a b _ (free_streams-Bare i max_streams 0 a b d h)

free_entries-freed :
    (k i a b : ℕ) (d : Decoder)
    → i ≤ a
    → a < i + k
    → b < max_streams
    → Bare a b (free_entries k i d)
unfolding free_entries
free_entries-freed zero i a b d le lt room = absurd (omega arith)
free_entries-freed (suc k) i a b d le lt room = elim (ℕ_discrete i a) [
  | yes e ↦
      subst (λ (a : ℕ). Bare a b (free_entries (suc k) i d)) e
        (free_entries-Bare k (suc i) i b _
          (free_streams-freed i max_streams 0 b d (omega arith) (omega arith)))
  | no ne ↦ free_entries-freed k (suc i) a b _ (omega arith) (omega arith) room
]

-- Every buffer of a valid state is freed.
pub destroy_transport_data-freed :
    (d : Decoder)
    → IsDecoder d
    → (e : Decoder) × (destroy_transport_data (some d) ≡ some e)
      × ((a b : ℕ) → (e.data_engine a b).buffer ≡ none)
unfolding destroy_transport_data Bare
destroy_transport_data-freed d (t, u, v, w, x, y, z, engines) = (
  free_entries max_pmt_pids 0 d,
  refl,
  λ a b. elim (dec_lt a max_pmt_pids) [
    | no out ↦ free_entries-Bare max_pmt_pids 0 a b d ((engines a b).1.0 (omega arith))
    | yes a_lt ↦ elim (dec_lt b max_streams) [
      | no out ↦ free_entries-Bare max_pmt_pids 0 a b d ((engines a b).1.1 (omega arith))
      | yes b_lt ↦ free_entries-freed max_pmt_pids 0 a b d (omega arith) (omega arith) b_lt
    ]
  ],
)
