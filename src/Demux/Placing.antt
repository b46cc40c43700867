-- ===== src/Demux/Placing.antt =====
-- Where decode_packets of source/tsdecode.c finds the streams of the selected program.
use opensrthub.Base.{
  ℕ, zero, suc, ◌+◌, ◌<◌, ◌≡◌, refl, subst, Option, none, some, List, arith, ltb, ltb→lt, if_intro,
}
use opensrthub.Pmt.Table.{Stream}
use opensrthub.Pmt.Select.{entry_at}
use opensrthub.Demux.State.{Decoder}
use opensrthub.Demux.Header.{current_pid}
use opensrthub.Demux.Stream.{find_stream}
use opensrthub.Demux.Packets.{selected, stream_of}

find_stream_lt :
    (pid : ℕ) (ss : List Stream) (k j i : ℕ) → find_stream pid ss k j ≡ some i → i < j + k
unfolding find_stream
find_stream_lt pid ss zero j i e = absurd (cc)
find_stream_lt pid ss (suc k) j i e = ground (arith, find_stream_lt pid ss k (suc j) i)

-- A stream of the selected program lies in a decoded entry, among its streams.
Placed : Decoder → Option (ℕ × ℕ) → Type 0
Placed d none = Unit
Placed d (some (i, j)) =
    (i < d.transport.tables.pmt_table_entries) × (j < (entry_at d.transport i).stream_count)

found_in :
    (p : List ℕ) (d : Decoder) (i : ℕ) (o : Option ℕ)
    → i < d.transport.tables.pmt_table_entries
    → ((j : ℕ) → o ≡ some j → j < (entry_at d.transport i).stream_count)
    → Placed d (elim o [ none ↦ none | some j ↦ some (i, j) ])
unfolding Placed
found_in p d i none lt h = tt
found_in p d i (some j) lt h = (lt, h j refl)

stream_of-Placed : (select : Option ℕ) (p : List ℕ) (d : Decoder) → Placed d (stream_of select p d)
unfolding stream_of Placed
stream_of-Placed none p d = tt
stream_of-Placed (some i) p d =
    let t = entry_at d.transport i in
    if_intro
      (λ (o : Option ℕ). Placed d (elim o [
        | none ↦ none
        | some i ↦
            elim (find_stream (current_pid p) (entry_at d.transport i).streams
              (entry_at d.transport i).stream_count 0) [ none ↦ none | some j ↦ some (i, j) ]
      ]))
      (ltb i d.transport.tables.pmt_table_entries) {x = some i} {y = none}
      (λ y.
        found_in p d i (find_stream (current_pid p) t.streams t.stream_count 0)
          (ltb→lt i d.transport.tables.pmt_table_entries y)
          (λ j e. omega (arith, find_stream_lt (current_pid p) t.streams t.stream_count 0 j e)))
      λ y. tt

pub stream_of_lt :
    (select : Option ℕ) (p : List ℕ) (d : Decoder) (i j : ℕ)
    → stream_of select p d ≡ some (i, j)
    → (i < d.transport.tables.pmt_table_entries) × (j < (entry_at d.transport i).stream_count)
unfolding Placed
stream_of_lt select p d i j e = subst (Placed d) e (stream_of-Placed select p d)

pub selected_lt :
    (select : Option ℕ) (d : Decoder) (i : ℕ)
    → selected select d ≡ some i
    → i < d.transport.tables.pmt_table_entries
selected_lt none d i e = absurd (cc)
selected_lt (some k) d i e = ground arith
