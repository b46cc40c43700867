-- ===== src/Demux/Continuity.antt =====
-- The continuity counters that decode_packets of source/tsdecode.c checks, against the numbers of the
-- packets that were sent.
use opensrthub.Base.{
  ℕ, suc, ◌+◌, ◌%◌, ◌≤◌, ◌<◌, ◌≡◌, some, List, [], ◌∷◌, arith, ◌==◌, if◌then◌else◌,
}
use opensrthub.Demux.State.{Engine}
use opensrthub.Demux.Stream.{continuity}

-- The packets that arrive, by the number that the sender gave each; it sends the number modulo 16.
unfoldable pub receive : List ℕ → Engine → Engine
receive [] e = e
receive (n ∷ ns) e = receive ns (continuity (n % 16) e)

-- The places behind `last` where packets are missing.
unfoldable pub gaps : ℕ → List ℕ → ℕ
gaps last [] = 0
gaps last (n ∷ ns) = (if n == suc last then 0 else 1) + gaps n ns

-- Numbers grow, and at most fifteen are missing at a place.
unfoldable pub IsClose : ℕ → List ℕ → Type 0
IsClose last [] = Unit
IsClose last (n ∷ ns) = (last < n) × (n ≤ last + 16) × IsClose n ns

continuity-gap :
    (last n : ℕ) (e : Engine)
    → e.last_cc ≡ some (last % 16)
    → last < n
    → n ≤ last + 16
    → ((continuity (n % 16) e).corruption_count
        ≡ (if n == suc last then 0 else 1) + e.corruption_count)
      × ((continuity (n % 16) e).last_cc ≡ some (n % 16))
unfolding continuity
continuity-gap last n e known lt near = rw known (ground arith)

-- Where the last packet of a stream is known and at most fifteen packets are missing at a place,
-- the corruption count grows by the number of places where packets are missing.
pub receive-gaps :
    (last : ℕ) (ns : List ℕ) (e : Engine)
    → e.last_cc ≡ some (last % 16)
    → IsClose last ns
    → (receive ns e).corruption_count ≡ e.corruption_count + gaps last ns
unfolding receive gaps IsClose
receive-gaps last [] e known close = omega arith
receive-gaps last (n ∷ ns) e known (lt, near, close) =
    let (counted, now) = continuity-gap last n e known lt near in
    let rest = receive-gaps n ns (continuity (n % 16) e) now close in omega arith
