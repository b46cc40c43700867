-- ===== src/Demux/Counts.antt =====
-- The table of PIDs that decode_packets of source/tsdecode.c keeps.
use opensrthub.Base.{
  ℕ, suc, ◌+◌, ◌≤◌, ◌≡◌, refl, ◌&&◌, List, [], ◌∷◌, arith, ◌==◌, if◌then◌else◌, replicate, zero,
  occurrences,
}
use opensrthub.Demux.State.{PacketEntry, unseen, max_pids}
use opensrthub.Demux.Header.{count_pid}

-- The packets of these PIDs, in their order.
unfoldable pub count_pids : List ℕ → List PacketEntry → List PacketEntry
count_pids [] es = es
count_pids (pid ∷ pids) es = count_pids pids (count_pid pid es)

-- What the table says of a PID: the sum over its valid entries.
unfoldable pub counted : ℕ → List PacketEntry → ℕ
counted pid [] = 0
counted pid (e ∷ es) = (if e.pid == pid && e.valid then e.input_packets else 0) + counted pid es

-- The entries that are not in use.
unfoldable pub unused : List PacketEntry → ℕ
unused [] = 0
unused (e ∷ es) = (if e.valid then 0 else 1) + unused es

count_pid-unused : (pid : ℕ) (es : List PacketEntry) → unused (count_pid pid es) ≤ unused es
unfolding count_pid unused
count_pid-unused pid [] = omega arith
count_pid-unused pid (e ∷ es) = ground (arith, count_pid-unused pid es)

-- A table with an unused entry takes the packet.
count_pid-counted :
    (q pid : ℕ) (es : List PacketEntry)
    → 1 ≤ unused es
    → counted q (count_pid pid es) ≡ (if pid == q then 1 else 0) + counted q es
unfolding count_pid unused counted
count_pid-counted q pid [] h = absurd (omega arith)
count_pid-counted q pid (e ∷ es) h = ground (arith, count_pid-counted q pid es)

count_pids-unused :
    (pids : List ℕ) (es : List PacketEntry) → unused (count_pids pids es) ≤ unused es
unfolding count_pids
count_pids-unused [] es = omega arith
count_pids-unused (pid ∷ pids) es =
    omega (arith, count_pids-unused pids (count_pid pid es), count_pid-unused pid es)

count_pids_counted :
    (q : ℕ) (pids : List ℕ) (es : List PacketEntry)
    → 1 ≤ unused (count_pids pids es)
    → counted q (count_pids pids es) ≡ occurrences q pids + counted q es
unfolding count_pids occurrences
count_pids_counted q [] es h = omega arith
count_pids_counted q (pid ∷ pids) es h = omega (
  arith,
  count_pids_counted q pids (count_pid pid es),
  count_pid-counted q pid es
      (omega (arith, count_pids-unused pids (count_pid pid es), count_pid-unused pid es)),
)

counted-unseen : (q n : ℕ) → counted q (replicate n unseen) ≡ 0
unfolding counted
counted-unseen q zero = refl
counted-unseen q (suc n) = ground (arith, counted-unseen q n)

-- As long as the table of PIDs has an entry that is not in use, it holds for every PID the number
-- of packets that came with it.
pub counted-count_pids :
    (q : ℕ) (pids : List ℕ)
    → 1 ≤ unused (count_pids pids (replicate max_pids unseen))
    → counted q (count_pids pids (replicate max_pids unseen)) ≡ occurrences q pids
counted-count_pids q pids h =
    omega
      (arith, count_pids_counted q pids (replicate max_pids unseen) h, counted-unseen q max_pids)
