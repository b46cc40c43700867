-- ===== src/Relay/Made.antt =====
-- How the receivers of source/srthub.c make a packet: its buffers are taken, and nothing else is.
use opensrthub.Base.{
  ℕ, ◌+◌, ◌≡◌, Bool, true, false, Option, none, some, List, [], ◌∷◌, arith, ◌==◌, if◌then◌else◌,
  one_if, Gives,
}
use opensrthub.MemPool
use opensrthub.MemPool.{Ptr, null, Pool, Outcome, done, aborted, fault, give_back}
use opensrthub.Relay.Hub.{
  Packet, Store, with_result, packet, buffer_for, message_first, message_for, buffer_first,
}
use opensrthub.Relay.Owned.{IsOwned, IsOwned-same, IsTake, take-IsTake, IsGiven, give_back-IsGiven}

-- How many of the packets have the address, as message or as buffer.
unfoldable pub copies : (Packet → Ptr) → Ptr → List Packet → ℕ
copies f b [] = 0
copies f b (pk ∷ ps) = one_if (f pk == b) + copies f b ps

unfoldable pub copies_in : (Packet → Ptr) → Ptr → List (Option (List Packet)) → ℕ
unfolding copies
copies_in f b [] = 0
copies_in f b (q ∷ qs) = elim q [ none ↦ 0 | some ps ↦ copies f b ps ] + copies_in f b qs

abbrev pub Counts : Type 0
Counts = (Packet → Ptr) → Ptr → ℕ

-- The taken buffers are those of packets that the queues hold, as counted, or have lost.
unfoldable pub IsStore : Counts → Store → Type 0
unfolding copies
IsStore out s =
    IsOwned s.msgpool
      (λ b. out (λ (k : Packet). k.address) b + copies (λ (k : Packet). k.address) b s.lost)
    × IsOwned s.packetpool
        (λ b. out (λ (k : Packet). k.buffer) b + copies (λ (k : Packet). k.buffer) b s.lost)

pub IsStore-same :
    (s : Store) (out out' : Counts)
    → ((f : Packet → Ptr) (b : Ptr) → out f b ≡ out' f b)
    → IsStore out s
    → IsStore out' s
unfolding IsStore
IsStore-same s out out' same (m, p) = (
  IsOwned-same _ _ (λ b. omega (arith, same (λ (k : Packet). k.address) b)) m,
  IsOwned-same _ _ (λ b. omega (arith, same (λ (k : Packet). k.buffer) b)) p,
)

module _ {B : Type 0} (P : B → Type 0) (n : Ptr → ℕ) where
  picked :
      (b : Bool) {X Y : Type 0} (x y : Option B)
      → (X → Gives P x)
      → (Y → Gives P y)
      → if◌then◌else◌ {A = Type 0} b X Y
      → Gives P (if b then x else y)
  picked true x y f g h = f h
  picked false x y f g h = g h

  after_take :
      (o : Outcome Ptr) (x y : Ptr → Pool → Option B)
      → ((a : Ptr) (q : Pool) → IsOwned q n → Gives P (x a q))
      → ((a : Ptr) (q : Pool) → IsOwned q (λ b. one_if (a == b) + n b) → Gives P (y a q))
      → IsTake n o
      → Gives P (with_result o (λ a q. if a == null then x a q else y a q))
  after_take (done a q) x y f g h = picked (a == null) (x a q) (y a q) (f a q) (g a q) h
  after_take aborted x y f g h = absurd h
  after_take fault x y f g h = absurd h

  pub after_give :
      (o : Outcome Bool) (x : Bool → Pool → Option B)
      → ((ok : Bool) (q : Pool) → IsOwned q n → Gives P (x ok q))
      → IsGiven n o
      → Gives P (with_result o x)
  after_give (done ok q) x f h = f ok q h
  after_give aborted x f h = absurd h
  after_give fault x f h = absurd h

abbrev pub with_packet : Packet → Counts → Counts
with_packet pk out f b = one_if (f pk == b) + out f b

-- What a packet leaves that could be made or could not.
abbrev pub IsMade : Counts → Option Packet × Store → Type 0
IsMade out (none, s) = IsStore out s
IsMade out (some pk, s) = IsStore (with_packet pk out) s

module _ (out : Counts) (owner : ℕ) (bytes : List ℕ) (pts : ℕ) (s : Store) where
  abbrev msgs : Ptr → ℕ
  msgs b = out (λ (k : Packet). k.address) b + copies (λ (k : Packet). k.address) b s.lost

  abbrev bufs : Ptr → ℕ
  bufs b = out (λ (k : Packet). k.buffer) b + copies (λ (k : Packet). k.buffer) b s.lost

  made_both :
      (m b : Ptr) (p q : Pool)
      → IsOwned p (λ c. one_if (m == c) + msgs c)
      → IsOwned q (λ c. one_if (b == c) + bufs c)
      → IsStore (with_packet (packet m b bytes pts) out) (record s { msgpool = p; packetpool = q })
  unfolding IsStore
  made_both m b p q om oq =
      (IsOwned-same _ _ (λ c. omega arith) om, IsOwned-same _ _ (λ c. omega arith) oq)

  buffer_for-IsMade :
      (m : Ptr) (p : Pool)
      → IsOwned p (λ c. one_if (m == c) + msgs c)
      → IsOwned s.packetpool bufs
      → Gives (IsMade out) (buffer_for owner bytes pts s m p)
  unfolding buffer_for IsStore
  buffer_for-IsMade m p om oq =
      after_take (IsMade out) bufs (MemPool.take null owner s.packetpool)
        (λ b q.
          with_result (give_back m p) λ ok r. some (none, record s { msgpool = r; packetpool = q }))
        (λ b q. some (some (packet m b bytes pts), record s { msgpool = p; packetpool = q }))
        (λ b q o.
          after_give (IsMade out) msgs (give_back m p)
            (λ ok r. some (none, record s { msgpool = r; packetpool = q })) (λ ok r o'. (o', o))
            (give_back-IsGiven msgs m om))
        (λ b q o. made_both m b p q om o) (take-IsTake owner oq)

  pub message_first-IsMade : IsStore out s → Gives (IsMade out) (message_first owner bytes pts s)
  unfolding message_first IsStore
  message_first-IsMade (om, oq) =
      after_take (IsMade out) msgs (MemPool.take null owner s.msgpool)
        (λ m p. some (none, record s { msgpool = p })) (λ m p. buffer_for owner bytes pts s m p)
        (λ m p o. (o, oq)) (λ m p o. buffer_for-IsMade m p o oq) (take-IsTake owner om)

  message_for-IsMade :
      (b : Ptr) (q : Pool)
      → IsOwned q (λ c. one_if (b == c) + bufs c)
      → IsOwned s.msgpool msgs
      → Gives (IsMade out) (message_for owner bytes pts s b q)
  unfolding message_for IsStore
  message_for-IsMade b q oq om =
      after_take (IsMade out) msgs (MemPool.take null owner s.msgpool)
        (λ m p.
          with_result (give_back b q) λ ok r. some (none, record s { msgpool = p; packetpool = r }))
        (λ m p. some (some (packet m b bytes pts), record s { msgpool = p; packetpool = q }))
        (λ m p o.
          after_give (IsMade out) bufs (give_back b q)
            (λ ok r. some (none, record s { msgpool = p; packetpool = r })) (λ ok r o'. (o, o'))
            (give_back-IsGiven bufs b oq))
        (λ m p o. made_both m b p q o oq) (take-IsTake owner om)

  pub buffer_first-IsMade : IsStore out s → Gives (IsMade out) (buffer_first owner bytes pts s)
  unfolding buffer_first IsStore
  buffer_first-IsMade (om, oq) =
      after_take (IsMade out) bufs (MemPool.take null owner s.packetpool)
        (λ b q. some (none, record s { packetpool = q })) (λ b q. message_for owner bytes pts s b q)
        (λ b q o. (om, o)) (λ b q o. message_for-IsMade b q o om) (take-IsTake owner oq)
