-- ===== src/DataQueue/Chain.antt =====
-- The shape of a queue on the heap (source/dataqueue.c): what it stands for, and frames.
use opensrthub.Base.{
  ◌≡◌, ◌≢◌, refl, Option, none, some, List, [], ◌∷◌, ◌++◌, All, length, arith, ap,
}
use opensrthub.DataQueue.{
  Ptr, null, Node, Heap, Queue, write, node, load, set_next, set_prev, free, ok,
}

-- The nodes of a queue from head to tail: the address and the message of each.
abbrev pub Cells : Type 0
Cells = List (Ptr × Ptr)

-- Not the address of any of the cells.
abbrev pub Off : Ptr → Cells → Type 0
Off p xs = All (λ c. p ≢ c.0) xs

abbrev pub first : Cells → Ptr → Ptr
first [] after = after
first ((p, _) ∷ _) after = p

abbrev pub last : Ptr → Cells → Ptr
last before [] = before
last before ((p, _) ∷ xs) = last p xs

-- The cells are linked both ways, between `before` and `after`, at distinct addresses.
abbrev pub Chain : Heap → Ptr → Cells → Ptr → Type 0
Chain h before [] after = Unit
Chain h before ((p, m) ∷ xs) after =
    (p ≢ null) × (h p ≡ some (node before (first xs after) m)) × Off p xs × Chain h p xs after

-- The queue holds the cells.
pub record IsQueue (h : Heap) (q : Queue) (xs : Cells) : Type 0 where
  pub chain : Chain h null xs null
  pub head : q.head ≡ first xs null
  pub tail : q.tail ≡ last null xs
  pub count : q.count ≡ length xs

-- Nothing but the cells' own addresses has changed.
abbrev pub SameOff : Cells → Heap → Heap → Type 0
SameOff xs h g = (a : Ptr) → Off a xs → g a ≡ h a

-- A write elsewhere leaves a chain.
pub Chain-write :
    (h : Heap) (before : Ptr) (xs : Cells) (after p : Ptr) (n : Option Node)
    → Off p xs
    → Chain h before xs after
    → Chain (write h p n) before xs after
unfolding write
Chain-write h before [] after p n o c = tt
Chain-write h before ((a, m) ∷ xs) after p n (ne, o) (real, at_a, off, c) =
    (real, ground arith, off, Chain-write h a xs after p n o c)

pub Off-append : (p : Ptr) (xs ys : Cells) → Off p xs → Off p ys → Off p (xs ++ ys)
Off-append p [] ys o o' = o'
Off-append p (x ∷ xs) ys (ne, o) o' = (ne, Off-append p xs ys o o')

pub Off-split : (a : Ptr) (xs : Cells) (p m : Ptr) → Off a (xs ++ (p, m) ∷ []) → Off a xs × (a ≢ p)
Off-split a [] p m (ne, _) = (tt, ne)
Off-split a ((b, k) ∷ xs) p m (ne, o) = let (o', rest) = Off-split a xs p m o in ((ne, o'), rest)

pub last-append : (before : Ptr) (xs : Cells) (p m : Ptr) → last before (xs ++ (p, m) ∷ []) ≡ p
last-append before [] p m = refl
last-append before ((a, k) ∷ xs) p m = last-append a xs p m

pub first-append : (xs : Cells) (p m after : Ptr) → first (xs ++ (p, m) ∷ []) after ≡ first xs p
first-append [] p m after = refl
first-append (x ∷ xs) p m after = refl

-- The last node of a nonempty chain is real and its `next` is what follows.
pub last-ne-null :
    (h : Heap) (before p m : Ptr) (xs : Cells) (after : Ptr)
    → Chain h before ((p, m) ∷ xs) after
    → last p xs ≢ null
last-ne-null h before p m [] after (real, at_p, off, c) = real
last-ne-null h before p m ((a, k) ∷ xs) after (real, at_p, off, c) = last-ne-null h p a k xs after c

-- What a node at a real address gives the commands.
module _ (h : Heap) {p : Ptr} {n : Node} (real : p ≢ null) (e : h p ≡ some n) where
  pub load-ok : load p h ≡ ok n h
  unfolding load
  load-ok = ground arith

  pub set_next-ok : (q : Ptr) → set_next p q h ≡ ok tt (write h p (some (record n { next = q })))
  unfolding set_next
  set_next-ok q = ground arith

  pub set_prev-ok : (q : Ptr) → set_prev p q h ≡ ok tt (write h p (some (record n { prev = q })))
  unfolding set_prev
  set_prev-ok q = ground arith

  pub free-ok : free p h ≡ ok tt (write h p none)
  unfolding free
  free-ok = ground arith

pub Off-last : (p a m : Ptr) (xs : Cells) → Off p ((a, m) ∷ xs) → p ≢ last a xs
Off-last p a m [] (ne, o) = ne
Off-last p a m ((b, k) ∷ xs) (ne, o) = Off-last p b k xs o

-- A fresh address is off every chain.
pub Off-fresh :
    (h : Heap) (before : Ptr) (xs : Cells) (after p : Ptr)
    → h p ≡ none
    → Chain h before xs after
    → Off p xs
Off-fresh h before [] after p e c = tt
Off-fresh h before ((a, m) ∷ xs) after p e (real, at_a, off, c) =
    (λ same. ground (arith, ap h same), Off-fresh h a xs after p e c)

-- The last node of a nonempty chain.
pub last_node :
    (h : Heap) (before p m : Ptr) (xs : Cells) (after : Ptr)
    → Chain h before ((p, m) ∷ xs) after
    → (n : Node) × (h (last p xs) ≡ some n)
last_node h before p m [] after (real, at_p, off, c) = (_, at_p)
last_node h before p m ((a, k) ∷ xs) after (real, at_p, off, c) = last_node h p a k xs after c
