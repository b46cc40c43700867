-- ===== src/DataQueue/Take.antt =====
-- dataqueue_take_back and dataqueue_take_front of source/dataqueue.c.
use opensrthub.Base.{
  ◌-◌, ◌≡◌, ◌≢◌, refl, sym, ◌∙◌, false, Option, none, some, [], ◌∷◌, ◌++◌, length-append, arith,
  ◌==◌,
}
use opensrthub.DataQueue.{Ptr, null, Node, Heap, Queue, write, ok, node, take_back, take_front}
use opensrthub.DataQueue.Chain.{
  Cells, Off-split, first, last, Chain, IsQueue, SameOff, Chain-write, last-append, load-ok,
  set_next-ok, set_prev-ok, free-ok, Off-last,
}

-- The node behind a chain's other cells.
behind :
    (h : Heap) (before : Ptr) (xs : Cells) (p m : Ptr)
    → Chain h before (xs ++ (p, m) ∷ []) null
    → (p ≢ null) × (h p ≡ some (node (last before xs) null m))
behind h before [] p m (real, at_p, _, _) = (real, at_p)
behind h before ((a, k) ∷ xs) p m (real, at_a, off, c) = behind h a xs p m c

last_inner :
    (h : Heap) (before a k : Ptr) (ys : Cells) (p m : Ptr)
    → Chain h before ((a, k) ∷ ys ++ (p, m) ∷ []) null
    → (n : Node) × (h (last a ys) ≡ some n)
last_inner h before a k [] p m (real, at_a, off, c) = (_, at_a)
last_inner h before a k ((b, j) ∷ zs) p m (real, at_a, off, c) = last_inner h a b j zs p m c

inner-ne-null :
    (h : Heap) (before a k : Ptr) (ys : Cells) (p m : Ptr)
    → Chain h before ((a, k) ∷ ys ++ (p, m) ∷ []) null
    → last a ys ≢ null
inner-ne-null h before a k [] p m (real, at_a, off, c) = real
inner-ne-null h before a k ((b, j) ∷ zs) p m (real, at_a, off, c) = inner-ne-null h a b j zs p m c

inner-ne :
    (h : Heap) (before a k : Ptr) (ys : Cells) (p m : Ptr)
    → Chain h before ((a, k) ∷ ys ++ (p, m) ∷ []) null
    → p ≢ last a ys
inner-ne h before a k [] p m (real, at_a, (ne, _), c) = λ same. ne (sym same)
inner-ne h before a k ((b, j) ∷ zs) p m (real, at_a, off, c) = inner-ne h a b j zs p m c

pub ==-ne : {p : Ptr} → p ≢ null → (p == null) ≡ false
==-ne ne = ground arith

module _ (h g : Heap) (p m : Ptr) where
  -- A heap that has changed at the last node and at the one before it only.
  Chain-unsnoc :
      (before a k : Ptr) (ys : Cells) (n : Node)
      → Chain h before ((a, k) ∷ ys ++ (p, m) ∷ []) null
      → h (last a ys) ≡ some n
      → ((c : Ptr) → c ≢ p → c ≢ last a ys → g c ≡ h c)
      → g (last a ys) ≡ some (record n { next = null })
      → Chain g before ((a, k) ∷ ys) null
  Chain-unsnoc before a k [] n (real, at_a, off, c) e same now = (real, ground arith, tt, tt)
  Chain-unsnoc before a k ((b, j) ∷ zs) n (real, at_a, off, c) e same now =
      let (off_ys, ne) = Off-split a ((b, j) ∷ zs) p m off in
      (
        real,
        ground (arith, same a ne (Off-last a b j zs off_ys)),
        off_ys,
        Chain-unsnoc a b j zs n c e same now,
      )

-- A take ended well: the message, and what the queue then holds; the node is freed, and the heap has
-- changed at the queue's own addresses only.
pub record Gave (h : Heap) (xs : Cells) (p : Ptr) (ys : Cells) (q : Queue) (g : Heap) : Type 0 where
  pub holds : IsQueue g q ys
  pub freed : g p ≡ none
  pub frame : SameOff xs h g

pub write_self : (h : Heap) (p : Ptr) (n : Option Node) → write h p n p ≡ n
unfolding write
write_self h p n = ground arith

pub write_ne : (h : Heap) (p a : Ptr) (n : Option Node) → a ≢ p → write h p n a ≡ h a
unfolding write
write_ne h p a n ne = ground arith

-- The heap after a node was cleared and freed, and its neighbour `b` became an end.
abbrev cleared : Heap → Ptr → Node → Heap
cleared h p n = write (write h p (some n)) p none

module _ (h : Heap) (q : Queue) (p m : Ptr) (real : p ≢ null) where
  module _ (at_end : q.tail ≡ p) where
    take_back-only :
        h p ≡ some (node null null m)
        → take_back q h
          ≡ ok
              (some m, record { count = q.count - 1; tail = null; head = null })
              (cleared h p (node null null m))
    unfolding take_back
    take_back-only e = rw (
      at_end,
      ==-ne real,
      load-ok h real e,
      set_prev-ok h real e null,
      free-ok (write h p (some (node null null m))) real (write_self h p (some (node null null m))),
    )

    take_back-more :
        (b : Ptr) (n : Node)
        → b ≢ null
        → p ≢ b
        → h p ≡ some (node b null m)
        → h b ≡ some n
        → take_back q h
          ≡ ok
              (some m, record { count = q.count - 1; tail = b; head = q.head })
              (cleared (write h b (some (record n { next = null }))) p (node null null m))
    unfolding take_back
    take_back-more b n b_real ne e e' =
        let g : Heap = write h b (some (record n { next = null })) in
        let at_p : g p ≡ some (node b null m) = write_ne h b p _ ne ∙ e in
        rw (
          at_end,
          ==-ne real,
          load-ok h real e,
          ==-ne b_real,
          set_next-ok h b_real e' null,
          set_prev-ok g real at_p null,
          free-ok (write g p (some (node null null m))) real
              (write_self g p (some (node null null m))),
        )

module _ (h : Heap) (q : Queue) where
  -- dataqueue_take_back on a well-formed queue returns the last message, leaves a well-formed
  -- queue of the others, frees the node of the message, and writes to no address but those of the
  -- queue.
  pub take_back-append :
      (xs : Cells) (p m : Ptr)
      → IsQueue h q (xs ++ (p, m) ∷ [])
      → (r : Queue) × (g : Heap) × (take_back q h ≡ ok (some m, r) g)
        × Gave h (xs ++ (p, m) ∷ []) p xs r g
  unfolding write
  take_back-append [] p m is =
      let (real, at_p, _, _) = is.chain in
      (
        record { count = q.count - 1; tail = null; head = null },
        cleared h p (node null null m),
        take_back-only h q p m real is.tail at_p,
        record {
          holds = record { chain = tt; head = refl; tail = refl; count = omega (arith, is.count) };
          freed = ground arith;
          frame = λ a (ne, o). ground arith;
        },
      )
  take_back-append ((a, k) ∷ ys) p m is =
      let (real, at_p) = behind h null ((a, k) ∷ ys) p m is.chain in
      let (n, at_b) = last_inner h null a k ys p m is.chain in
      let b_real = inner-ne-null h null a k ys p m is.chain in
      let apart = inner-ne h null a k ys p m is.chain in
      (
        record { count = q.count - 1; tail = last a ys; head = q.head },
        cleared (write h (last a ys) (some (record n { next = null }))) p (node null null m),
        take_back-more h q p m real (is.tail ∙ last-append a ys p m) (last a ys) n b_real apart at_p
            at_b,
        record {
          holds = record {
            chain =
                Chain-unsnoc h _ p m null a k ys n is.chain at_b (λ c ne ne'. ground arith)
                  (ground arith);
            head = is.head;
            tail = refl;
            count = omega (arith, is.count, length-append {0} ys ((p, m) ∷ []));
          };
          freed = ground arith;
          frame = λ c o.
              let (off, ne) = Off-split c ((a, k) ∷ ys) p m o in
              ground (arith, Off-last c a k ys off);
        },
      )

-- Both takes of an empty queue return NULL and change nothing.
pub take_empty :
    (h : Heap) (q : Queue)
    → IsQueue h q []
    → (take_back q h ≡ ok (none, q) h) × (take_front q h ≡ ok (none, q) h)
unfolding take_back take_front
take_empty h q is = (ground (arith, is.tail), ground (arith, is.head))

module _ (h : Heap) (q : Queue) (p m : Ptr) (real : p ≢ null) (at_start : q.head ≡ p) where
  take_front-only :
      h p ≡ some (node null null m)
      → take_front q h
        ≡ ok
            (some m, record { count = q.count - 1; tail = null; head = null })
            (cleared h p (node null null m))
  unfolding take_front
  take_front-only e = rw (
    at_start,
    ==-ne real,
    load-ok h real e,
    set_next-ok h real e null,
    free-ok (write h p (some (node null null m))) real (write_self h p (some (node null null m))),
  )

  take_front-more :
      (b : Ptr) (n : Node)
      → b ≢ null
      → p ≢ b
      → h p ≡ some (node null b m)
      → h b ≡ some n
      → take_front q h
        ≡ ok
            (some m, record { count = q.count - 1; tail = q.tail; head = b })
            (cleared (write h b (some (record n { prev = null }))) p (node null null m))
  unfolding take_front
  take_front-more b n b_real ne e e' =
      let g : Heap = write h b (some (record n { prev = null })) in
      let at_p : g p ≡ some (node null b m) = write_ne h b p _ ne ∙ e in
      rw (
        at_start,
        ==-ne real,
        load-ok h real e,
        ==-ne b_real,
        set_prev-ok h b_real e' null,
        set_next-ok g real at_p null,
        free-ok (write g p (some (node null null m))) real
            (write_self g p (some (node null null m))),
      )

module _ (h : Heap) (q : Queue) where
  -- dataqueue_take_front on a well-formed queue returns the first message, leaves a well-formed
  -- queue of the others, frees the node of the message, and writes to no address but those of the
  -- queue.
  pub take_front-cons :
      (p m : Ptr) (xs : Cells)
      → IsQueue h q ((p, m) ∷ xs)
      → (r : Queue) × (g : Heap) × (take_front q h ≡ ok (some m, r) g)
        × Gave h ((p, m) ∷ xs) p xs r g
  unfolding write
  take_front-cons p m [] is =
      let (real, at_p, _, _) = is.chain in
      (
        record { count = q.count - 1; tail = null; head = null },
        cleared h p (node null null m),
        take_front-only h q p m real is.head at_p,
        record {
          holds = record { chain = tt; head = refl; tail = refl; count = omega (arith, is.count) };
          freed = ground arith;
          frame = λ a (ne, o). ground arith;
        },
      )
  take_front-cons p m ((b, k) ∷ xs) is =
      let (real, at_p, (p_ne, p_off), (b_real, at_b, b_off, c)) = is.chain in
      let n : Node = node null (first xs null) k in
      let g : Heap = write h b (some n) in
      let g' : Heap = write g p (some (node null null m)) in
      (
        record { count = q.count - 1; tail = q.tail; head = b },
        write g' p none,
        take_front-more h q p m real is.head b (node p (first xs null) k) b_real p_ne at_p at_b,
        record {
          holds = record {
            chain = (
              b_real,
              ground arith,
              b_off,
              Chain-write g' b xs null p none p_off (
                  Chain-write g b xs null p (some (node null null m)) p_off
                    (Chain-write h b xs null b (some n) b_off c)),
            );
            head = refl;
            tail = is.tail;
            count = omega (arith, is.count);
          };
          freed = ground arith;
          frame = λ a (ne, o). ground arith;
        },
      )
