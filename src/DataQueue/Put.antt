-- ===== src/DataQueue/Put.antt =====
-- dataqueue_put_front and dataqueue_put_back of source/dataqueue.c.
use opensrthub.Base.{
  ◌+◌, ◌≡◌, ◌≢◌, refl, sym, true, false, none, some, [], ◌∷◌, ◌++◌, length-append, arith,
}
use opensrthub.DataQueue.{
  Ptr, null, Node, Heap, Queue, write, store, ok, node, put_first, put_back, put_front,
}
use opensrthub.DataQueue.Chain.{
  Cells, Off, first, last, Chain, IsQueue, SameOff, Chain-write, Off-append, Off-split, last-append,
  last-ne-null, set_next-ok, set_prev-ok, Off-last, Off-fresh, last_node,
}

-- A put ended well: the queue holds the cells, and the heap has changed at no other address.
pub record Held (h : Heap) (xs : Cells) (q : Queue) (g : Heap) : Type 0 where
  pub holds : IsQueue g q xs
  pub frame : SameOff xs h g

module _ (h : Heap) (fresh : Ptr) (real : fresh ≢ null) (unused : h fresh ≡ none) where
  -- Linking a fresh node behind the last of a chain.
  Chain-snoc :
      (before p m : Ptr) (xs : Cells) (k : Ptr) (n : Node)
      → Chain h before ((p, m) ∷ xs) null
      → Off fresh ((p, m) ∷ xs)
      → h (last p xs) ≡ some n
      → Chain
          (write
            (write h (last p xs) (some (record n { next = fresh })))
            fresh
            (some (node (last p xs) null k)))
          before
          ((p, m) ∷ xs ++ (fresh, k) ∷ [])
          null
  unfolding write
  Chain-snoc before p m [] k n (real_p, at_p, off, c) (ne, o) e =
      (real_p, ground arith, (λ same. ne (sym same), tt), (real, ground arith, tt, tt))
  Chain-snoc before p m ((a, j) ∷ ys) k n (real_p, at_p, off, c) (ne, o) e = (
    real_p,
    ground (arith, Off-last p a j ys off),
    Off-append p ((a, j) ∷ ys) ((fresh, k) ∷ []) off (λ same. ne (sym same), tt),
    Chain-snoc p a j ys k n c o e,
  )

  put_first-Held :
      (q : Queue) (m : Ptr)
      → q.count ≡ 0
      → (r : Queue) × (g : Heap) × (put_first fresh q m h ≡ ok (true, r) g)
        × Held h ((fresh, m) ∷ []) r g
  unfolding store write
  put_first-Held q m e = (
    record { count = q.count + 1; tail = fresh; head = fresh },
    write h fresh (some (node null null m)),
    refl,
    record {
      holds = record {
        chain = (real, ground arith, tt, tt);
        head = refl;
        tail = refl;
        count = omega arith;
      };
      frame = λ a (ne, _). ground arith;
    },
  )

  -- dataqueue_put_back on a well-formed queue, given a fresh node, leaves a well-formed queue with
  -- the message behind the others, and writes to no address but those of the new queue.
  pub put_back-append :
      (q : Queue) (xs : Cells) (m : Ptr)
      → IsQueue h q xs
      → (r : Queue) × (g : Heap) × (put_back fresh q m h ≡ ok (true, r) g)
        × Held h (xs ++ (fresh, m) ∷ []) r g
  unfolding put_back write
  put_back-append q [] m is =
      let (r, g, e, held) = put_first-Held q m is.count in (r, g, ground (arith, is.tail), held)
  put_back-append q ((p, k) ∷ xs) m is =
      let (n, at_t) = last_node h null p k xs null is.chain in
      let t_real = last-ne-null h null p k xs null is.chain in
      (
        record q { count = q.count + 1; tail = fresh },
        write (write h (last p xs) (some (record n { next = fresh }))) fresh
            (some (node (last p xs) null m)),
        ground (arith, is.tail, set_next-ok h t_real at_t fresh),
        record {
          holds = record {
            chain =
                Chain-snoc null p k xs m n is.chain
                  (Off-fresh h null ((p, k) ∷ xs) null fresh unused is.chain) at_t;
            head = is.head;
            tail = sym (last-append p xs fresh m);
            count = omega (arith, is.count, length-append {0} xs ((fresh, m) ∷ []));
          };
          frame = λ a o.
              let (off_xs, ne) = Off-split a ((p, k) ∷ xs) fresh m o in
              ground (arith, Off-last a p k xs off_xs);
        },
      )

  -- dataqueue_put_front on a well-formed queue, given a fresh node, leaves a well-formed queue
  -- with the message before the others, and writes to no address but those of the new queue.
  pub put_front-cons :
      (q : Queue) (xs : Cells) (m : Ptr)
      → IsQueue h q xs
      → (r : Queue) × (g : Heap) × (put_front fresh q m h ≡ ok (true, r) g)
        × Held h ((fresh, m) ∷ xs) r g
  unfolding put_front write
  put_front-cons q [] m is =
      let (r, g, e, held) = put_first-Held q m is.count in (r, g, ground (arith, is.head), held)
  put_front-cons q ((p, k) ∷ xs) m is =
      let (p_real, at_p, off, c) = is.chain in
      let (fresh_ne, fresh_off) = Off-fresh h null ((p, k) ∷ xs) null fresh unused is.chain in
      let g : Heap = write h p (some (node fresh (first xs null) k)) in
      (
        record q { count = q.count + 1; head = fresh },
        write g fresh (some (node null p m)),
        ground (arith, is.head, set_prev-ok h p_real at_p fresh),
        record {
          holds = record {
            chain = (
              real,
              ground arith,
              (fresh_ne, fresh_off),
              (
                p_real,
                ground arith,
                off,
                Chain-write g p xs null fresh (some (node null p m)) fresh_off
                    (Chain-write h p xs null p (some (node fresh (first xs null) k)) off c),
              ),
            );
            head = refl;
            tail = is.tail;
            count = omega (arith, is.count);
          };
          frame = λ a (ne, o). ground arith;
        },
      )

-- Without memory a put changes nothing and says so.
pub put_no_memory :
    (h : Heap) (q : Queue) (m : Ptr)
    → (put_back null q m h ≡ ok (false, q) h) × (put_front null q m h ≡ ok (false, q) h)
unfolding put_back put_front
put_no_memory h q m = (refl, refl)
