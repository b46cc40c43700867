-- ===== src/DataQueue/Destroy.antt =====
-- dataqueue_destroy of source/dataqueue.c.
use opensrthub.Base.{◌≡◌, refl, ◌∙◌, true, none, [], ◌∷◌, All, length}
use opensrthub.DataQueue.{Ptr, null, Heap, Queue, write, ok, destroy_loop, destroy}
use opensrthub.DataQueue.Take.{==-ne, write_self, write_ne}
use opensrthub.DataQueue.Chain.{
  Cells, first, Chain, IsQueue, SameOff, Chain-write, load-ok, free-ok,
}

-- The walk has freed every cell and touched nothing else.
pub record Gone (h : Heap) (xs : Cells) (g : Heap) : Type 0 where
  pub freed : All (λ c. g c.0 ≡ none) xs
  pub same : SameOff xs h g

destroy_loop-Gone :
    (h : Heap) (before : Ptr) (xs : Cells)
    → Chain h before xs null
    → (g : Heap) × (destroy_loop (length xs) (first xs null) h ≡ ok true g) × Gone h xs g
unfolding destroy_loop
destroy_loop-Gone h before [] c = (h, refl, record { freed = tt; same = λ a o. refl })
destroy_loop-Gone h before ((p, m) ∷ xs) (real, at_p, off, c) =
    let h' : Heap = write h p none in
    let (g, run, gone) = destroy_loop-Gone h' p xs (Chain-write h p xs null p none off c) in
    (
      g,
      rw (==-ne real, load-ok h real at_p, free-ok h real at_p, run),
      record {
        freed = (gone.same p off ∙ write_self h p none, gone.freed);
        same = λ a (ne, o). gone.same a o ∙ write_ne h p a none ne;
      },
    )

-- dataqueue_destroy of a well-formed queue ends within as many rounds as the queue counts
-- messages, frees every node of the queue, and touches no other address.
pub destroy-Gone :
    (h : Heap) (q : Queue) (xs : Cells)
    → IsQueue h q xs
    → (g : Heap) × (destroy q h ≡ ok true g) × Gone h xs g
unfolding destroy
destroy-Gone h q xs is =
    let (g, run, gone) = destroy_loop-Gone h null xs is.chain in
    (g, rw (is.count, is.head) run, gone)
