-- ===== src/MemPool/Trace.antt =====
-- A client of a pool of fixed-size buffers (source/mempool.c): the calls that it makes, in any
-- order and from any thread, since the lock makes each call one step.
use native.Mathlib.Decide.{ℕ_discrete}
use opensrthub.Base.{
  ℕ, ◌≤◌, ◌<◌, ◌≡◌, ◌≢◌, refl, Bool, true, false, inl, inr, some, List, arith, get_elem?, set,
  Bool-cases, get_elem?_lt, get_elem?-set_self, get_elem?-set_ne, ◌==◌, if◌then◌else◌,
}
use opensrthub.MemPool.{Ptr, null, Slot, Pool, done, reserved, take, give_back, poke}
use opensrthub.MemPool.Valid.{IsValid, block_at, buffer, buffer-injective}
use opensrthub.MemPool.Take.{taken, take-Taken, taken-IsValid, took_slot, missed_pool}
use opensrthub.MemPool.Return.{freed, give_back-Returned, freed-IsValid, gave_slot, refused_pool}

-- The pool, and which addresses the client holds as buffers.
pub record Client : Type 0 where
  pub pool : Pool
  pub holds : Ptr → Bool

abbrev pub with_buffer : (Ptr → Bool) → Ptr → Ptr → Bool
with_buffer holds a b = if b == a then true else holds b

abbrev pub without : (Ptr → Bool) → Ptr → Ptr → Bool
without holds a b = if b == a then false else holds b

-- What the client may do: take, give back any address at all, and write anywhere but to a tag.
pub data Step : Client → Client → Type 0 where
  took :
      {c : Client} {q : Pool} (fresh : Ptr) (owner : ℕ) (a : Ptr)
      → take fresh owner c.pool ≡ done a q
      → a ≢ null
      → Step c (record { pool = q; holds = with_buffer c.holds a })
  missed :
      {c : Client} {q : Pool} (fresh : Ptr) (owner : ℕ)
      → take fresh owner c.pool ≡ done null q
      → Step c (record c { pool = q })
  gave :
      {c : Client} {q : Pool} (a : Ptr)
      → reserved ≤ a
      → give_back a c.pool ≡ done true q
      → Step c (record { pool = q; holds = without c.holds a })
  refused :
      {c : Client} {q : Pool} (a : Ptr)
      → reserved ≤ a
      → give_back a c.pool ≡ done false q
      → Step c (record c { pool = q })
  wrote :
      {c : Client} (a : Ptr) (value : ℕ)
      → ((i : ℕ) → i < c.pool.count → a ≢ block_at c.pool i)
      → Step c (record c { pool = record c.pool { words = poke c.pool.words a value } })

pub data Reach (c : Client) : Client → Type 0 where
  start : Reach c c
  then_ : {d e : Client} → Reach c d → Step d e → Reach c e

-- The client holds exactly the buffers of the slots that are taken.
pub record Agrees (c : Client) : Type 0 where
  pub valid : IsValid c.pool
  pub sound :
      (b : Ptr)
      → c.holds b ≡ true
      → (i : ℕ) × (s : Slot) × (get_elem? c.pool.refs i ≡ some s)
        × (s.disponible ≡ false)
        × (b ≡ buffer s)
  pub complete :
      (i : ℕ) (s : Slot)
      → get_elem? c.pool.refs i ≡ some s
      → s.disponible ≡ false
      → c.holds (buffer s) ≡ true

-- A set slot, seen at any index.
get_elem?-set :
    (refs : List Slot) (i j : ℕ) (s t : Slot)
    → get_elem? refs i ≡ some s
    → get_elem? (set refs i t) j ≡ (if j == i then some t else get_elem? refs j)
get_elem?-set refs i j s t e = elim (ℕ_discrete i j) [
  | yes h ↦ ground (arith, get_elem?-set_self refs i t (get_elem?_lt refs i e))
  | no h ↦ ground (arith, get_elem?-set_ne refs i j t h)
]

module _ {c : Client} (g : Agrees c) (i : ℕ) (s : Slot) (e : get_elem? c.pool.refs i ≡ some s) where
  took-Agrees :
      (owner : ℕ)
      → s.disponible ≡ true
      → Agrees (record { pool = taken c.pool i s owner; holds = with_buffer c.holds (buffer s) })
  took-Agrees owner free = record {
    valid = taken-IsValid owner g.valid i s e;
    sound = λ b h. elim (ℕ_discrete b (buffer s)) [
      | yes m ↦
          (i, new, get_elem?-set_self c.pool.refs i new (get_elem?_lt c.pool.refs i e), refl, m)
      | no m ↦
          let (j, t, f, d, n) = g.sound b (ground arith) in
          (j, t, ground (arith, get_elem?-set c.pool.refs i j s new e), d, n)
    ];
    complete = λ j t f d. elim (ℕ_discrete i j) [
      | yes m ↦ ground (arith, get_elem?-set c.pool.refs i j s new e)
      | no m ↦ ground (arith, get_elem?-set c.pool.refs i j s new e, g.complete j t)
    ];
  }
    where
      new : Slot
      new = record s { disponible = false; owner = owner }

  gave-Agrees :
      s.disponible ≡ false
      → Agrees (record { pool = freed c.pool i s; holds = without c.holds (buffer s) })
  gave-Agrees busy = record {
    valid = freed-IsValid g.valid i s e;
    sound = λ b h.
        let (j, t, f, d, n) = g.sound b (ground arith) in
        (j, t, ground (arith, get_elem?-set c.pool.refs i j s new e), d, n);
    complete = λ j t f d. ground (
      arith,
      get_elem?-set c.pool.refs i j s new e,
      g.complete j t,
      buffer-injective g.valid i j s t e,
    );
  }
    where
      new : Slot
      new = record s { disponible = true }

-- A write that spares the tags keeps the agreement.
wrote-Agrees :
    {c : Client} (a : Ptr) (value : ℕ)
    → ((i : ℕ) → i < c.pool.count → a ≢ block_at c.pool i)
    → Agrees c
    → Agrees (record c { pool = record c.pool { words = poke c.pool.words a value } })
wrote-Agrees {c} a value spares g = record {
  valid = record {
    nonempty = g.valid.nonempty;
    sized = g.valid.sized;
    slots = g.valid.slots;
    pos_in = g.valid.pos_in;
    laid_out = g.valid.laid_out;
    tagged = λ i h. ground (arith, g.valid.tagged i h, spares i h);
  };
  sound = g.sound;
  complete = g.complete;
}

Step-Agrees : {c d : Client} → Step c d → Agrees c → Agrees d
Step-Agrees {c} (took fresh owner a h ne) g =
    let (i, s, e, f, m, n) = took_slot (take-Taken fresh owner g.valid) h ne in
    rw (n, m) (took-Agrees g i s e owner f)
Step-Agrees {c} (missed fresh owner h) g = rw (missed_pool (take-Taken fresh owner g.valid) h) g
Step-Agrees {c} (gave a real h) g =
    let (i, s, e, d, m, n) = gave_slot (give_back-Returned a g.valid real) h in
    rw (n, m) (gave-Agrees g i s e d)
Step-Agrees {c} (refused a real h) g = rw (refused_pool (give_back-Returned a g.valid real) h) g
Step-Agrees {c} (wrote a value spares) g = wrote-Agrees a value spares g

-- Whatever a client does with a valid pool of fixed-size buffers (take, return any address from 4
-- up, write anywhere but to an index word), the pool stays valid and the client holds exactly the
-- buffers of the taken slots, if it did at the start.
pub Reach-Agrees : {c d : Client} → Agrees c → Reach c d → Agrees d
Reach-Agrees g start = g
Reach-Agrees g (then_ r st) = Step-Agrees st (Reach-Agrees g r)

-- After any run of takes, returns of any address from 4 up, and writes that spare the index words,
-- from a valid pool of fixed-size buffers whose taken slots the client holds, a buffer that
-- memory_take hands out is one that the client does not hold: no buffer goes out twice.
pub took-is-new :
    {c d : Client} (fresh : Ptr) (owner : ℕ) {a : Ptr} {q : Pool}
    → Agrees c
    → Reach c d
    → take fresh owner d.pool ≡ done a q
    → a ≢ null
    → d.holds a ≡ false
took-is-new {d} fresh owner {a} g r h ne =
    let k = Reach-Agrees g r in
    let (i, s, e, f, m, n) = took_slot (take-Taken fresh owner k.valid) h ne in
    elim (Bool-cases (d.holds a)) [
      | inr no_one ↦ no_one
      | inl held ↦
          let (j, t, e', d', m') = k.sound a held in
          let same = buffer-injective k.valid i j s t e e' (omega arith) in absurd (grind arith)
    ]
