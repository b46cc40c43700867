-- ===== src/Relay/Owned.antt =====
-- A pool of fixed-size buffers (source/mempool.c) and how often each address is held.
use opensrthub.Base.{
  ℕ, zero, suc, ◌+◌, ◌≤◌, ◌≡◌, ◌≢◌, refl, subst, Bool, true, false, some, arith, ltb, ◌==◌,
  if◌then◌else◌, one_if, if_intro, get_elem?,
}
use opensrthub.MemPool.{
  Ptr, null, reserved, stride, Slot, fresh_slots, Pool, Outcome, done, aborted, fault, take,
  give_back,
}
use opensrthub.MemPool.Valid.{IsValid}
use opensrthub.MemPool.Take.{Taken, got, full, take-Taken}
use opensrthub.MemPool.Return.{Returned, back, rejected, give_back-Returned}
use opensrthub.MemPool.Trace.{
  took, gave, start, then_, Agrees, Reach-Agrees, took-is-new, with_buffer, without,
}

abbrev pub holds : (Ptr → ℕ) → Ptr → Bool
holds n b = ltb 0 (n b)

-- The taken slots are those of the addresses that are held, each once.
pub record IsOwned (p : Pool) (n : Ptr → ℕ) : Type 0 where
  pub agrees : Agrees (record { pool = p; holds = holds n })
  pub once : (b : Ptr) → n b ≤ 1

pub IsOwned-same : {p : Pool} (n m : Ptr → ℕ) → ((b : Ptr) → n b ≡ m b) → IsOwned p n → IsOwned p m
IsOwned-same {p} n m same = subst (IsOwned p) (λ i b. same b i)

abbrev pub IsTake : (Ptr → ℕ) → Outcome Ptr → Type 0
IsTake n (done a q) =
    if◌then◌else◌ {A = Type 0} (a == null) (IsOwned q n) (IsOwned q (λ b. one_if (a == b) + n b))
IsTake n aborted = ⊥
IsTake n fault = ⊥

taken-IsOwned :
    (owner : ℕ) {p q : Pool} {n : Ptr → ℕ} {a : Ptr}
    → IsOwned p n
    → take null owner p ≡ done a q
    → a ≢ null
    → IsOwned q (λ b. one_if (a == b) + n b)
taken-IsOwned owner {p} {q} {n} {a} o e real =
    let free : holds n a ≡ false = took-is-new null owner o.agrees start e real in
    record {
      agrees =
          subst (λ f. Agrees (record { pool = q; holds = f })) (λ i b. same b i)
            (Reach-Agrees o.agrees (then_ start (took null owner a e real)));
      once = λ b. ground (arith, o.once b, free);
    }
  where
    same : (b : Ptr) → with_buffer (holds n) a b ≡ holds (λ c. one_if (a == c) + n c) b
    same b = ground arith

take_outcome :
    (owner : ℕ) {p : Pool} {n : Ptr → ℕ} {r : Outcome Ptr}
    → IsOwned p n
    → take null owner p ≡ r
    → Taken owner p r
    → IsTake n r
take_outcome owner {p} {n} o e (got i s f d m) =
    if_intro (λ X. X) (s.memory + reserved == null) (λ h. absurd (ground (arith, h)))
      λ h. taken-IsOwned owner o e (omega arith)
take_outcome owner o e (full all) = o

pub take-IsTake : (owner : ℕ) {p : Pool} {n : Ptr → ℕ} → IsOwned p n → IsTake n (take null owner p)
take-IsTake owner o = take_outcome owner o refl (take-Taken null owner o.agrees.valid)

-- An address that is held once more than `n` says comes back.
abbrev pub IsGiven : (Ptr → ℕ) → Outcome Bool → Type 0
IsGiven n (done ok q) = IsOwned q n
IsGiven n aborted = ⊥
IsGiven n fault = ⊥

given-IsOwned :
    {p q : Pool} {n : Ptr → ℕ} (a : Ptr)
    → IsOwned p (λ b. one_if (a == b) + n b)
    → reserved ≤ a
    → give_back a p ≡ done true q
    → IsOwned q n
given-IsOwned {p} {q} {n} a o real e = record {
  agrees =
      subst (λ f. Agrees (record { pool = q; holds = f })) (λ i b. same b i)
        (Reach-Agrees o.agrees (then_ start (gave a real e)));
  once = λ b. omega (arith, o.once b);
}
  where
    same : (b : Ptr) → without (holds (λ c. one_if (a == c) + n c)) a b ≡ holds n b
    same b = ground (arith, o.once a)

give_outcome :
    (n : Ptr → ℕ) {p : Pool} {r : Outcome Bool} (a : Ptr)
    → IsOwned p (λ b. one_if (a == b) + n b)
    → reserved ≤ a
    → give_back a p ≡ r
    → Returned a p r
    → IsGiven n r
give_outcome n a o real e (back i s f d m) = given-IsOwned a o real e
give_outcome n a o real e (rejected none_out) =
    let (i, s, f, d, m) = o.agrees.sound a (ground arith) in absurd (none_out i s f d m)

pub give_back-IsGiven :
    (n : Ptr → ℕ) {p : Pool} (a : Ptr)
    → IsOwned p (λ b. one_if (a == b) + n b)
    → IsGiven n (give_back a p)
give_back-IsGiven n {p} a o =
    let (i, s, f, d, m) = o.agrees.sound a (ground arith) in
    let real : reserved ≤ a = omega (arith, m) in
    give_outcome n a o real refl (give_back-Returned a o.agrees.valid real)

fresh_slots-free :
    (size n : ℕ) (a : Ptr) (i : ℕ) (s : Slot)
    → get_elem? (fresh_slots size n a) i ≡ some s
    → s.disponible ≡ true
unfolding fresh_slots
fresh_slots-free size zero a i s e = absurd (cc)
fresh_slots-free size (suc n) a zero s e = ground arith
fresh_slots-free size (suc n) a (suc i) s e = fresh_slots-free size n (a + stride size) i s e

-- No buffer of a new pool is held.
pub fresh-IsOwned :
    {p : Pool} → IsValid p → p.refs ≡ fresh_slots p.size p.count p.block → IsOwned p (λ b. 0)
fresh-IsOwned {p} valid fresh = record {
  agrees = record {
    valid = valid;
    sound = λ b h. absurd (ground (arith, h));
    complete = λ i s e busy.
        let free =
          fresh_slots-free p.size p.count p.block i s
            (subst (λ r. get_elem? r i ≡ some s) fresh e) in
        absurd (ground (arith, free, busy));
  };
  once = λ b. omega arith;
}
