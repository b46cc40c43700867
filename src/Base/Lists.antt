-- ===== src/Base/Lists.antt =====
-- Lists measured and indexed by native numbers, under the library's names.
use Prim.Native.Nat.{ℕ, zero, suc, ◌+◌, ◌-◌, ◌≤◌, ◌<◌}
use mathlib.Core.Path.{◌≡◌, refl, ap, ◌∙◌}
use mathlib.Core.Logic.{◌≢◌}
use mathlib.Core.List.{List, [], ◌∷◌, ◌++◌}
use mathlib.Core.Option.{Option, none, some}
use native.Mathlib.Omega.{arith}

module _ {ℓ} {A : Type ℓ} where
  abbrev pub length : List A → ℕ
  length [] = 0
  length (x ∷ xs) = suc (length xs)

  abbrev pub get_elem? : List A → ℕ → Option A
  get_elem? [] i = none
  get_elem? (x ∷ xs) zero = some x
  get_elem? (x ∷ xs) (suc i) = get_elem? xs i

  abbrev pub get_or : List A → ℕ → A → A
  get_or [] i d = d
  get_or (x ∷ xs) zero d = x
  get_or (x ∷ xs) (suc i) d = get_or xs i d

  -- A write out of bounds changes nothing.
  abbrev pub set : List A → ℕ → A → List A
  set [] i v = []
  set (x ∷ xs) zero v = v ∷ xs
  set (x ∷ xs) (suc i) v = x ∷ set xs i v

  abbrev pub take : ℕ → List A → List A
  take zero xs = []
  take (suc n) [] = []
  take (suc n) (x ∷ xs) = x ∷ take n xs

  abbrev pub drop : ℕ → List A → List A
  drop zero xs = xs
  drop (suc n) [] = []
  drop (suc n) (x ∷ xs) = drop n xs

  abbrev pub replicate : ℕ → A → List A
  replicate zero a = []
  replicate (suc n) a = a ∷ replicate n a

  abbrev pub All {κ} : (A → Type κ) → List A → Type κ
  All P [] = Unit
  All P (x ∷ xs) = P x × All P xs

module _ {ℓ} {A : Type ℓ} where
  pub length-append : (xs ys : List A) → length (xs ++ ys) ≡ length xs + length ys
  length-append [] ys = omega arith
  length-append (x ∷ xs) ys = omega (arith, length-append xs ys)

  pub length-set : (xs : List A) (i : ℕ) (v : A) → length (set xs i v) ≡ length xs
  length-set [] i v = refl
  length-set (x ∷ xs) zero v = refl
  length-set (x ∷ xs) (suc i) v = ap suc (length-set xs i v)

  pub length-replicate : (n : ℕ) (a : A) → length (replicate n a) ≡ n
  length-replicate zero a = refl
  length-replicate (suc n) a = ap suc (length-replicate n a)

  pub length-take : (n : ℕ) (xs : List A) → n ≤ length xs → length (take n xs) ≡ n
  length-take zero xs h = refl
  length-take (suc n) [] h = absurd (omega arith)
  length-take (suc n) (x ∷ xs) h = ap suc (length-take n xs (omega arith))

  pub length-drop : (n : ℕ) (xs : List A) → length (drop n xs) ≡ length xs - n
  length-drop zero xs = omega arith
  length-drop (suc n) [] = omega arith
  length-drop (suc n) (x ∷ xs) = omega (arith, length-drop n xs)

  pub get_elem?-set_self :
      (xs : List A) (i : ℕ) (v : A) → i < length xs → get_elem? (set xs i v) i ≡ some v
  get_elem?-set_self [] i v h = elim h [ ]
  get_elem?-set_self (x ∷ xs) zero v h = refl
  get_elem?-set_self (x ∷ xs) (suc i) v h = get_elem?-set_self xs i v (omega arith)

  pub get_elem?-set_ne :
      (xs : List A) (i j : ℕ) (v : A) → i ≢ j → get_elem? (set xs i v) j ≡ get_elem? xs j
  get_elem?-set_ne [] i j v h = refl
  get_elem?-set_ne (x ∷ xs) zero zero v h = absurd (h refl)
  get_elem?-set_ne (x ∷ xs) zero (suc j) v h = refl
  get_elem?-set_ne (x ∷ xs) (suc i) zero v h = refl
  get_elem?-set_ne (x ∷ xs) (suc i) (suc j) v h = get_elem?-set_ne xs i j v (λ e. h (ap suc e))

  pub get_elem?-eq-get_or :
      (xs : List A) (i : ℕ) (d : A) → i < length xs → get_elem? xs i ≡ some (get_or xs i d)
  get_elem?-eq-get_or [] i d h = absurd (omega arith)
  get_elem?-eq-get_or (x ∷ xs) zero d h = refl
  get_elem?-eq-get_or (x ∷ xs) (suc i) d h = get_elem?-eq-get_or xs i d (omega arith)

  pub get_elem?-some : (xs : List A) (i : ℕ) → i < length xs → (a : A) × (get_elem? xs i ≡ some a)
  get_elem?-some [] i h = elim h [ ]
  get_elem?-some (x ∷ xs) zero h = (x, refl)
  get_elem?-some (x ∷ xs) (suc i) h = get_elem?-some xs i (omega arith)

  pub get_elem?_lt : (xs : List A) (i : ℕ) {a : A} → get_elem? xs i ≡ some a → i < length xs
  get_elem?_lt [] i e = absurd (cc)
  get_elem?_lt (x ∷ xs) zero e = omega arith
  get_elem?_lt (x ∷ xs) (suc i) e = omega (arith, get_elem?_lt xs i e)

  pub get_or-append_right :
      (xs ys : List A) (i : ℕ) (d : A) → get_or (xs ++ ys) (length xs + i) d ≡ get_or ys i d
  get_or-append_right [] ys i d = ap (λ k. get_or ys k d) (omega arith)
  get_or-append_right (x ∷ xs) ys i d =
      ap (λ k. get_or (x ∷ (xs ++ ys)) k d) {x = suc (length xs) + i} {y = suc (length xs + i)}
        (omega arith)
      ∙ get_or-append_right xs ys i d

  pub take-set :
      (xs : List A) (n : ℕ) (v : A)
      → n < length xs
      → take (suc n) (set xs n v) ≡ take n xs ++ (v ∷ [])
  take-set [] n v h = elim h [ ]
  take-set (x ∷ xs) zero v h = refl
  take-set (x ∷ xs) (suc n) v h = ap (λ ys. x ∷ ys) (take-set xs n v (omega arith))

  pub take-get_or :
      (xs : List A) (n : ℕ) (d : A)
      → n < length xs
      → take (suc n) xs ≡ take n xs ++ (get_or xs n d ∷ [])
  take-get_or [] n d h = elim h [ ]
  take-get_or (x ∷ xs) zero d h = refl
  take-get_or (x ∷ xs) (suc n) d h = ap (λ ys. x ∷ ys) (take-get_or xs n d (omega arith))

  pub get_or-set_self :
      (xs : List A) (n : ℕ) (v d : A) → n < length xs → get_or (set xs n v) n d ≡ v
  get_or-set_self [] n v d h = elim h [ ]
  get_or-set_self (x ∷ xs) zero v d h = refl
  get_or-set_self (x ∷ xs) (suc n) v d h = get_or-set_self xs n v d (omega arith)

module _ {ℓ κ} {A : Type ℓ} (P : A → Type κ) where
  pub All-snoc : (xs : List A) (v : A) → All P xs → P v → All P (xs ++ (v ∷ []))
  All-snoc [] v h p = (p, tt)
  All-snoc (x ∷ xs) v (q, h) p = (q, All-snoc xs v h p)

  pub All-front : (xs : List A) (v : A) → All P (xs ++ (v ∷ [])) → All P xs
  All-front [] v h = tt
  All-front (x ∷ xs) v (q, h) = (q, All-front xs v h)

  pub All-last : (xs : List A) (v : A) → All P (xs ++ (v ∷ [])) → P v
  All-last [] v (p, h) = p
  All-last (x ∷ xs) v (q, h) = All-last xs v h

module _ {ℓ κ} {A : Type ℓ} (P : A → Type κ) where
  pub All_map : (Q : A → Type κ) (xs : List A) → ((x : A) → P x → Q x) → All P xs → All Q xs
  All_map Q [] f all = tt
  All_map Q (x ∷ xs) f (p, all) = (f x p, All_map Q xs f all)

  pub All_set : (xs : List A) (i : ℕ) (v : A) → P v → All P xs → All P (set xs i v)
  All_set [] i v p all = tt
  All_set (x ∷ xs) zero v p (q, all) = (p, all)
  All_set (x ∷ xs) (suc i) v p (q, all) = (q, All_set xs i v p all)

  pub All_replicate : (n : ℕ) (a : A) → P a → All P (replicate n a)
  All_replicate zero a p = tt
  All_replicate (suc n) a p = (p, All_replicate n a p)
