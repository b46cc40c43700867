-- ===== src/Base/Tests.antt =====
-- Boolean tests on the native numbers, the conditional, and evaluation over a range.
use Prim.Native.Nat.{ℕ, zero, suc, ◌≤◌, ◌<◌, compare, Ordering}
use mathlib.Core.Path.{◌≡◌, refl}
use mathlib.Core.Logic.{◌↔◌, ◌⊎◌, inl, inr}
use mathlib.Core.Bool.{Bool, true, false, ◌&&◌}
use mathlib.Core.Option.{Option, none, some}
use native.Mathlib.Omega.{arith}

abbrev pub ltb : ℕ → ℕ → Bool
ltb a b = elim (compare a b) [ Ordering.lt ↦ true | _ ↦ false ]

abbrev pub leb : ℕ → ℕ → Bool
leb a b = elim (compare a b) [ Ordering.gt ↦ false | _ ↦ true ]

infix 50 ◌==◌
abbrev pub ◌==◌ : ℕ → ℕ → Bool
a == b = elim (compare a b) [ Ordering.eq ↦ true | _ ↦ false ]

infix 1 if◌then◌else◌
abbrev pub if◌then◌else◌ {ℓ} : {A : Type ℓ} → Bool → A → A → A
if true then x else y = x
if false then x else y = y

pub ltb→lt : (a b : ℕ) → ltb a b ≡ true → a < b
ltb→lt a b h = ground arith

pub lt→ltb : (a b : ℕ) → a < b → ltb a b ≡ true
lt→ltb a b h = ground arith

pub le→ltb : (a b : ℕ) → b ≤ a → ltb a b ≡ false
le→ltb a b h = ground arith

pub ==_iff : (a b : ℕ) → ((a == b) ≡ true) ↔ (a ≡ b)
==_iff a b = ground arith

pub Bool-cases : (b : Bool) → (b ≡ true) ⊎ (b ≡ false)
Bool-cases true = inl refl
Bool-cases false = inr refl

pub Option-cases {ℓ} : {A : Type ℓ} (o : Option A) → (o ≡ none) ⊎ ((a : A) × (o ≡ some a))
Option-cases none = inl refl
Option-cases (some a) = inr (a, refl)

-- A property of both branches, each under its test's result, is one of the conditional.
pub if_intro {ℓ κ} :
    {A : Type ℓ} (P : A → Type κ) (b : Bool) {x y : A}
    → (b ≡ true → P x)
    → (b ≡ false → P y)
    → P (if b then x else y)
if_intro P true f g = f refl
if_intro P false f g = g refl

-- A test at each number below a bound, by evaluation.
unfoldable pub all_below : (ℕ → Bool) → ℕ → Bool
all_below test zero = true
all_below test (suc bound) = all_below test bound && test bound

pub all_below_sound :
    (test : ℕ → Bool) (bound i : ℕ) → i < bound → all_below test bound ≡ true → test i ≡ true
unfolding all_below
all_below_sound test zero i inside passed = elim inside [ ]
all_below_sound test (suc bound) i inside passed = ground (arith, all_below_sound test bound i)

-- A result there is, with this property.
abbrev pub Gives {ℓ} : {A : Type ℓ} → (A → Type 0) → Option A → Type 0
Gives P none = ⊥
Gives P (some a) = P a

pub Gives-bind {ℓ κ} :
    {A : Type ℓ} {B : Type κ} (P : A → Type 0) (Q : B → Type 0) (f : A → Option B) (o : Option A)
    → Gives P o
    → ((a : A) → P a → Gives Q (f a))
    → Gives Q (elim o [ none ↦ none | some a ↦ f a ])
Gives-bind P Q f none g h = absurd g
Gives-bind P Q f (some a) g h = h a g

pub Gives-some {ℓ} :
    {A : Type ℓ} (P : A → Type 0) (o : Option A) → Gives P o → (a : A) × (o ≡ some a) × P a
Gives-some P none g = absurd g
Gives-some P (some a) g = (a, refl, g)

-- A result, if there is one, has this property.
abbrev pub May {ℓ} : {A : Type ℓ} → (A → Type 0) → Option A → Type 0
May P none = Unit
May P (some a) = P a

pub May-bind {ℓ κ} :
    {A : Type ℓ} {B : Type κ} (P : A → Type 0) (Q : B → Type 0) (f : A → Option B) (o : Option A)
    → May P o
    → ((a : A) → P a → May Q (f a))
    → May Q (elim o [ none ↦ none | some a ↦ f a ])
May-bind P Q f none g h = tt
May-bind P Q f (some a) g h = h a g

pub May-any {ℓ} : {A : Type ℓ} (o : Option A) → May (λ a. Unit) o
May-any none = tt
May-any (some a) = tt
