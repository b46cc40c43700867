-- ===== src/Bits.antt =====
-- `^` of C on unsigned words: the laws of `bit_xor` at variables, from its definition by digits.
use Prim.Native.Nat.{bit_xor, digits, differ, bit_xor-bitwise}
use opensrthub.Base.{ℕ, zero, suc, ◌+◌, ◌*◌, ◌/◌, ◌%◌, ◌^◌, ◌≤◌, ◌<◌, ◌≡◌, refl, ap, arith}
use native.Mathlib.Nat.{pow-suc}

abbrev xor_digits : ℕ → ℕ → ℕ → ℕ
xor_digits n a b = digits (λ b. b) differ n a b

differ_below : (x y : ℕ) → x < 2 → y < 2 → differ x y ≡ (x + y) % 2
differ_below zero y p q = omega arith
differ_below (suc zero) zero p q = refl
differ_below (suc zero) (suc zero) p q = refl
differ_below (suc zero) (suc (suc y)) p q = absurd (omega arith)
differ_below (suc (suc x)) y p q = absurd (omega arith)

differ_lem : (a b : ℕ) → differ (a % 2) (b % 2) ≡ (a % 2 + b % 2) % 2
differ_lem a b = differ_below (a % 2) (b % 2) (omega arith) (omega arith)

-- Any fuel from the first number up gives the same digits.
xor_digits_fuel : (a b n m : ℕ) → a ≤ n → a ≤ m → xor_digits n a b ≡ xor_digits m a b
xor_digits_fuel zero b zero zero p q = refl
xor_digits_fuel zero b zero (suc m) p q = refl
xor_digits_fuel zero b (suc n) zero p q = refl
xor_digits_fuel zero b (suc n) (suc m) p q = refl
xor_digits_fuel (suc a) b zero m p q = absurd (omega arith)
xor_digits_fuel (suc a) b (suc n) zero p q = absurd (omega arith)
xor_digits_fuel (suc a) b (suc n) (suc m) p q =
    let rest = xor_digits_fuel (suc a / 2) (b / 2) n m (omega arith) (omega arith) in omega arith

pub zero-xor : (b : ℕ) → bit_xor 0 b ≡ b
zero-xor b = bit_xor-bitwise 0 b

-- The lowest digit and the rest.
pub xor_step : (a b : ℕ) → bit_xor a b ≡ bit_xor (a / 2) (b / 2) * 2 + (a % 2 + b % 2) % 2
xor_step zero b = omega (arith, zero-xor b, zero-xor (b / 2))
xor_step (suc a) b = omega (
  arith,
  bit_xor-bitwise (suc a) b,
  bit_xor-bitwise (suc a / 2) (b / 2),
  differ_lem (suc a) b,
  xor_digits_fuel (suc a / 2) (b / 2) a (suc a / 2) (omega arith) (omega arith),
)

xor_half :
    (a b : ℕ)
    → (bit_xor a b / 2 ≡ bit_xor (a / 2) (b / 2)) × (bit_xor a b % 2 ≡ (a % 2 + b % 2) % 2)
xor_half a b = omega (arith, xor_step a b)

-- The laws below go from the halves to the whole; `n` bounds the first number.
xor-zero_fuel : (n a : ℕ) → a ≤ n → bit_xor a 0 ≡ a
xor-zero_fuel zero zero h = zero-xor 0
xor-zero_fuel zero (suc a) h = absurd (omega arith)
xor-zero_fuel (suc n) zero h = zero-xor 0
xor-zero_fuel (suc n) (suc a) h =
    omega (arith, xor_step (suc a) 0, xor-zero_fuel n (suc a / 2) (omega arith))

pub xor-zero : (a : ℕ) → bit_xor a 0 ≡ a
xor-zero a = xor-zero_fuel a a (omega arith)

xor_self_fuel : (n a : ℕ) → a ≤ n → bit_xor a a ≡ 0
xor_self_fuel zero zero h = zero-xor 0
xor_self_fuel zero (suc a) h = absurd (omega arith)
xor_self_fuel (suc n) zero h = zero-xor 0
xor_self_fuel (suc n) (suc a) h =
    omega (arith, xor_step (suc a) (suc a), xor_self_fuel n (suc a / 2) (omega arith))

pub xor_self : (a : ℕ) → bit_xor a a ≡ 0
xor_self a = xor_self_fuel a a (omega arith)

xor_comm_fuel : (n a b : ℕ) → a + b ≤ n → bit_xor a b ≡ bit_xor b a
xor_comm_fuel n zero b h = omega (arith, zero-xor b, xor-zero b)
xor_comm_fuel n (suc a) zero h = omega (arith, zero-xor (suc a), xor-zero (suc a))
xor_comm_fuel zero (suc a) (suc b) h = absurd (omega arith)
xor_comm_fuel (suc n) (suc a) (suc b) h = omega (
  arith,
  xor_step (suc a) (suc b),
  xor_step (suc b) (suc a),
  xor_comm_fuel n (suc a / 2) (suc b / 2) (omega arith),
)

pub xor_comm : (a b : ℕ) → bit_xor a b ≡ bit_xor b a
xor_comm a b = xor_comm_fuel (a + b) a b (omega arith)

xor_assoc_fuel : (n a b c : ℕ) → a + b + c ≤ n → bit_xor (bit_xor a b) c ≡ bit_xor a (bit_xor b c)
xor_assoc_fuel n zero b c h = rw (zero-xor b, zero-xor (bit_xor b c))
xor_assoc_fuel n (suc a) zero c h = rw (xor-zero (suc a), zero-xor c)
xor_assoc_fuel zero (suc a) (suc b) c h = absurd (omega arith)
xor_assoc_fuel (suc n) (suc a) (suc b) c h =
    let x : ℕ = bit_xor (suc a) (suc b) in
    let y : ℕ = bit_xor (suc b) c in
    ground (
      arith,
      xor_step x c,
      xor_step (suc a) y,
      xor_half (suc a) (suc b),
      xor_half (suc b) c,
      xor_assoc_fuel n (suc a / 2) (suc b / 2) (c / 2) (omega arith),
    )

pub xor_assoc : (a b c : ℕ) → bit_xor (bit_xor a b) c ≡ bit_xor a (bit_xor b c)
xor_assoc a b c = xor_assoc_fuel (a + b + c) a b c (omega arith)

double-pow : (q k : ℕ) → q * 2 ^ suc k ≡ 2 * (q * 2 ^ k)
double-pow q k = omega (arith, ap (λ (t : ℕ). q * t) (pow-suc 2 k))

-- Two fields of `k` low bits are combined apart.
pub xor_fields :
    (k a b c d : ℕ)
    → c < 2 ^ k
    → d < 2 ^ k
    → bit_xor (a * 2 ^ k + c) (b * 2 ^ k + d) ≡ bit_xor a b * 2 ^ k + bit_xor c d
xor_fields zero a b c d h g = ground (arith, zero-xor 0)
xor_fields (suc k) a b c d h g = ground (
  arith,
  xor_step (a * 2 ^ suc k + c) (b * 2 ^ suc k + d),
  xor_step c d,
  double-pow a k,
  double-pow b k,
  double-pow (bit_xor a b) k,
  xor_fields k a b (c / 2) (d / 2) (omega (arith, pow-suc 2 k)) (omega (arith, pow-suc 2 k)),
)

-- A word of `k` bits stays one.
pub xor-lt : (k a b : ℕ) → a < 2 ^ k → b < 2 ^ k → bit_xor a b < 2 ^ k
xor-lt zero a b h g = ground (arith, zero-xor 0)
xor-lt (suc k) a b h g = omega (
  arith,
  xor_step a b,
  pow-suc 2 k,
  xor-lt k (a / 2) (b / 2) (omega (arith, pow-suc 2 k)) (omega (arith, pow-suc 2 k)),
)

pub xor_double : (a b : ℕ) → bit_xor (a * 2) (b * 2) ≡ bit_xor a b * 2
xor_double a b = ground (arith, xor_step (a * 2) (b * 2))

pub xor_interchange :
    (a b c d : ℕ) → bit_xor (bit_xor a b) (bit_xor c d) ≡ bit_xor (bit_xor a c) (bit_xor b d)
xor_interchange a b c d = cc (
  xor_assoc a b (bit_xor c d),
  xor_assoc b c d,
  xor_comm b c,
  xor_assoc c b d,
  xor_assoc a c (bit_xor b d),
)
