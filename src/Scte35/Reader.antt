-- ===== src/Scte35/Reader.antt =====
-- The parsers of source/tsdecode.c as a small monad: a command reads the payload `m` at offsets and
-- updates the cue behind `out`. A pointer is an offset into the payload, `scte_end` the offset `e`.
-- `stop` is an early `return` of the C function, `fault` a read outside the payload.
use opensrthub.Base.{
  ℕ, ◌+◌, ◌*◌, ◌/◌, ◌%◌, ◌^◌, Bool, true, false, Option, none, some, List, ltb, ◌==◌, if◌then◌else◌,
  length, get_or,
}
use opensrthub.Scte35.Cue.{Cue}

pub data Parse (A : Type 0) : Type 0 where
  next : A → Cue → Parse A
  stop : Bool → Cue → Parse A
  fault : Parse A

abbrev pub Cmd : Type 0 → Type 0
Cmd A = Cue → Parse A

abbrev pub pure : {A : Type 0} → A → Cmd A
pure = next

abbrev pub and_then : {A B : Type 0} → Parse A → (A → Cmd B) → Parse B
and_then (next a c) k = k a c
and_then (stop b c) k = stop b c
and_then fault k = fault

infixl 5 ◌>>=◌ ◌>>◌
abbrev pub ◌>>=◌ : {A B : Type 0} → Cmd A → (A → Cmd B) → Cmd B
m >>= k = λ c. and_then (m c) k

abbrev pub ◌>>◌ : {A B : Type 0} → Cmd A → Cmd B → Cmd B
m >> k = m >>= λ _. k

-- An assignment to members of `*out`.
abbrev pub update : (Cue → Cue) → Cmd (Unit {0})
update f c = next tt (f c)

-- What the C function returns: falling off the end is `return 1`.
abbrev pub returned : Parse (Unit {0}) → Option (Bool × Cue)
returned (next _ c) = some (true, c)
returned (stop b c) = some (b, c)
returned fault = none

-- `b & (1 << k)` as a test.
abbrev pub bit : ℕ → ℕ → Bool
bit b k = b / 2 ^ k % 2 == 1

module _ (m : List ℕ) where
  -- `p[0]`
  unfoldable pub byte : ℕ → Cmd ℕ
  byte p c = if ltb p (length m) then next (get_or m p 0) c else fault

  abbrev pub u16_at : ℕ → ℕ
  u16_at p = get_or m p 0 * 2 ^ 8 + get_or m (p + 1) 0

  abbrev pub u32_at : ℕ → ℕ
  u32_at p =
      get_or m p 0 * 2 ^ 24
      + get_or m (p + 1) 0 * 2 ^ 16
      + get_or m (p + 2) 0 * 2 ^ 8
      + get_or m (p + 3) 0

  -- `((p[0] << 8) | p[1])`
  unfoldable pub be16 : ℕ → Cmd ℕ
  unfolding byte
  be16 p = do a ← byte p; b ← byte (p + 1); pure (a * 2 ^ 8 + b)

  -- `((p[0] << 24) | (p[1] << 16) | (p[2] << 8) | p[3])`
  unfoldable pub be32 : ℕ → Cmd ℕ
  unfolding byte
  be32 p = do
    a ← byte p
    b ← byte (p + 1)
    c ← byte (p + 2)
    d ← byte (p + 3)
    pure (a * 2 ^ 24 + b * 2 ^ 16 + c * 2 ^ 8 + d)

  -- `(((p[0] & 0x01) << 32) | (p[1] << 24) | (p[2] << 16) | (p[3] << 8) | p[4])`
  unfoldable pub pts33 : ℕ → Cmd ℕ
  unfolding be32
  pts33 p = do a ← byte p; rest ← be32 (p + 1); pure (a % 2 * 2 ^ 32 + rest)

-- `if (p + n > end) return 0;`
unfoldable pub need : ℕ → ℕ → ℕ → Cmd (Unit {0})
need e p n c = if ltb e (p + n) then stop false c else next tt c

-- A cancellation carries nothing past the event id: `return 1`.
abbrev pub unless_cancelled : (ℕ → Cmd (Unit {0})) → ℕ → Cmd (Unit {0})
unless_cancelled body p c = if c.cancel then stop true c else body p c
