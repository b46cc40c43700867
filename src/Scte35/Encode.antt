-- ===== src/Scte35/Encode.antt =====
-- The layout of a splice_info_section as SCTE-35 states it, written out independently of the
-- decoder in source/tsdecode.c: the specification that the decoder is compared with.
use opensrthub.Base.{
  ℕ, ◌+◌, ◌/◌, ◌%◌, ◌^◌, ◌<◌, Bool, true, false, Option, none, some, List, [], ◌∷◌, length,
}

abbrev pub u8_of : Bool → ℕ → ℕ
u8_of true weight = weight
u8_of false weight = 0

abbrev pub be32_bytes : ℕ → List ℕ → List ℕ
be32_bytes v rest = v / 2 ^ 24 % 256 ∷ v / 2 ^ 16 % 256 ∷ v / 2 ^ 8 % 256 ∷ v % 256 ∷ rest

-- A 33-bit time behind seven bits that share its first byte.
abbrev pub time_bytes : ℕ → ℕ → List ℕ → List ℕ
time_bytes flags t rest = (flags + t / 2 ^ 32 % 2) ∷ be32_bytes t rest

-- A splice_insert() of a whole program: `time` is none for an immediate splice, and a break
-- duration is its auto_return flag and its length.
pub record SpliceInsert : Type 0 where
  pub event_id : ℕ
  pub out_of_network : Bool
  pub time : Option ℕ
  pub duration : Option (Bool × ℕ)
  pub program : ℕ
  pub avail_num : ℕ
  pub avails_expected : ℕ

abbrev pub splice : ℕ → Bool → Option ℕ → Option (Bool × ℕ) → ℕ → ℕ → ℕ → SpliceInsert
splice id out t d program avail expected = record {
  event_id = id;
  out_of_network = out;
  time = t;
  duration = d;
  program = program;
  avail_num = avail;
  avails_expected = expected;
}

abbrev pub time_part : Option ℕ → List ℕ → List ℕ
time_part none rest = rest
time_part (some t) rest = time_bytes 0xfe t rest

abbrev pub duration_part : Option (Bool × ℕ) → List ℕ → List ℕ
duration_part none rest = rest
duration_part (some (auto, d)) rest = time_bytes (u8_of auto 0x80 + 0x7e) d rest

abbrev pub has {ℓ} : {A : Type ℓ} → Option A → Bool
has none = false
has (some _) = true

abbrev pub hasnt {ℓ} : {A : Type ℓ} → Option A → Bool
hasnt none = true
hasnt (some _) = false

-- out_of_network, program_splice_flag (set), duration_flag, splice_immediate_flag, four ones.
abbrev pub flags_byte : SpliceInsert → ℕ
flags_byte s =
    u8_of s.out_of_network 0x80
    + 0x40
    + u8_of (has s.duration) 0x20
    + u8_of (hasnt s.time) 0x10
    + 0x0f

unfoldable pub insert_bytes : SpliceInsert → List ℕ → List ℕ
insert_bytes s rest = be32_bytes s.event_id (
    0x7f
    ∷ flags_byte s
    ∷ time_part s.time (
        duration_part s.duration
          (s.program / 2 ^ 8 % 256 ∷ s.program % 256 ∷ s.avail_num ∷ s.avails_expected ∷ rest)))

-- The pointer field, then the header of a section of `len` bytes after its length field.
unfoldable pub section_bytes : ℕ → ℕ → ℕ → ℕ → List ℕ → List ℕ
section_bytes len adjustment command_length command_type body =
    0
    ∷ 0xfc
    ∷ (0x30 + len / 2 ^ 8)
    ∷ len % 256
    ∷ 0
    ∷ time_bytes 0 adjustment
        (0xff ∷ 0xff ∷ (0xf0 + command_length / 2 ^ 8) ∷ command_length % 256 ∷ command_type ∷ body)

abbrev pub insert_length : SpliceInsert → ℕ
insert_length s = length (insert_bytes s [])

-- The values fit their fields.
pub record Fits (s : SpliceInsert) : Type 0 where
  pub id_fits : s.event_id < 2 ^ 32
  pub program_fits : s.program < 2 ^ 16

abbrev pub TimeFits : Option ℕ → Type 0
TimeFits none = Unit
TimeFits (some t) = t < 2 ^ 33

abbrev pub DurationFits : Option (Bool × ℕ) → Type 0
DurationFits none = Unit
DurationFits (some (_, d)) = d < 2 ^ 33
