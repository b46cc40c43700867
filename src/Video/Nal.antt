-- ===== src/Video/Nal.antt =====
-- The H.264 probes of source/srthub.c: unescape_rbsp, br_u1, br_ue, h264_slice_type and
-- h264_has_recovery_point. An array is the list of the bytes written to it.
use opensrthub.Base.{
  ℤ, as_int, ℕ, zero, suc, ◌+◌, ◌-◌, ◌*◌, ◌/◌, ◌%◌, ◌^◌, Bool, true, false, ◌&&◌, Option, none,
  some, List, [], ◌∷◌, ltb, leb, ◌==◌, if◌then◌else◌, length, get_or, drop,
}

abbrev pub zeros_after : ℕ → ℕ → ℕ
zeros_after b run = if b == 0 then suc run else 0

-- The loop on `zeros` (here `run`) and the room left in the output.
unfoldable pub unescape : List ℕ → ℕ → ℕ → List ℕ
unescape [] run room = []
unescape (b ∷ bs) run zero = []
unescape (b ∷ bs) run (suc room) =
    let skipped = unescape bs 0 (suc room) in
    let kept = unescape bs (zeros_after b run) room in
    if leb 2 run && b == 3 then skipped else b ∷ kept

unfoldable pub unescape_rbsp : List ℕ → ℕ → List ℕ
unfolding unescape
unescape_rbsp p max_out = unescape p 0 max_out

-- Bit `i`, the highest bit of a byte first.
abbrev pub bit_at : List ℕ → ℕ → ℕ
bit_at d i = get_or d (i / 8) 0 / 2 ^ (7 - i % 8) % 2

-- The bit and the position behind it; 0 at the end.
unfoldable pub br_u1 : List ℕ → ℕ → ℕ → ℕ × ℕ
br_u1 d nbits pos = if leb nbits pos then (0, pos) else (bit_at d pos, suc pos)

-- `while (b->pos < b->nbits && !br_u1(b)) z++`; the bit that ends it is read.
unfoldable pub count_zeros : List ℕ → ℕ → ℕ → ℕ → ℕ → Option (ℕ × ℕ)
unfolding br_u1
count_zeros d nbits zero pos z = none
count_zeros d nbits (suc k) pos z =
    let rest = count_zeros d nbits k (br_u1 d nbits pos).1 (suc z) in
    if leb nbits pos
    then some (z, pos)
    else if (br_u1 d nbits pos).0 == 0
    then rest
    else some (z, (br_u1 d nbits pos).1)

-- `v = (v << 1) | br_u1(b)`, `k` times, on 32 bits.
unfoldable pub read_bits : List ℕ → ℕ → ℕ → ℕ → ℕ → ℕ × ℕ
unfolding br_u1
read_bits d nbits zero pos v = (v, pos)
read_bits d nbits (suc k) pos v =
    read_bits d nbits k (br_u1 d nbits pos).1 ((v * 2 + (br_u1 d nbits pos).0) % 2 ^ 32)

unfoldable pub golomb : List ℕ → ℕ → ℕ × ℕ → ℕ × ℕ
unfolding read_bits
golomb d nbits (z, pos) = if ltb 31 z then (0, pos) else (
  (2 ^ z + (2 ^ 32 - 1) + (read_bits d nbits z pos 0).0) % 2 ^ 32,
  (read_bits d nbits z pos 0).1,
)

unfoldable pub br_ue : List ℕ → ℕ → ℕ → Option (ℕ × ℕ)
unfolding count_zeros golomb
br_ue d nbits pos = elim (count_zeros d nbits (suc (nbits - pos)) pos 0) [
  | none ↦ none
  | some r ↦ some (golomb d nbits r)
]

-- `none` is -1 outside, and a loop that the fuel did not finish inside.
unfoldable pub second_ue : List ℕ → Option ℕ
unfolding br_ue
second_ue d = elim (br_ue d (length d * 8) 0) [
  | none ↦ none
  | some (first, pos) ↦ elim (br_ue d (length d * 8) pos) [ none ↦ none | some (v, end) ↦ some v ]
]

unfoldable pub h264_slice_type : List ℕ → Option ℤ
unfolding unescape_rbsp second_ue as_int
h264_slice_type [] = none
h264_slice_type (header ∷ []) = none
h264_slice_type (header ∷ (b ∷ bs)) = elim (second_ue (unescape_rbsp (b ∷ bs) 16)) [
  | none ↦ none
  | some v ↦ some (as_int v)
]

-- A run of 0xff and the byte behind it: their sum and what follows, or `none` at the end.
unfoldable pub sei_value : List ℕ → ℕ → Option (ℕ × List ℕ)
sei_value [] sum = none
sei_value (b ∷ bs) sum =
    let rest = sei_value bs (sum + 255) in if b == 0xff then rest else some (sum + b, bs)

-- The size of a message of this type, then the next one `i += size` bytes further.
unfoldable pub sei_message : List ℕ → Option (ℕ × List ℕ)
unfolding sei_value
sei_message bs = elim (sei_value bs 0) [
  | none ↦ none
  | some (type, rest) ↦ elim (sei_value rest 0) [
    | none ↦ none
    | some (size, payload) ↦ some (type, drop size payload)
  ]
]

-- The loop over the messages from `i` on, as the bytes that are left; `none` is too little fuel.
unfoldable pub find_recovery_point : ℕ → List ℕ → Option Bool
unfolding sei_message
find_recovery_point zero bs = none
find_recovery_point (suc k) bs = elim (sei_message bs) [
  | none ↦ some false
  | some (type, rest) ↦ if type == 6 then some true else find_recovery_point k rest
]

unfoldable pub h264_has_recovery_point : List ℕ → Option Bool
unfolding unescape_rbsp find_recovery_point
h264_has_recovery_point [] = some false
h264_has_recovery_point (header ∷ []) = some false
h264_has_recovery_point (header ∷ (b ∷ bs)) =
    find_recovery_point (suc (length (unescape_rbsp (b ∷ bs) 64))) (unescape_rbsp (b ∷ bs) 64)
