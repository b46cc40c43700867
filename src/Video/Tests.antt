-- ===== src/Video/Tests.antt =====
-- Tests of the format tracker and the H.264 probes of source/srthub.c, and their theorems at
-- concrete inputs.
use opensrthub.Base.{
  ℤ, pos, ◌+◌, ◌-◌, ◌^◌, ◌≤◌, ◌<◌, ◌≡◌, refl, Bool, Option, some, none, List, [], ◌∷◌, arith,
}
use opensrthub.Video.Format.{Text, Tracker, Change, same_text, format_change_update}
use opensrthub.Video.Changes.{IsValue, Sound, format_change_update-Sound}
use opensrthub.Video.Repeats.{format_change_update_glitch, format_change_update_twice}
use opensrthub.Video.Nal.{unescape_rbsp, br_ue, h264_slice_type, h264_has_recovery_point}
use opensrthub.Video.Escape.{escape, unescape_rbsp-escape}
use opensrthub.Video.Sei.{Sei, sei_payload, any_recovery_point, h264_has_recovery_point-sei_payload}
use opensrthub.Video.Golomb.{field, Prefix, br_ue-field}
use opensrthub.Video.Termination.{probes_total}

abbrev wide : Text
wide = b'1' ∷ b'6' ∷ b':' ∷ b'9' ∷ []

abbrev square : Text
square = b'4' ∷ b':' ∷ b'3' ∷ []

abbrev on_wide : Tracker
on_wide = record {
  current = wide;
  current_context = [];
  pending = [];
  pending_context = [];
  pending_count = 0;
}

abbrev wide_then_square : Option Change × Tracker
wide_then_square =
    format_change_update (some square) [] (format_change_update (some square) [] on_wide).1

change_reported :
    wide_then_square.0
    ≡ some (record { from = wide; from_context = []; to = square; to_context = [] })
unfolding format_change_update
change_reported = refl

wide-IsValue : IsValue wide
unfolding same_text
wide-IsValue = record { filled = refl; known = refl; short = omega arith }

square-IsValue : IsValue square
unfolding same_text
square-IsValue = record { filled = refl; known = refl; short = omega arith }

format_change_update-Sound_example : Sound on_wide (format_change_update (some square) [] on_wide)
format_change_update-Sound_example = format_change_update-Sound square [] on_wide (omega arith)

format_change_update_twice_example : wide_then_square.1.current ≡ square
format_change_update_twice_example = format_change_update_twice [] [] on_wide square-IsValue

format_change_update_glitch_example :
    ((format_change_update (some square) [] on_wide).0 ≡ none)
    × ((format_change_update (some wide) [] (format_change_update (some square) [] on_wide).1).0
        ≡ none)
    × ((format_change_update
          (some wide)
          []
          (format_change_update (some square) [] on_wide).1).1.current
        ≡ wide)
    × ((format_change_update
          (some wide)
          []
          (format_change_update (some square) [] on_wide).1).1.pending_count
        ≡ 0)
unfolding same_text
format_change_update_glitch_example =
    format_change_update_glitch [] [] on_wide square-IsValue wide-IsValue refl refl refl

unescape_rbsp-escape_example :
    unescape_rbsp (escape (0 ∷ 0 ∷ 1 ∷ 0 ∷ 0 ∷ 3 ∷ []) 0) 16 ≡ 0 ∷ 0 ∷ 1 ∷ 0 ∷ 0 ∷ 3 ∷ []
unescape_rbsp-escape_example = unescape_rbsp-escape (0 ∷ 0 ∷ 1 ∷ 0 ∷ 0 ∷ 3 ∷ []) 16 (omega arith)

abbrev messages : List Sei
messages =
    record { payload_type = 300; payload = 1 ∷ 2 ∷ [] }
    ∷ (record { payload_type = 6; payload = 0xc4 ∷ [] } ∷ [])

h264_has_recovery_point-sei_payload_example :
    h264_has_recovery_point (6 ∷ escape (sei_payload messages) 0)
    ≡ some (any_recovery_point messages)
unfolding sei_payload
h264_has_recovery_point-sei_payload_example =
    h264_has_recovery_point-sei_payload 6 messages (omega arith)

-- first_mb_in_slice 0, slice_type 7.
slice_type_seven : h264_slice_type (0x65 ∷ 0x88 ∷ 0x80 ∷ []) ≡ some (pos 7)
unfolding h264_slice_type
slice_type_seven = refl

br_ue-field_example :
    br_ue (0x88 ∷ 0x80 ∷ []) 16 1
    ≡ some (2 ^ 3 - 1 + field (0x88 ∷ 0x80 ∷ []) 3 (1 + 3 + 1) 0, 1 + 3 + 1 + 3)
unfolding Prefix
br_ue-field_example =
    br_ue-field (0x88 ∷ 0x80 ∷ []) 16 3 1 (refl, (refl, (refl, refl))) (omega arith) (omega arith)

probes_total_example :
    ((b : Bool) × (h264_has_recovery_point (0x65 ∷ 0x88 ∷ 0x80 ∷ []) ≡ some b))
    × (2 ≤ 3 → (v : ℤ) × (h264_slice_type (0x65 ∷ 0x88 ∷ 0x80 ∷ []) ≡ some v))
    × (3 < 2 → h264_slice_type (0x65 ∷ 0x88 ∷ 0x80 ∷ []) ≡ none)
probes_total_example = probes_total (0x65 ∷ 0x88 ∷ 0x80 ∷ [])
