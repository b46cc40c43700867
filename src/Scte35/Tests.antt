-- ===== src/Scte35/Tests.antt =====
-- Tests of the SCTE-35 decoder of source/tsdecode.c, and its theorems at concrete sections.
use opensrthub.Base.{ℕ, ◌≡◌, refl, true, some, List, [], ◌∷◌, arith}
use opensrthub.Scte35.Cue.{Cue, base_cue, cue_out, cue_direction_of, segmentation_type_name}
use opensrthub.Scte35.Section.{decode_section}
use opensrthub.Scte35.SectionSafety.{decode_section_total}
use opensrthub.Scte35.Encode.{SpliceInsert, splice, insert_bytes, section_bytes}
use opensrthub.Scte35.RoundTrip.{insert_cue, decode_section-insert_bytes}
use opensrthub.Scte35.Direction.{direction_by_name, cue_direction_of-segmentation_type_name}

abbrev break_out : SpliceInsert
break_out = splice 0x4800_008f true (some 0x1_2345_6789) (some (true, 0x5265c0)) 1 2 3

-- The splice_insert with four bytes of descriptor loop and checksum behind it.
abbrev insert_section : List ℕ
insert_section = section_bytes 40 0 20 5 (insert_bytes break_out (0 ∷ 0 ∷ 1 ∷ 2 ∷ 3 ∷ 4 ∷ []))

insert_section_cue : decode_section insert_section 500 ≡ some (insert_cue break_out 0 500 ∷ [])
unfolding decode_section section_bytes insert_bytes
insert_section_cue = refl

-- A time_signal with one segmentation descriptor, "Provider Placement Opportunity Start".
abbrev time_signal_section : List ℕ
time_signal_section = section_bytes 42 0 5 6 (
    0xfe ∷ 0 ∷ 0 ∷ 0 ∷ 90 ∷ 0 ∷ 17 ∷ 2 ∷ 15 ∷ b'C' ∷ b'U' ∷ b'E' ∷ b'I' ∷ 0 ∷ 0 ∷ 0 ∷ 7 ∷ 0x7f
    ∷ 0xbf ∷ 0 ∷ 0 ∷ 0x34 ∷ 1 ∷ 2 ∷ [])

abbrev placement_cue : Cue
placement_cue = record (base_cue 0 500) {
  splice_command_type = 6;
  splice_event_id = 7;
  pts_time = 90;
  out_of_network_indicator = true;
  parse_complete = true;
  segmentation_type_id = some 0x34;
  segmentation_upid_type = some 0;
  segment_num = 1;
  segments_expected = 2;
  cue_direction = cue_out;
  descriptor_name = "Provider Placement Opportunity Start";
}

time_signal_cues : decode_section time_signal_section 500 ≡ some (placement_cue ∷ [])
unfolding decode_section section_bytes cue_direction_of segmentation_type_name
time_signal_cues = refl

-- A descriptor that claims to run past the loop ends it.
cut_descriptor :
    decode_section (section_bytes 42 0 5 6 (0x7f ∷ 0 ∷ 4 ∷ 2 ∷ 200 ∷ b'C' ∷ b'U' ∷ [])) 500
    ≡ some []
unfolding decode_section section_bytes
cut_descriptor = refl

decode_section_total_example : (cs : List Cue) × (decode_section time_signal_section 500 ≡ some cs)
decode_section_total_example = decode_section_total time_signal_section 500

decode_section-insert_bytes_example :
    decode_section insert_section 500 ≡ some (insert_cue break_out 0 500 ∷ [])
unfolding insert_bytes
decode_section-insert_bytes_example =
    decode_section-insert_bytes break_out 40 0 20 500 (0 ∷ 0 ∷ 1 ∷ 2 ∷ 3 ∷ 4 ∷ [])
      (record { id_fits = omega arith; program_fits = omega arith }) (omega arith) (omega arith)
      (omega arith) (omega arith) (omega arith)

cue_direction_of-segmentation_type_name_example :
    cue_direction_of 0x35 ≡ direction_by_name (segmentation_type_name 0x35)
cue_direction_of-segmentation_type_name_example = cue_direction_of-segmentation_type_name 0x35
