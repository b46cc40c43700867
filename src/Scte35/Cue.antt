-- ===== src/Scte35/Cue.antt =====
-- scte35_data_struct (include/tsdecode.h), the segmentation tables of source/tsdecode.c
-- (scte35_segmentation_type_name, scte35_segmentation_cue_direction) and the cue that
-- scte35_decode_section starts from.
use Prim.Native.String.{String}
use opensrthub.Base.{
  ℕ, ◌%◌, Bool, false, ◌&&◌, Option, none, List, [], ◌∷◌, leb, ◌==◌, if◌then◌else◌,
}

-- SCTE35_CUE_UNKNOWN, SCTE35_CUE_IN and SCTE35_CUE_OUT.
pub data CueDirection : Type 0 where
  unknown cue_in cue_out : CueDirection

-- The 0/1 members are Booleans. `none` is the -1 of the two segmentation members.
pub record Cue : Type 0 where
  pub splice_command_type : ℕ
  pub splice_event_id : ℕ
  pub pts_time : ℕ
  pub pts_duration : ℕ
  pub pts_adjustment : ℕ
  pub splice_immediate : Bool
  pub program_id : ℕ
  pub cancel : Bool
  pub out_of_network_indicator : Bool
  pub auto_return : Bool
  pub splice_pid : ℕ
  pub parse_complete : Bool
  pub segmentation_type_id : Option ℕ
  pub segmentation_upid_type : Option ℕ
  pub segment_num : ℕ
  pub segments_expected : ℕ
  pub cue_direction : CueDirection
  pub descriptor_name : String

abbrev pub cmd_splice_insert : ℕ
cmd_splice_insert = 0x05

abbrev pub cmd_time_signal : ℕ
cmd_time_signal = 0x06

abbrev pub descriptor_segmentation : ℕ
descriptor_segmentation = 0x02

-- The zeroed cue with its three -1 members, which `base` is before a command is parsed.
abbrev pub base_cue : ℕ → ℕ → Cue
base_cue adjustment pid = record {
  splice_command_type = 0;
  splice_event_id = 0;
  pts_time = 0;
  pts_duration = 0;
  pts_adjustment = adjustment;
  splice_immediate = false;
  program_id = 0;
  cancel = false;
  out_of_network_indicator = false;
  auto_return = false;
  splice_pid = pid;
  parse_complete = false;
  segmentation_type_id = none;
  segmentation_upid_type = none;
  segment_num = 0;
  segments_expected = 0;
  cue_direction = unknown;
  descriptor_name = "";
}

unfoldable pub cue_direction_of : ℕ → CueDirection
cue_direction_of t =
    if t == 0x22
    then cue_out
    else if t == 0x23
    then cue_in
    else if leb 0x30 t && leb t 0x47
    then if t % 2 == 0 then cue_out else cue_in
    else unknown

-- The `switch`, as a table from type to name.
abbrev pub type_names : List (ℕ × String)
type_names =
    (0x00, "Not Indicated")
    ∷ (0x01, "Content Identification")
    ∷ (0x10, "Program Start")
    ∷ (0x11, "Program End")
    ∷ (0x12, "Program Early Termination")
    ∷ (0x13, "Program Breakaway")
    ∷ (0x14, "Program Resumption")
    ∷ (0x15, "Program Runover Planned")
    ∷ (0x16, "Program Runover Unplanned")
    ∷ (0x17, "Program Overlap Start")
    ∷ (0x18, "Program Blackout Override")
    ∷ (0x19, "Program Join")
    ∷ (0x20, "Chapter Start")
    ∷ (0x21, "Chapter End")
    ∷ (0x22, "Break Start")
    ∷ (0x23, "Break End")
    ∷ (0x24, "Opening Credit Start")
    ∷ (0x25, "Opening Credit End")
    ∷ (0x26, "Closing Credit Start")
    ∷ (0x27, "Closing Credit End")
    ∷ (0x30, "Provider Advertisement Start")
    ∷ (0x31, "Provider Advertisement End")
    ∷ (0x32, "Distributor Advertisement Start")
    ∷ (0x33, "Distributor Advertisement End")
    ∷ (0x34, "Provider Placement Opportunity Start")
    ∷ (0x35, "Provider Placement Opportunity End")
    ∷ (0x36, "Distributor Placement Opportunity Start")
    ∷ (0x37, "Distributor Placement Opportunity End")
    ∷ (0x38, "Provider Overlay Placement Opportunity Start")
    ∷ (0x39, "Provider Overlay Placement Opportunity End")
    ∷ (0x3a, "Distributor Overlay Placement Opportunity Start")
    ∷ (0x3b, "Distributor Overlay Placement Opportunity End")
    ∷ (0x3c, "Provider Promo Announcement Start")
    ∷ (0x3d, "Provider Promo Announcement End")
    ∷ (0x3e, "Distributor Promo Announcement Start")
    ∷ (0x3f, "Distributor Promo Announcement End")
    ∷ (0x40, "Unscheduled Event Start")
    ∷ (0x41, "Unscheduled Event End")
    ∷ (0x42, "Alternate Content Opportunity Start")
    ∷ (0x43, "Alternate Content Opportunity End")
    ∷ (0x44, "Provider Ad Block Start")
    ∷ (0x45, "Provider Ad Block End")
    ∷ (0x46, "Distributor Ad Block Start")
    ∷ (0x47, "Distributor Ad Block End")
    ∷ (0x50, "Network Start")
    ∷ (0x51, "Network End")
    ∷ []

unfoldable pub name_in : List (ℕ × String) → ℕ → String
name_in [] t = ""
name_in ((k, name) ∷ rest) t = if t == k then name else name_in rest t

unfoldable pub segmentation_type_name : ℕ → String
unfolding name_in
segmentation_type_name t = name_in type_names t
