-- ===== src/Demux/Packets.antt =====
-- decode_packets of source/tsdecode.c: the whole of a packet, and the loop over the packets. `none`
-- is an access outside a packet, a buffer or an array.
use opensrthub.Base.{
  ℕ, ◌+◌, ◌-◌, ◌&&◌, ◌||◌, not, Option, none, some, List, [], ◌∷◌, ◌++◌, ltb, leb, ◌==◌,
  if◌then◌else◌, length, drop,
}
use opensrthub.Scte35.Cue.{Cue}
use opensrthub.Scte35.Section.{delivered}
use opensrthub.Scte35.Section
use opensrthub.Pmt.Select.{entry_at, get_scte35_pid}
use opensrthub.Demux.State.{Decoder, Event, cued, World, ts_packet_size, ts_payload_size}
use opensrthub.Demux.Header.{
  octet, pusi, current_pid, has_payload, adaptation_size, take_adaptation, count_packet,
}
use opensrthub.Demux.Sections.{ended, goes_on, start_programs, continue_programs}
use opensrthub.Demux.Programs.{decode_pat}
use opensrthub.Demux.Stream.{find_stream, start_stream, continue_streams}

unfoldable pub cue_events : List Cue → List Event
cue_events [] = []
cue_events (c ∷ cs) = cued c ∷ cue_events cs

-- The cues of a section that starts at offset `q`, if the PID is that of the cues.
unfoldable pub decode_cues : World → List ℕ → ℕ → Decoder → Option (List Event)
unfolding delivered cue_events
decode_cues w p q d =
    let pid = get_scte35_pid (some d.transport) in
    if not (pid == 0) && current_pid p == pid
    then elim (Section.decode_section (drop q p) (current_pid p)) [
      | none ↦ none
      | some cs ↦ some (cue_events (delivered w.registered cs))
    ]
    else some []

-- The entry of the selected program, if it is decoded; `none` is the selection -1.
abbrev pub selected : Option ℕ → Decoder → Option ℕ
selected o d = elim o [
  | none ↦ none
  | some i ↦ if ltb i d.transport.tables.pmt_table_entries then some i else none
]

-- The entry and the number of the first of its streams that has the packet's PID.
unfoldable pub stream_of : Option ℕ → List ℕ → Decoder → Option (ℕ × ℕ)
unfolding find_stream
stream_of select p d = elim (selected select d) [
  | none ↦ none
  | some i ↦
      let t = entry_at d.transport i in
      elim (find_stream (current_pid p) t.streams t.stream_count 0) [
        | none ↦ none
        | some j ↦ some (i, j)
      ]
]

abbrev pub without_events : Option Decoder → Option (Decoder × List Event)
without_events o = elim o [ none ↦ none | some d ↦ some (d, []) ]

abbrev pub after : List Event → Option (Decoder × List Event) → Option (Decoder × List Event)
after before o = elim o [ none ↦ none | some (d, es) ↦ some (d, before ++ es) ]

-- Behind the programs: a stream of the selected program, or else the program association section.
unfoldable pub start_rest :
    Option ℕ → World → List ℕ → ℕ → ℕ → Decoder → Option (Decoder × List Event)
unfolding stream_of start_stream decode_pat
start_rest select w p q adaptation d = elim (stream_of select p d) [
  | some (i, j) ↦ start_stream w p q adaptation i j d
  | none ↦ if current_pid p == 0 then without_events (decode_pat p q d) else some (d, [])
]

-- A payload whose first packet this is.
unfoldable pub start_payload :
    Option ℕ → World → List ℕ → ℕ → ℕ → Decoder → Option (Decoder × List Event)
unfolding decode_cues start_programs start_rest
start_payload select w p q adaptation d = elim (decode_cues w p q d) [
  | none ↦ none
  | some cues ↦ elim (start_programs p d.transport.pmt_pid_count 0 q d) [
    | none ↦ none
    | some (ended e) ↦ some (e, cues)
    | some (goes_on r e) ↦ after cues (start_rest select w p r adaptation e)
  ]
]

unfoldable pub continue_payload :
    Option ℕ → World → List ℕ → ℕ → ℕ → Decoder → Option (Decoder × List Event)
unfolding continue_programs continue_streams
continue_payload select w p q adaptation d =
    elim (continue_programs p q d.transport.pmt_pid_count 0 (ts_packet_size - q) d) [
      | none ↦ none
      | some e ↦ elim (selected select e) [
        | none ↦ some (e, [])
        | some i ↦
            without_events
              (continue_streams w p q adaptation i (entry_at e.transport i).stream_count 0 e)
      ]
    ]

-- Behind the adaptation field; a packet that it fills has no payload left.
unfoldable pub decode_payload :
    Option ℕ → World → List ℕ → ℕ → Decoder → Option (Decoder × List Event)
unfolding start_payload continue_payload
decode_payload select w p adaptation d =
    if not (has_payload p) || leb ts_payload_size adaptation
    then some (d, [])
    else if pusi p
    then start_payload select w p (4 + adaptation) adaptation d
    else continue_payload select w p (4 + adaptation) adaptation d

-- A packet without the synchronisation byte is passed over.
unfoldable pub decode_packet : Option ℕ → World → List ℕ → Decoder → Option (Decoder × List Event)
unfolding count_packet adaptation_size take_adaptation decode_payload
decode_packet select w p d =
    if ltb (length p) ts_packet_size
    then none
    else if not (octet p 0 == 0x47)
    then some (d, [])
    else elim (adaptation_size p) [
      | none ↦ some (count_packet p d, [])
      | some adaptation ↦
          decode_payload select w p adaptation (take_adaptation p (count_packet p d))
    ]

-- Each packet meets its own outcomes of the calls outside.
unfoldable pub decode_packets :
    Option ℕ → List (World × List ℕ) → Decoder → Option (Decoder × List Event)
unfolding decode_packet
decode_packets select [] d = some (d, [])
decode_packets select ((w, p) ∷ ps) d = elim (decode_packet select w p d) [
  | none ↦ none
  | some (e, es) ↦ after es (decode_packets select ps e)
]
