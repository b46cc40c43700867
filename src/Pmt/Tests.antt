-- ===== src/Pmt/Tests.antt =====
-- Tests of the table decoder of source/tsdecode.c, and its theorems at a concrete table.
use opensrthub.Base.{
  ℕ, zero, suc, ◌<◌, ◌≡◌, ◌≢◌, refl, Bool, true, false, Option, some, none, List, [], ◌∷◌, ◌++◌,
  arith, replicate, get_elem?, ◌⊎◌,
}
use opensrthub.Pmt.Table.{Pmt, Tables, create_tables, zeroed_pmt}
use opensrthub.Pmt.Decode.{decode_pmt_table, decode_entry}
use opensrthub.Pmt.StreamLoop.{IsValid}
use opensrthub.Pmt.Entry.{program_at}
use opensrthub.Pmt.Numbering.{audio_indices, cue_streams, range, Apart}
use opensrthub.Pmt.Slots.{IsTables, create_tables-IsTables}
use opensrthub.Pmt.Update.{Stored, Refused, decode_pmt_table-ok}
use opensrthub.Pmt.Runs.{Call, IsCall, run, run-IsTables}
use opensrthub.Pmt.Select.{
  Transport, entry_at, entries_of, find_monitored_index, get_scte35_pid, get_pid_summary,
}
use opensrthub.Pmt.Monitored.{
  Readable, HasPid, Found, find_monitored_index-Found, get_pid_summary-scte35,
}
use opensrthub.Pmt.AudioSummary.{audio_pids, get_pid_summary-audio}

-- Program 3 with a registration descriptor; an H.264 stream, a cue stream, an AAC stream, and a
-- private stream that an AC-3 descriptor makes an audio stream.
abbrev table_bytes : List ℕ
table_bytes =
    0 ∷ 2 ∷ 0xb0 ∷ 57 ∷ 0 ∷ 3 ∷ 0xc3 ∷ 0 ∷ 0 ∷ 0xe1 ∷ 0 ∷ 0xf0 ∷ 6 ∷ 5 ∷ 4 ∷ b'C' ∷ b'U' ∷ b'E'
    ∷ b'I' ∷ 0x1b ∷ 0xe1 ∷ 0 ∷ 0xf0 ∷ 0 ∷ 0x86 ∷ 0xe1 ∷ 9 ∷ 0xf0 ∷ 0 ∷ 0x0f ∷ 0xe1 ∷ 1 ∷ 0xf0 ∷ 6
    ∷ 10 ∷ 4 ∷ b'e' ∷ b'n' ∷ b'g' ∷ 0 ∷ 6 ∷ 0xe1 ∷ 2 ∷ 0xf0 ∷ 6 ∷ 10 ∷ 4 ∷ b'd' ∷ b'e' ∷ b'u' ∷ 0
    ∷ 6 ∷ 0xe1 ∷ 2 ∷ 0xf0 ∷ 3 ∷ 0x6a ∷ 1 ∷ 0 ∷ []

abbrev table_buffer : List ℕ
table_buffer = table_bytes ++ replicate 100 0

abbrev after_decode : Option (Bool × Tables)
after_decode = decode_pmt_table table_buffer 59 32 create_tables

abbrev entry_of : Option (Bool × Pmt) → Pmt
entry_of none = zeroed_pmt
entry_of (some (r, q)) = q

abbrev decoded_entry : Pmt
decoded_entry = entry_of (decode_entry table_buffer 59 32 zeroed_pmt)

abbrev decoded_transport : Transport
decoded_transport = record {
  tables = record { pmt_table_entries = 1; master_pmt_table = decoded_entry ∷ [] };
  pmt_pid_count = 1;
  pat_program_number = 3 ∷ [];
  selected_program = 3;
}

audio_summary :
    (get_pid_summary (some decoded_transport)).1.audio_pid
    ≡ 0x101 ∷ 0x102 ∷ 0 ∷ 0 ∷ 0 ∷ 0 ∷ 0 ∷ 0 ∷ []
unfolding get_pid_summary decode_entry
audio_summary = refl

decode_pmt_table-ok_example :
    (r : Bool) × (u : Tables) × (decode_pmt_table table_buffer 59 32 create_tables ≡ some (r, u))
    × (Stored 32 (program_at table_buffer) create_tables u
        ⊎ ((r ≡ false) × Refused 32 create_tables u))
decode_pmt_table-ok_example =
    decode_pmt_table-ok table_buffer 59 32 create_tables create_tables-IsTables
      (λ e. absurd (omega arith)) (omega arith) (omega arith)

find_monitored_index-Found_example :
    (decoded_transport.selected_program ≡ 0 → find_monitored_index decoded_transport ≡ some 0)
    × (decoded_transport.selected_program ≢ 0
        → Found decoded_transport 0
            (entries_of decoded_transport)
            (find_monitored_index decoded_transport))
find_monitored_index-Found_example = find_monitored_index-Found decoded_transport

decoded_transport-Readable : (i : ℕ) → Readable (entry_at decoded_transport i)
unfolding decode_entry Readable HasPid
decoded_transport-Readable zero = (
  (λ e. absurd (omega arith)),
  (other, ((λ e z. absurd (omega arith)), (other, (other, (other, tt))))),
)
  where
    other : {n : ℕ} → false ≡ true → n ≢ 0
    other e = absurd (cc)
decoded_transport-Readable (suc i) = (λ e. refl, tt)

decoded_entry-IsValid : IsValid decoded_entry
unfolding decode_entry audio_indices cue_streams range Apart
decoded_entry-IsValid = record {
  descriptor_room = refl;
  stream_room = refl;
  bounded = omega arith;
  indices = refl;
  cue_count = refl;
  apart = (
    (λ e. refl),
    ((λ e. refl), ((λ e. absurd (omega arith)), ((λ e. refl), ((λ e. absurd (omega arith)), tt)))),
  );
}

get_pid_summary-scte35_example :
    (get_pid_summary (some decoded_transport)).1.scte35_pid
    ≡ get_scte35_pid (some decoded_transport)
get_pid_summary-scte35_example = get_pid_summary-scte35 decoded_transport decoded_transport-Readable

get_pid_summary-audio_example :
    ((get_pid_summary (some decoded_transport)).1.audio_pid_count ≡ 2)
    × ((k : ℕ)
        → k < 2
        → k < 8
        → get_elem? (get_pid_summary (some decoded_transport)).1.audio_pid k
          ≡ some (audio_pids decoded_entry k))
unfolding decode_entry find_monitored_index
get_pid_summary-audio_example =
    get_pid_summary-audio decoded_transport 0 (omega arith) refl decoded_entry-IsValid
      (λ e. absurd (omega arith))

abbrev two_calls : List Call
two_calls =
    record { buffer = table_buffer; size = 59; pid = 32 }
    ∷ (record { buffer = table_buffer; size = 59; pid = 33 } ∷ [])

run-IsTables_example : (u : Tables) × (run two_calls create_tables ≡ some u) × IsTables u
run-IsTables_example = run-IsTables two_calls (good, (good, tt))
  where
    good : {p : ℕ} → IsCall (record { buffer = table_buffer; size = 59; pid = suc p })
    good = record { real = λ e. absurd (omega arith); room = omega arith; header = omega arith }
