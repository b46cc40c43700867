-- ===== src/Pmt/Pending.antt =====
-- The numbers of the streams while decode_pmt_table of source/tsdecode.c decodes one of them.
use mathlib.Core.List.{append-nil}
use opensrthub.Base.{
  ℕ, suc, ◌+◌, ◌≤◌, ◌<◌, ◌≡◌, sym, ap, ◌∙◌, Bool, true, false, Option, none, some, List, ◌++◌,
  arith, length, get_or, set, take, take-set, take-get_or, All, All-snoc, All-front, All-last,
  subst,
}
use opensrthub.Pmt.Table.{Stream, Descriptor, Pmt, array_size, max_streams, zeroed_stream}
use opensrthub.Pmt.Numbering.{
  range, index_list, audio_indices, cue_stream, cue_streams, Apart, audio_indices-append,
  cue_streams-append,
}

-- What the streams leave as it was: PID, program, PCR PID, and the program descriptors.
abbrev pub Header : Type 0
Header = ℕ × ℕ × ℕ × List Descriptor

abbrev pub header_of : Pmt → Header
header_of pmt = (pmt.pmt_pid, pmt.pmt_program_number, pmt.pcr_pid, pmt.descriptors)

-- The first `n` entries are the streams: their audio indices are 0, 1, … in order, and the two
-- counts are those of the audio and of the cue streams; the header is `h`.
pub record Numbered (h : Header) (n : ℕ) (pmt : Pmt) : Type 0 where
  pub kept : header_of pmt ≡ h
  pub size : length pmt.streams ≡ array_size
  pub counted : pmt.stream_count ≡ n
  pub within : n ≤ max_streams
  pub indices : audio_indices (take n pmt.streams) ≡ range pmt.audio_stream_count
  pub cue_count : cue_streams (take n pmt.streams) ≡ pmt.scte35_stream_count
  pub apart : All Apart (take n pmt.streams)

-- Stream `n` is the last one, and if it waits for a descriptor it is no audio or cue stream yet.
pub record Pending (h : Header) (waiting : Bool) (n : ℕ) (pmt : Pmt) : Type 0 where
  pub numbered : Numbered h (suc n) pmt
  pub bare :
      waiting ≡ true
      → ((get_or pmt.streams n zeroed_stream).audio_stream_index ≡ none)
        × (cue_stream (get_or pmt.streams n zeroed_stream) ≡ 0)

pub settled :
    {h : Header} {w : Bool} {n : ℕ} {pmt : Pmt} → Pending h w n pmt → Pending h false n pmt
settled p = record { numbered = p.numbered; bare = λ e. absurd (cc) }

-- The last entry and those in front of it.
pub indices_last :
    (xs : List Stream) (n : ℕ) (v : Stream)
    → n < length xs
    → audio_indices (take (suc n) (set xs n v))
      ≡ audio_indices (take n xs) ++ index_list v.audio_stream_index
indices_last xs n v h = ap audio_indices (take-set xs n v h) ∙ audio_indices-append (take n xs) v

pub indices_split :
    (xs : List Stream) (n : ℕ)
    → n < length xs
    → audio_indices (take (suc n) xs)
      ≡ audio_indices (take n xs) ++ index_list (get_or xs n zeroed_stream).audio_stream_index
indices_split xs n h =
    ap audio_indices (take-get_or xs n zeroed_stream h) ∙ audio_indices-append (take n xs) _

pub cues_last :
    (xs : List Stream) (n : ℕ) (v : Stream)
    → n < length xs
    → cue_streams (take (suc n) (set xs n v)) ≡ cue_streams (take n xs) + cue_stream v
cues_last xs n v h = ap cue_streams (take-set xs n v h) ∙ cue_streams-append (take n xs) v

pub cues_split :
    (xs : List Stream) (n : ℕ)
    → n < length xs
    → cue_streams (take (suc n) xs)
      ≡ cue_streams (take n xs) + cue_stream (get_or xs n zeroed_stream)
cues_split xs n h =
    ap cue_streams (take-get_or xs n zeroed_stream h) ∙ cue_streams-append (take n xs) _

pub Apart-front :
    (xs : List Stream) (n : ℕ) → n < length xs → All Apart (take (suc n) xs) → All Apart (take n xs)
Apart-front xs n h a =
    All-front Apart (take n xs) _ (subst (All Apart) (take-get_or xs n zeroed_stream h) a)

pub Apart-get_or :
    (xs : List Stream) (n : ℕ)
    → n < length xs
    → All Apart (take (suc n) xs)
    → Apart (get_or xs n zeroed_stream)
Apart-get_or xs n h a =
    All-last Apart (take n xs) _ (subst (All Apart) (take-get_or xs n zeroed_stream h) a)

pub Apart-set :
    (xs : List Stream) (n : ℕ) (v : Stream)
    → n < length xs
    → All Apart (take n xs)
    → Apart v
    → All Apart (take (suc n) (set xs n v))
Apart-set xs n v h a p =
    subst (All Apart) (sym (take-set xs n v h)) (All-snoc Apart (take n xs) v a p)

-- A new entry has no audio index, or the next one.
pub data Grown (a : ℕ) : Option ℕ → ℕ → Type 0 where
  same : Grown a none 0
  next : Grown a (some a) 1

pub range-grown : {a k : ℕ} {i : Option ℕ} → Grown a i k → range a ++ index_list i ≡ range (a + k)
unfolding range
range-grown {a} same = append-nil (range a) ∙ ap range {x = a} {y = a + 0} (omega arith)
range-grown {a} next = ap range {x = suc a} {y = a + 1} (omega arith)
