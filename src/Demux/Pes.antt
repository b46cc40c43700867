-- ===== src/Demux/Pes.antt =====
-- A PES packet through decode_packets of source/tsdecode.c, from the packet that starts it to the one
-- that starts the next.
use mathlib.Core.List.{append-nil, append_assoc}
use opensrthub.Base.{
  ℕ, ◌+◌, ◌-◌, ◌*◌, ◌/◌, ◌%◌, ◌^◌, ◌≤◌, ◌<◌, ◌≡◌, ◌≢◌, refl, sym, subst, ap, ◌∙◌, Option, none,
  some, List, [], ◌∷◌, ◌++◌, arith, ◌||◌, All, length, length-append, ==_iff, ltb, leb, if_intro,
  ◌==◌, if◌then◌else◌, Gives, Gives-bind,
}
use opensrthub.Pmt.Table.{Pmt}
use opensrthub.Demux.State.{Engine, World, ts_packet_size, ts_payload_size, max_buffer_size}
use opensrthub.Demux.Header.{octet, continuity_counter}
use opensrthub.Demux.Sections.{slice}
use opensrthub.Demux.Frames.{prefix}
use opensrthub.Demux.Stream.{
  write_buffer, continuity, timestamp, begin_pes, buffer_of, first_payload, with_entry,
  stamped_payload, open_pes, append_payload, continue_pes,
}
use opensrthub.Demux.Valid.{length-slice}
use opensrthub.Demux.Reassembly.{
  prefix-write_buffer, Carries, payload, continuity-Carries, append_payload-Carries,
}

-- The packets behind the first, in their order, each with the size of its adaptation field.
unfoldable pub continue_all : World → List (List ℕ × ℕ) → Engine → Option Engine
continue_all w [] e = some e
continue_all w ((p, adaptation) ∷ ps) e = elim (continue_pes w p (4 + adaptation) adaptation e) [
  | none ↦ none
  | some f ↦ continue_all w ps f
]

abbrev pub payloads : List (List ℕ × ℕ) → List ℕ
payloads [] = []
payloads (p ∷ ps) = payload p ++ payloads ps

-- A whole packet with a payload.
abbrev pub IsPacket : List ℕ × ℕ → Type 0
IsPacket (p, adaptation) = (length p ≡ ts_packet_size) × (adaptation < ts_payload_size)

length-payload : (p : List ℕ × ℕ) → IsPacket p → length (payload p) ≡ ts_payload_size - p.1
length-payload (p, adaptation) (whole, lt) =
    length-slice (4 + adaptation) (ts_payload_size - adaptation) p (omega arith)

-- The 33-bit time stamp of the five bytes at `i`: 3, 8, 7, 8 and 7 bits of them, each group after
-- the one before it.
abbrev pub stamp_at : List ℕ → ℕ → ℕ
stamp_at p i =
    (((octet p i / 2 % 8 * 256 + octet p (i + 1)) * 128 + octet p (i + 2) / 2 % 128) * 256
        + octet p (i + 3))
      * 128
    + octet p (i + 4) / 2 % 128

timestamp-stamp_at : (p : List ℕ) (i : ℕ) → timestamp p i ≡ stamp_at p i
unfolding timestamp
timestamp-stamp_at p i = omega arith

-- A packet that starts a PES packet, behind an adaptation field of this size.
module _ (p : List ℕ) (adaptation : ℕ) where
  -- The header's optional part, and whether it has the two time stamps.
  abbrev pub header : ℕ
  header = octet p (4 + adaptation + 8)

  abbrev pub stamps : ℕ
  stamps = octet p (4 + adaptation + 7) / 2 ^ 6 % 2 ^ 2

  abbrev pub first_bytes : List ℕ
  first_bytes = slice (4 + adaptation + 9 + header) (ts_payload_size - (9 + header + adaptation)) p

  abbrev pub pts_of : ℕ
  pts_of = if stamps == 0 then 0 else stamp_at p (4 + adaptation + 9)

  abbrev pub dts_of : ℕ
  dts_of = if stamps == 3 then stamp_at p (4 + adaptation + 14) else 0

module _ (w : World) where
  pub continue_all-Carries :
      (ps : List (List ℕ × ℕ)) (xs : List ℕ) (pts dts : ℕ) (e : Engine)
      → All IsPacket ps
      → 1 ≤ length xs
      → length xs + length (payloads ps) ≤ max_buffer_size
      → Carries xs pts dts e
      → Gives (Carries (xs ++ payloads ps) pts dts) (continue_all w ps e)
  unfolding continue_all continue_pes
  continue_all-Carries [] xs pts dts e all some_of fits h =
      subst (λ ys. Carries ys pts dts e) (sym (append-nil xs)) h
  continue_all-Carries ((p, adaptation) ∷ ps) xs pts dts e ((whole, lt), all) some_of fits h =
      let size = length-payload (p, adaptation) (whole, lt) in
      let both = length-append (payload (p, adaptation)) (payloads ps) in
      let grown = length-append xs (payload (p, adaptation)) in
      Gives-bind (Carries (xs ++ payload (p, adaptation)) pts dts)
        (Carries (xs ++ (payload (p, adaptation) ++ payloads ps)) pts dts) _
        (append_payload w p (4 + adaptation) adaptation (continuity (continuity_counter p) e))
        (append_payload-Carries w p adaptation xs pts dts _ whole lt some_of (omega arith)
          (continuity-Carries xs pts dts (continuity_counter p) e h))
        λ f carried.
          subst (λ ys. Gives (Carries ys pts dts) (continue_all w ps f))
            (append_assoc xs (payload (p, adaptation)) (payloads ps))
            (continue_all-Carries ps (xs ++ payload (p, adaptation)) pts dts f all (omega arith)
              (omega arith) carried)

  module _ (p : List ℕ) (adaptation : ℕ) (t : Pmt) (m : ℕ → ℕ) where
    module _ (whole : length p ≡ ts_packet_size)
        (lt : 9 + (header p adaptation) + adaptation < ts_payload_size) where
      pub size :
          length (first_bytes p adaptation)
          ≡ ts_payload_size - (9 + (header p adaptation) + adaptation)
      size =
          length-slice (4 + adaptation + 9 + (header p adaptation))
            (ts_payload_size - (9 + (header p adaptation) + adaptation)) p (omega arith)

      placed :
          prefix
            (write_buffer 0 (first_bytes p adaptation) m)
            0
            (ts_payload_size - (9 + (header p adaptation) + adaptation))
          ≡ (first_bytes p adaptation)
      unfolding prefix
      placed =
          ap (λ (n : ℕ). prefix (write_buffer 0 (first_bytes p adaptation) m) 0 n)
            {x = ts_payload_size - (9 + (header p adaptation) + adaptation)}
            {y = 0 + length (first_bytes p adaptation)} (omega (arith, size))
          ∙ prefix-write_buffer m 0 (first_bytes p adaptation)

      first_payload-Carries :
          (pts dts : ℕ) (e : Engine)
          → buffer_of w e ≡ some m
          → e.pts ≡ pts
          → e.dts ≡ dts
          → Gives (Carries (first_bytes p adaptation) pts dts) (
              first_payload w p
                (4 + adaptation + 9 + (header p adaptation))
                (9 + (header p adaptation) + adaptation)
                e)
      unfolding first_payload
      first_payload-Carries pts dts e has a b =
          if_intro (Gives (Carries (first_bytes p adaptation) pts dts))
            (leb ts_payload_size (9 + (header p adaptation) + adaptation))
            (λ y. absurd (ground arith))
            λ y.
              rw (has, Gives)
                (if_intro (Gives (Carries (first_bytes p adaptation) pts dts))
                  (ltb (length p) (
                    4
                    + adaptation
                    + 9
                    + (header p adaptation)
                    + (ts_payload_size - (9 + (header p adaptation) + adaptation))))
                  (λ z. absurd (ground arith)) λ z. (placed, omega (arith, size), a, b))

      Opened : Pmt × Engine → Type 0
      Opened r = Carries (first_bytes p adaptation) (pts_of p adaptation) (dts_of p adaptation) r.1

      with_entry-Opened :
          (u : Pmt) (o : Option Engine)
          → Gives (Carries (first_bytes p adaptation) (pts_of p adaptation) (dts_of p adaptation)) o
          → Gives Opened (with_entry w p u o)
      unfolding Opened
      with_entry-Opened u none g = g
      with_entry-Opened u (some e) g = g

      module _ (known : (stamps p adaptation) ≢ 1)
          (one : (stamps p adaptation) ≡ 2 → 5 ≤ (header p adaptation))
          (two : (stamps p adaptation) ≡ 3 → 10 ≤ (header p adaptation)) where
        stamped_payload-Opened :
            (e : Engine)
            → buffer_of w e ≡ some m
            → e.dts ≡ 0
            → Gives Opened
                (stamped_payload w p (4 + adaptation) adaptation (header p adaptation) t e)
        unfolding stamped_payload Opened
        stamped_payload-Opened e has no_dts =
            let pts = timestamp-stamp_at p (4 + adaptation + 9) in
            let dts = timestamp-stamp_at p (4 + adaptation + 14) in
            if_intro (Gives Opened) ((stamps p adaptation) == 1)
              (λ y. absurd (known ((==_iff _ _).0 y)))
              λ a.
                if_intro (Gives Opened) ((stamps p adaptation) == 2)
                  (λ b.
                    if_intro (Gives Opened) (ltb (ts_packet_size - (4 + adaptation)) 14)
                      (λ y. absurd (ground (arith, one)))
                      λ y.
                        if_intro (Gives Opened) (leb (length p) (4 + adaptation + 13))
                          (λ z. absurd (ground arith))
                          λ z. with_entry-Opened _ _ (
                            first_payload-Carries (pts_of p adaptation) (dts_of p adaptation) _ has
                              (ground arith) (ground arith)))
                  λ b.
                    if_intro (Gives Opened) ((stamps p adaptation) == 3)
                      (λ c.
                        if_intro (Gives Opened) (ltb (ts_packet_size - (4 + adaptation)) 19)
                          (λ y. absurd (ground (arith, two)))
                          λ y.
                            if_intro (Gives Opened) (leb (length p) (4 + adaptation + 18))
                              (λ z. absurd (ground arith))
                              λ z. with_entry-Opened _ _ (
                                first_payload-Carries (pts_of p adaptation) (dts_of p adaptation) _
                                  has (ground arith) (ground arith)))
                      λ c. with_entry-Opened t _ (
                        first_payload-Carries (pts_of p adaptation) (dts_of p adaptation) _ has
                          (ground arith) (ground arith))

        pub open_pes-Opened :
            (e : Engine)
            → buffer_of w e ≡ some m
            → Gives
                (λ r.
                  Carries
                    (first_bytes p adaptation)
                    (pts_of p adaptation)
                    (dts_of p adaptation)
                    r.1)
                (open_pes w p (4 + adaptation) adaptation t e)
        unfolding open_pes begin_pes Opened
        open_pes-Opened e has =
            if_intro (Gives Opened) (ltb (ts_packet_size - (4 + adaptation)) 9)
              (λ y. absurd (ground arith))
              λ a.
                if_intro (Gives Opened) (leb (length p) (4 + adaptation + 8))
                  (λ y. absurd (ground arith))
                  λ b.
                    if_intro (Gives Opened)
                      (ltb 184 (header p adaptation)
                        || ltb (ts_packet_size - (4 + adaptation)) (9 + (header p adaptation)))
                      (λ y. absurd (ground arith)) λ c. stamped_payload-Opened _ has refl
