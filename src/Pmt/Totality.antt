-- ===== src/Pmt/Totality.antt =====
-- The stream loop of decode_pmt_table in source/tsdecode.c ends, stays inside the table and its
-- arrays, and numbers the audio streams.
use opensrthub.Base.{
  ℕ, zero, suc, ◌+◌, ◌≤◌, ◌<◌, ◌≡◌, refl, Bool, true, false, ◌&&◌, Option, none, some, List, arith,
  length, get_or, ltb, if_intro, if◌then◌else◌,
}
use opensrthub.Pmt.Table.{Pmt}
use opensrthub.Pmt.Streams.{
  Tag, skipped, alignment, ends_wait, language, makes_audio, tag_of, ends_waiting, end_wait,
  read_language, furthest, tag_loop, redo_decode,
}
use opensrthub.Pmt.Pending.{Header, Pending, settled}
use opensrthub.Pmt.EndWait.{TypeFree, tag_of-TypeFree, end_wait-Pending, amend-Pending}

module _ (m : List ℕ) where
  read_language-Pending :
      {h : Header} {w : Bool} (tag : Tag) (size p n : ℕ) (pmt : Pmt)
      → Pending h w n pmt
      → Pending h w n (read_language m tag size p n pmt)
  unfolding read_language
  read_language-Pending skipped size p n pmt h = h
  read_language-Pending alignment size p n pmt h = h
  read_language-Pending ends_wait size p n pmt h = h
  read_language-Pending (makes_audio t raw) size p n pmt h = h
  read_language-Pending {h} {w} language size p n pmt pending =
      if_intro (Pending h w n) (ltb size 3) (λ e. pending)
        λ e. amend-Pending n _ pmt refl refl pending

  -- What the loop over the descriptors leaves: a restart only where the stream was waiting.
  Tagged : Header → Bool → ℕ → Option (Bool × Pmt) → Type 0
  Tagged h w n none = ⊥
  Tagged h w n (some (again, q)) = (again ≡ true → w ≡ true) × Pending h false n q

  restart-Tagged :
      (h : Header) (w : Bool) (tag : Tag) (n : ℕ) (pmt : Pmt) (rest : Option (Bool × Pmt))
      → Pending h w n pmt
      → TypeFree tag
      → Tagged h w n rest
      → Tagged h w n (if w && ends_waiting tag then some (true, end_wait tag n pmt) else rest)
  unfolding Tagged
  restart-Tagged h false tag n pmt rest pending free r = r
  restart-Tagged h true tag n pmt rest pending free r =
      if_intro (Tagged h true n) (ends_waiting tag)
        (λ e. (λ a. refl, end_wait-Pending tag n pmt pending free)) (λ e. r)

  module _ (h : Header) (p info_length n : ℕ) (inside : p + info_length < length m) where
    furthest-lt :
        (tag : Tag) (size t : ℕ) → t + 2 + size ≤ info_length → furthest m tag size p t < length m
    furthest-lt skipped size t h = omega arith
    furthest-lt alignment size t h = ground arith
    furthest-lt ends_wait size t h = omega arith
    furthest-lt language size t h = ground arith
    furthest-lt (makes_audio a raw) size t h = omega arith

    tag_loop-Tagged :
        (k : ℕ) (w : Bool) (t : ℕ) (pmt : Pmt)
        → t ≤ info_length
        → info_length < t + k
        → Pending h w n pmt
        → Tagged h w n (tag_loop m p info_length n k w t pmt)
    unfolding tag_loop Tagged
    tag_loop-Tagged zero w t pmt le fuel pending = absurd (omega arith)
    tag_loop-Tagged (suc k) w t pmt le fuel pending =
        if_intro (Tagged h w n) (ltb info_length (t + 2)) (λ e. (λ a. absurd (cc), settled pending))
          λ past.
            if_intro (Tagged h w n) (ltb (p + t + 1) (length m))
              (λ e.
                if_intro (Tagged h w n) (ltb info_length (t + 2 + size))
                  (λ e. (λ a. absurd (cc), settled pending))
                  λ fits.
                    if_intro (Tagged h w n) (ltb (furthest m tag size p t) (length m))
                      (λ e.
                        restart-Tagged h w tag n pmt _ pending
                          (tag_of-TypeFree (get_or m (p + t) 0))
                          (tag_loop-Tagged k w (t + 2 + size) _ (ground arith) (omega arith)
                            (read_language-Pending tag size (p + t + 2) n pmt pending)))
                      (λ e. absurd (ground (arith, furthest-lt tag size t))))
              (λ e. absurd (ground arith))
      where
        tag : Tag
        tag = tag_of (get_or m (p + t) 0)

        size : ℕ
        size = get_or m (p + t + 1) 0

    -- Two rounds are enough: the first ends the wait.
    unfoldable pub Redone : Option Pmt → Type 0
    Redone none = ⊥
    Redone (some q) = Pending h false n q

    end_of : ℕ → Option (Bool × Pmt) → Option Pmt
    end_of k o = elim o [
      | none ↦ none
      | some (true, q) ↦ redo_decode m p info_length n k false q
      | some (false, q) ↦ some q
    ]

    one_round :
        (k : ℕ) (w : Bool) (o : Option (Bool × Pmt))
        → (w ≡ true
            → (q : Pmt) → Pending h false n q
            → Redone (redo_decode m p info_length n k false q))
        → Tagged h w n o
        → Redone (end_of k o)
    unfolding end_of Redone Tagged
    one_round k w none next t = t
    one_round k w (some (false, q)) next t = t.1
    one_round k w (some (true, q)) next t = next (t.0 refl) q t.1

    first_round :
        (w : Bool) (pmt : Pmt)
        → Pending h w n pmt
        → Tagged h w n (tag_loop m p info_length n (suc info_length) w 0 pmt)
    first_round w pmt pending =
        tag_loop-Tagged (suc info_length) w 0 pmt (omega arith) (omega arith) pending

    settled_round :
        (k : ℕ) (pmt : Pmt)
        → Pending h false n pmt
        → Redone (redo_decode m p info_length n (suc k) false pmt)
    unfolding redo_decode end_of
    settled_round k pmt pending =
        one_round k false _ (λ e. absurd (cc)) (first_round false pmt pending)

    pub redo_decode-Redone :
        (w : Bool) (pmt : Pmt) → Pending h w n pmt → Redone (redo_decode m p info_length n 2 w pmt)
    unfolding redo_decode end_of
    redo_decode-Redone w pmt pending =
        one_round 1 w _ (λ e. settled_round 0) (first_round w pmt pending)
