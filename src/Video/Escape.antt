-- ===== src/Video/Escape.antt =====
-- unescape_rbsp of source/srthub.c against the escape of a raw byte sequence payload (7.4.1 of H.264).
use opensrthub.Base.{
  ℕ, zero, suc, ◌≤◌, ◌≡◌, refl, ap, ◌∙◌, true, false, ◌&&◌, List, [], ◌∷◌, arith, length, leb, ◌==◌,
  if◌then◌else◌, if_intro,
}
use opensrthub.Video.Nal.{zeros_after, unescape, unescape_rbsp}

-- A byte 3 is put before each byte of at most 3 that follows two zeros.
unfoldable pub escape : List ℕ → ℕ → List ℕ
escape [] run = []
escape (b ∷ bs) run =
    let marked = 3 ∷ (b ∷ escape bs (zeros_after b 0)) in
    let plain = b ∷ escape bs (zeros_after b run) in if leb 2 run && leb b 3 then marked else plain

unescape_nil : (run room : ℕ) → unescape [] run room ≡ []
unfolding unescape
unescape_nil run room = refl

unescape_skip :
    (bs : List ℕ) (run room : ℕ)
    → leb 2 run ≡ true
    → unescape (3 ∷ bs) run (suc room) ≡ unescape bs 0 (suc room)
unfolding unescape
unescape_skip bs run room h = ground (arith, h)

unescape_keep :
    (b : ℕ) (bs : List ℕ) (run room : ℕ)
    → (leb 2 run && b == 3) ≡ false
    → unescape (b ∷ bs) run (suc room) ≡ b ∷ unescape bs (zeros_after b run) room
unfolding unescape
unescape_keep b bs run room h =
    ap (λ c. if c then unescape bs 0 (suc room) else b ∷ unescape bs (zeros_after b run) room) h

unescape-escape_from :
    (bs : List ℕ) (run room : ℕ) → length bs ≤ room → unescape (escape bs run) run room ≡ bs
unfolding escape
unescape-escape_from [] run room h = unescape_nil run room
unescape-escape_from (b ∷ bs) run zero h = absurd (omega arith)
unescape-escape_from (b ∷ bs) run (suc room) h =
    if_intro (λ x. unescape x run (suc room) ≡ b ∷ bs) (leb 2 run && leb b 3)
      (λ e.
        unescape_skip _ run room (ground (arith, e))
        ∙ unescape_keep b _ 0 room refl
        ∙ ap (λ x. b ∷ x) (unescape-escape_from bs (zeros_after b 0) room (omega arith)))
      (λ e.
        unescape_keep b _ run room (ground (arith, e))
        ∙ ap (λ x. b ∷ x) (unescape-escape_from bs (zeros_after b run) room (omega arith)))

-- A payload that fits the output, escaped as the standard asks, comes back from unescape_rbsp.
pub unescape_rbsp-escape :
    (bs : List ℕ) (max_out : ℕ) → length bs ≤ max_out → unescape_rbsp (escape bs 0) max_out ≡ bs
unfolding unescape_rbsp
unescape_rbsp-escape bs max_out h = unescape-escape_from bs 0 max_out h

-- No more is written than the output has room for.
unescape-le : (bs : List ℕ) (run room : ℕ) → length (unescape bs run room) ≤ room
unfolding unescape
unescape-le [] run room = omega arith
unescape-le (b ∷ bs) run zero = omega arith
unescape-le (b ∷ bs) run (suc room) =
    ground (arith, unescape-le bs 0 (suc room), unescape-le bs (zeros_after b run) room)

pub unescape_rbsp-le : (bs : List ℕ) (max_out : ℕ) → length (unescape_rbsp bs max_out) ≤ max_out
unfolding unescape_rbsp
unescape_rbsp-le bs max_out = unescape-le bs 0 max_out

pub length-escape-ge : (bs : List ℕ) (run : ℕ) → length bs ≤ length (escape bs run)
unfolding escape
length-escape-ge [] run = omega arith
length-escape-ge (b ∷ bs) run =
    ground (arith, length-escape-ge bs (zeros_after b 0), length-escape-ge bs (zeros_after b run))
