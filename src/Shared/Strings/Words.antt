-- ===== src/Shared/Strings/Words.antt =====
-- How `split_whitespace`, `split_once`, `split` and `strip_prefix` of `Shared.Strings` cut a text.
use service_proxy.Shared.Strings.Trim.{All}
use service_proxy.Shared.Strings.{is_empty, is_whitespace, words, split_once, split, strip_prefix}
use service_proxy.Shared.Text.{Text}
use service_proxy.Shared.{
  ℕ, ◌≡◌, refl, true, false, some, List, [], ◌∷◌, ◌++◌, append-nil, append_assoc, arith, ◌==◌,
}

-- A word that is begun with `cur` ends at the next white space.
pub words-word :
    (cur s : Text) (c : ℕ) (t : Text)
    → All is_whitespace false s
    → is_whitespace c ≡ true
    → is_empty (cur ++ s) ≡ false
    → words cur (s ++ c ∷ t) ≡ (cur ++ s) ∷ words [] t
unfolding words
words-word cur [] c t all ws ne =
    let begun : is_empty cur ≡ false = rw append-nil at ne in
    rw (ws, words) (rw (append-nil, begun))
words-word cur (x ∷ s) c t all ws ne =
    rw (all.0, words)
      (simp append_assoc at (words-word (cur ++ x ∷ []) s c t all.1 ws (rw append_assoc ne)))

pub split_once-lem :
    (d : ℕ) (s t : Text) → All (λ c. c == d) false s → split_once d (s ++ d ∷ t) ≡ some (s, t)
unfolding split_once
split_once-lem d [] t all = ground arith
split_once-lem d (c ∷ s) t all = ground (arith, split_once-lem d s t all.1)

-- The pieces with `d` between them.
unfoldable pub join : ℕ → List Text → Text
join d [] = []
join d (p ∷ []) = p
join d (p ∷ q ∷ rest) = p ++ d ∷ join d (q ∷ rest)

-- No piece has a `d`.
abbrev pub AllFree : ℕ → List Text → Type 0
AllFree d [] = Unit {0}
AllFree d (p ∷ ps) = All (λ c. c == d) false p × AllFree d ps

split-free : (d : ℕ) (s : Text) → All (λ c. c == d) false s → split d s ≡ s ∷ []
unfolding split
split-free d [] h = refl
split-free d (c ∷ s) h = rw (h.0, split-free d s h.1)

split-append :
    (d : ℕ) (s t : Text) → All (λ c. c == d) false s → split d (s ++ d ∷ t) ≡ s ∷ split d t
unfolding split
split-append d [] t h = ground arith
split-append d (c ∷ s) t h = rw (h.0, split-append d s t h.1)

-- Pieces without the separator are split as they were joined.
pub split-join :
    (d : ℕ) (p : Text) (ps : List Text) → AllFree d (p ∷ ps) → split d (join d (p ∷ ps)) ≡ p ∷ ps
unfolding join
split-join d p [] h = split-free d p h.0
split-join d p (q ∷ ps) h = rw (split-append d p (join d (q ∷ ps)) h.0, split-join d q ps h.1)

pub strip_prefix-append : (p s : Text) → strip_prefix p (p ++ s) ≡ some s
unfolding strip_prefix
strip_prefix-append [] s = refl
strip_prefix-append (c ∷ p) s = ground (arith, strip_prefix-append p s)
