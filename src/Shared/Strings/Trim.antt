-- ===== src/Shared/Strings/Trim.antt =====
-- What the trimming functions of `Shared.Strings` take off.
use service_proxy.Shared.Strings.{
  is_empty, is_whitespace, is_newline, trim_start_by, trim_end_by, trim,
}
use service_proxy.Shared.Text.{Text}
use service_proxy.Shared.{
  ℕ, ◌≡◌, refl, ◌≢◌, Bool, true, false, [], ◌∷◌, ◌++◌, arith, ap, length, ◌≤◌, subst, ◌∙◌,
}

-- Every character of a text passes, or fails, a test.
abbrev pub All : (ℕ → Bool) → Bool → Text → Type 0
All p b [] = Unit {0}
All p b (c ∷ s) = (p c ≡ b) × All p b s

pub is_empty-append : (s t : Text) → t ≢ [] → is_empty (s ++ t) ≡ false
is_empty-append [] [] ne = absurd (ne refl)
is_empty-append [] (c ∷ t) ne = refl
is_empty-append (c ∷ s) t ne = refl

module _ (p : ℕ → Bool) where
  pub trim_end_by-All : (s : Text) → All p true s → trim_end_by p s ≡ []
  unfolding trim_end_by
  trim_end_by-All [] h = refl
  trim_end_by-All (c ∷ s) h = rw (trim_end_by-All s h.1, h.0)

  -- What is all trimmed goes with the end.
  pub trim_end_by-append-All :
      (s t : Text) → All p true t → trim_end_by p (s ++ t) ≡ trim_end_by p s
  unfolding trim_end_by
  trim_end_by-append-All [] t h = trim_end_by-All t h
  trim_end_by-append-All (c ∷ s) t h = rw (trim_end_by-append-All s t h)

  -- A text that ends in something trimmed and not empty is left alone.
  pub trim_end_by-append :
      (s t : Text) → t ≢ [] → trim_end_by p t ≡ t → trim_end_by p (s ++ t) ≡ s ++ t
  unfolding trim_end_by
  trim_end_by-append [] t ne h = h
  trim_end_by-append (c ∷ s) t ne h = rw (trim_end_by-append s t ne h, is_empty-append s t ne)

  pub trim_end_by-none : (s : Text) → All p false s → trim_end_by p s ≡ s
  unfolding trim_end_by
  trim_end_by-none [] h = refl
  trim_end_by-none (c ∷ s) h = ground (arith, trim_end_by-none s h.1)

  pub trim_end_by-weaken :
      (q : ℕ → Bool)
      → ((c : ℕ) → q c ≡ true → p c ≡ true)
      → (s : Text) → trim_end_by p s ≡ s
      → trim_end_by q s ≡ s
  unfolding trim_end_by
  trim_end_by-weaken q sub [] h = refl
  trim_end_by-weaken q sub (c ∷ s) h = ground (arith, sub c, trim_end_by-weaken q sub s)

newline-is_whitespace : (c : ℕ) → is_newline c ≡ true → is_whitespace c ≡ true
unfolding is_newline is_whitespace
newline-is_whitespace c h = ground arith

-- A text with no white space at its ends.
abbrev pub IsTrimmed : Text → Type 0
IsTrimmed s = trim s ≡ s

length-trim_start_by : (p : ℕ → Bool) (s : Text) → length (trim_start_by p s) ≤ length s
unfolding trim_start_by
length-trim_start_by p [] = omega arith
length-trim_start_by p (c ∷ s) = ground (arith, length-trim_start_by p s)

length-trim_end_by : (p : ℕ → Bool) (s : Text) → length (trim_end_by p s) ≤ length s
unfolding trim_end_by
length-trim_end_by p [] = omega arith
length-trim_end_by p (c ∷ s) = ground (arith, length-trim_end_by p s)

trim_start_by-length :
    (p : ℕ → Bool) (s : Text) → length s ≤ length (trim_start_by p s) → trim_start_by p s ≡ s
unfolding trim_start_by
trim_start_by-length p [] h = refl
trim_start_by-length p (c ∷ s) h = ground (arith, length-trim_start_by p s)

IsTrimmed-start : (s : Text) → IsTrimmed s → trim_start_by is_whitespace s ≡ s
unfolding trim
IsTrimmed-start s h =
    trim_start_by-length is_whitespace s
      (omega (arith, ap length h, length-trim_end_by is_whitespace (trim_start_by is_whitespace s)))

IsTrimmed-end : (s : Text) → IsTrimmed s → trim_end_by is_whitespace s ≡ s
unfolding trim
IsTrimmed-end s h = subst (λ t. trim_end_by is_whitespace t ≡ s) (IsTrimmed-start s h) h

-- The value of a header line: a blank before a text with no white space at its ends.
pub trim-blank : (s : Text) → IsTrimmed s → trim (32 ∷ s) ≡ s
unfolding trim
trim-blank s h = rw (IsTrimmed-start s h) (IsTrimmed-end s h)

-- A text without white space.
pub trim-none : (s : Text) → All is_whitespace false s → trim s ≡ s
unfolding trim
trim-none [] h = refl
trim-none (c ∷ s) h = rw h.0 (trim_end_by-none is_whitespace (c ∷ s) h)

-- A line that ends in such a value loses only its line break.
pub trim_end_by-line :
    (s t nl : Text)
    → t ≢ []
    → trim_end_by is_newline t ≡ t
    → All is_newline true nl
    → trim_end_by is_newline (s ++ t ++ nl) ≡ s ++ t
trim_end_by-line s t nl ne h all =
    trim_end_by-append-All is_newline (s ++ t) nl all ∙ trim_end_by-append is_newline s t ne h

pub IsTrimmed-newline : (s : Text) → IsTrimmed s → trim_end_by is_newline s ≡ s
IsTrimmed-newline s h =
    trim_end_by-weaken is_whitespace is_newline newline-is_whitespace s (IsTrimmed-end s h)
