-- ===== src/Config/Clean.antt =====
-- What `split_addrs` of config.rs makes of any text.
use service_proxy.Config.{trimmed, split_addrs}
use service_proxy.Config.Settings.{Addresses, split_addrs-join}
use service_proxy.Shared.Strings.Trim.{All, IsTrimmed}
use service_proxy.Shared.Strings.Words.{join, AllFree}
use service_proxy.Shared.Strings.{
  is_empty, is_whitespace, trim, trim_start_by, trim_end_by, split, cons_head,
}
use service_proxy.Shared.Text.{Text}
use service_proxy.Shared.{
  ℕ, ◌≡◌, refl, ap, ◌∙◌, inl, inr, Bool, false, List, [], ◌∷◌, arith, Bool-cases, ◌==◌, ◌&&◌,
}

module _ (p : ℕ → Bool) where
  -- A text whose first character stays.
  abbrev Starts : Text → Type 0
  Starts [] = Unit {0}
  Starts (c ∷ s) = p c ≡ false

  trim_start_by-Starts : (s : Text) → Starts (trim_start_by p s)
  unfolding trim_start_by
  trim_start_by-Starts [] = tt
  trim_start_by-Starts (c ∷ s) = elim (Bool-cases (p c)) [
    | inl out ↦ rw out (trim_start_by-Starts s)
    | inr stays ↦ rw stays stays
  ]

  trim_end_by-Starts : (s : Text) → Starts s → Starts (trim_end_by p s)
  unfolding trim_end_by
  trim_end_by-Starts [] h = tt
  trim_end_by-Starts (c ∷ s) h = elim (Bool-cases (is_empty (trim_end_by p s))) [
    | inl none_left ↦ rw (none_left, h) h
    | inr some_left ↦ rw some_left h
  ]

  Starts-trim_start_by : (s : Text) → Starts s → trim_start_by p s ≡ s
  unfolding trim_start_by
  Starts-trim_start_by [] h = refl
  Starts-trim_start_by (c ∷ s) h = rw h refl

  trim_end_by-trim_end_by : (s : Text) → trim_end_by p (trim_end_by p s) ≡ trim_end_by p s
  unfolding trim_end_by
  trim_end_by-trim_end_by [] = refl
  trim_end_by-trim_end_by (c ∷ s) = ground (arith, trim_end_by-trim_end_by s)

  module _ (q : ℕ → Bool) where
    All-trim_start_by : (s : Text) → All q false s → All q false (trim_start_by p s)
    unfolding trim_start_by
    All-trim_start_by [] h = tt
    All-trim_start_by (c ∷ s) h = elim (Bool-cases (p c)) [
      | inl out ↦ rw out (All-trim_start_by s h.1)
      | inr stays ↦ rw stays h
    ]

    All-trim_end_by : (s : Text) → All q false s → All q false (trim_end_by p s)
    unfolding trim_end_by
    All-trim_end_by [] h = tt
    All-trim_end_by (c ∷ s) h = elim (Bool-cases (is_empty (trim_end_by p s) && p c)) [
      | inl out ↦ rw out tt
      | inr stays ↦ rw stays (h.0, All-trim_end_by s h.1)
    ]

trim-IsTrimmed : (s : Text) → IsTrimmed (trim s)
unfolding trim
trim-IsTrimmed s =
    let start : Text = trim_start_by is_whitespace s in
    let stays = trim_end_by-Starts is_whitespace start (trim_start_by-Starts is_whitespace s) in
    ap (trim_end_by is_whitespace)
      (Starts-trim_start_by is_whitespace (trim_end_by is_whitespace start) stays)
    ∙ trim_end_by-trim_end_by is_whitespace start

All-trim : (q : ℕ → Bool) (s : Text) → All q false s → All q false (trim s)
unfolding trim
All-trim q s h =
    All-trim_end_by is_whitespace q (trim_start_by is_whitespace s)
      (All-trim_start_by is_whitespace q s h)

cons_head-AllFree :
    (d c : ℕ) (ps : List Text) → (c == d) ≡ false → AllFree d ps → AllFree d (cons_head c ps)
cons_head-AllFree d c [] h free = ((h, tt), tt)
cons_head-AllFree d c (p ∷ ps) h free = ((h, free.0), free.1)

split-AllFree : (d : ℕ) (s : Text) → AllFree d (split d s)
unfolding split
split-AllFree d [] = (tt, tt)
split-AllFree d (c ∷ s) = elim (Bool-cases (c == d)) [
  | inl here ↦ rw here (tt, split-AllFree d s)
  | inr other ↦ rw other (cons_head-AllFree d c (split d s) other (split-AllFree d s))
]

trimmed-AllFree : (d : ℕ) (ps : List Text) → AllFree d ps → AllFree d (trimmed ps)
trimmed-AllFree d [] h = tt
trimmed-AllFree d (p ∷ ps) h = elim (Bool-cases (is_empty (trim p))) [
  | inl gone ↦ rw gone (trimmed-AllFree d ps h.1)
  | inr kept ↦ rw kept (All-trim (λ c. c == d) p h.0, trimmed-AllFree d ps h.1)
]

trimmed-Addresses : (ps : List Text) → Addresses (trimmed ps)
trimmed-Addresses [] = tt
trimmed-Addresses (p ∷ ps) = elim (Bool-cases (is_empty (trim p))) [
  | inl gone ↦ rw gone (trimmed-Addresses ps)
  | inr kept ↦ rw kept (kept, trim-IsTrimmed p, trimmed-Addresses ps)
]

-- Whatever the text, the addresses that `split_addrs` makes of it are not empty and have no comma and
-- no white space at their ends, and the text with commas between them gives the same addresses.
pub split_addrs-clean :
    (s : Text)
    → Addresses (split_addrs s)
      × AllFree 44 (split_addrs s)
      × (split_addrs (join 44 (split_addrs s)) ≡ split_addrs s)
unfolding split_addrs
split_addrs-clean s =
    let clean = trimmed-Addresses (split 44 s) in
    let free = trimmed-AllFree 44 (split 44 s) (split-AllFree 44 s) in
    (clean, free, split_addrs-join (trimmed (split 44 s)) clean free)
