-- ===== src/Shared/Strings/Decimal.antt =====
-- `format!("{}", n)` against `str::parse`, both of `Shared.Strings`.
use service_proxy.Shared.Strings.{
  decimal, decimal_fuel, digits_value, parse_digits, parse_uint, is_empty, is_whitespace,
}
use service_proxy.Shared.Strings.Trim.{All}
use service_proxy.Shared.Text.{Text}
use service_proxy.Shared.{
  ℕ, zero, suc, ◌+◌, ◌-◌, ◌*◌, ◌/◌, ◌%◌, ◌≤◌, ◌<◌, ◌≡◌, refl, inl, inr, false, some, [], ◌∷◌, ◌++◌,
  arith, ltb, Bool-cases, ◌∙◌, false,
}
use mathlib.Core.Option

-- Decimal digits, as characters.
abbrev pub Digits : Text → Type 0
Digits [] = Unit {0}
Digits (c ∷ s) = (48 ≤ c) × (c ≤ 57) × Digits s

Digits-append : (s t : Text) → Digits s → Digits t → Digits (s ++ t)
Digits-append [] t hs ht = ht
Digits-append (c ∷ s) t hs ht = (hs.0, hs.1, Digits-append s t hs.2 ht)

decimal_fuel-Digits : (f n : ℕ) → Digits (decimal_fuel f n)
unfolding decimal_fuel
decimal_fuel-Digits zero n = tt
decimal_fuel-Digits (suc f) n = elim (Bool-cases (ltb n 10)) [
  | inl small ↦ rw small (omega arith, ground arith, tt)
  | inr big ↦ rw big (
      Digits-append (decimal_fuel f (n / 10)) _ (decimal_fuel-Digits f (n / 10))
        (omega arith, omega arith, tt))
]

pub decimal-Digits : (n : ℕ) → Digits (decimal n)
unfolding decimal
decimal-Digits n = decimal_fuel-Digits (suc n) n

digits_value-append :
    (m acc : ℕ) (s t : Text)
    → digits_value m acc (s ++ t) ≡ Option.bind (digits_value m acc s) (λ v. digits_value m v t)
unfolding digits_value Option.bind
digits_value-append m acc [] t = refl
digits_value-append m acc (c ∷ s) t =
    ground (arith, digits_value-append m (acc * 10 + (c - 48)) s t)

digits_value-decimal_fuel :
    (m f n : ℕ) → n < f → n < m → digits_value m 0 (decimal_fuel f n) ≡ some n
unfolding digits_value decimal_fuel Option.bind
digits_value-decimal_fuel m zero n h k = elim h [ ]
digits_value-decimal_fuel m (suc f) n h k = elim (Bool-cases (ltb n 10)) [
  | inl small ↦ rw small (ground arith)
  | inr big ↦ rw big (
      rw
        (
          digits_value-append m 0 (decimal_fuel f (n / 10)) ((48 + n % 10) ∷ []),
          digits_value-decimal_fuel m f (n / 10) (ground arith) (omega arith),
        )
        (ground arith))
]

parse_uint-Digits :
    (m : ℕ) (s : Text) → Digits s → is_empty s ≡ false → parse_uint m s ≡ digits_value m 0 s
unfolding parse_uint parse_digits
parse_uint-Digits m [] d ne = absurd (cc)
parse_uint-Digits m (c ∷ s) d ne = ground arith

is_empty-snoc : (s : Text) (c : ℕ) → is_empty (s ++ c ∷ []) ≡ false
is_empty-snoc [] c = refl
is_empty-snoc (x ∷ s) c = refl

pub is_empty-decimal : (n : ℕ) → is_empty (decimal n) ≡ false
unfolding decimal decimal_fuel
is_empty-decimal n = elim (Bool-cases (ltb n 10)) [
  | inl small ↦ rw small
  | inr big ↦ rw big (is_empty-snoc (decimal_fuel n (n / 10)) (48 + n % 10))
]

-- A number that fits the type is read back.
pub parse_uint-decimal : (m n : ℕ) → n < m → parse_uint m (decimal n) ≡ some n
unfolding decimal
parse_uint-decimal m n h =
    parse_uint-Digits m (decimal n) (decimal-Digits n) (is_empty-decimal n)
    ∙ digits_value-decimal_fuel m (suc n) n (omega arith) h

Digits-All : (s : Text) → Digits s → All is_whitespace false s
unfolding is_whitespace
Digits-All [] d = tt
Digits-All (c ∷ s) d = (ground arith, Digits-All s d.2)

pub decimal-All : (n : ℕ) → All is_whitespace false (decimal n)
decimal-All n = Digits-All (decimal n) (decimal-Digits n)
