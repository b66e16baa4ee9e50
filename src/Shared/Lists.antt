-- ===== src/Shared/Lists.antt =====
-- Lists measured and indexed by native numbers, under the library's names.
use Prim.Native.Nat.{ℕ, zero, suc, ◌+◌, ◌≤◌, ◌<◌}
use mathlib.Core.Path.{◌≡◌, refl, ap}
use mathlib.Core.Logic.{◌≢◌, inl, inr}
use mathlib.Core.List.{List, [], ◌∷◌, ◌++◌}
use mathlib.Core.Option.{Option, none, some}
use native.Mathlib.Omega.{arith}
use service_proxy.Shared.Tests.{◌==◌, if◌then◌else◌, Nat-cases}

module _ {ℓ} {A : Type ℓ} where
  abbrev pub length : List A → ℕ
  length [] = 0
  length (x ∷ xs) = suc (length xs)

  abbrev pub get_elem? : List A → ℕ → Option A
  get_elem? [] i = none
  get_elem? (x ∷ xs) zero = some x
  get_elem? (x ∷ xs) (suc i) = get_elem? xs i

  -- A write out of bounds changes nothing.
  abbrev pub set : List A → ℕ → A → List A
  set [] i v = []
  set (x ∷ xs) zero v = v ∷ xs
  set (x ∷ xs) (suc i) v = x ∷ set xs i v

  -- Apply `f` to one entry.
  abbrev pub modify : List A → ℕ → (A → A) → List A
  modify [] i f = []
  modify (x ∷ xs) zero f = f x ∷ xs
  modify (x ∷ xs) (suc i) f = x ∷ modify xs i f

  abbrev pub take : ℕ → List A → List A
  take zero xs = []
  take (suc n) [] = []
  take (suc n) (x ∷ xs) = x ∷ take n xs

  abbrev pub drop : ℕ → List A → List A
  drop zero xs = xs
  drop (suc n) [] = []
  drop (suc n) (x ∷ xs) = drop n xs

  abbrev pub replicate : ℕ → A → List A
  replicate zero a = []
  replicate (suc n) a = a ∷ replicate n a

module _ {ℓ} {A : Type ℓ} where
  pub length-append : (xs ys : List A) → length (xs ++ ys) ≡ length xs + length ys
  length-append [] ys = omega arith
  length-append (x ∷ xs) ys = omega (arith, length-append xs ys)

  pub length-set : (xs : List A) (i : ℕ) (v : A) → length (set xs i v) ≡ length xs
  length-set [] i v = refl
  length-set (x ∷ xs) zero v = refl
  length-set (x ∷ xs) (suc i) v = ap suc (length-set xs i v)

  pub length-replicate : (n : ℕ) (a : A) → length (replicate n a) ≡ n
  length-replicate zero a = refl
  length-replicate (suc n) a = ap suc (length-replicate n a)

  pub get_elem?-replicate : (n : ℕ) (a : A) (i : ℕ) → i < n → get_elem? (replicate n a) i ≡ some a
  get_elem?-replicate zero a i h = elim h [ ]
  get_elem?-replicate (suc n) a zero h = refl
  get_elem?-replicate (suc n) a (suc i) h = get_elem?-replicate n a i (omega arith)

  pub get_elem?-set_self :
      (xs : List A) (i : ℕ) (v : A) → i < length xs → get_elem? (set xs i v) i ≡ some v
  get_elem?-set_self [] i v h = elim h [ ]
  get_elem?-set_self (x ∷ xs) zero v h = refl
  get_elem?-set_self (x ∷ xs) (suc i) v h = get_elem?-set_self xs i v (omega arith)

  pub get_elem?-set_ne :
      (xs : List A) (i j : ℕ) (v : A) → i ≢ j → get_elem? (set xs i v) j ≡ get_elem? xs j
  get_elem?-set_ne [] i j v h = refl
  get_elem?-set_ne (x ∷ xs) zero zero v h = absurd (h refl)
  get_elem?-set_ne (x ∷ xs) zero (suc j) v h = refl
  get_elem?-set_ne (x ∷ xs) (suc i) zero v h = refl
  get_elem?-set_ne (x ∷ xs) (suc i) (suc j) v h = get_elem?-set_ne xs i j v (λ e. h (ap suc e))

  -- A read after a write, in `if` form: no side condition but the bound.
  pub get_elem?-set :
      (xs : List A) (i j : ℕ) (v : A)
      → i < length xs
      → get_elem? (set xs i v) j ≡ (if i == j then some v else get_elem? xs j)
  get_elem?-set [] i j v h = elim h [ ]
  get_elem?-set (x ∷ xs) zero zero v h = refl
  get_elem?-set (x ∷ xs) zero (suc j) v h = ground arith
  get_elem?-set (x ∷ xs) (suc i) zero v h = ground arith
  get_elem?-set (x ∷ xs) (suc i) (suc j) v h = ground (arith, get_elem?-set xs i j v (omega arith))

  -- A read below the length succeeds.
  pub get_elem?-total : (xs : List A) (i : ℕ) → i < length xs → (a : A) × (get_elem? xs i ≡ some a)
  get_elem?-total [] i h = elim h [ ]
  get_elem?-total (x ∷ xs) zero h = (x, refl)
  get_elem?-total (x ∷ xs) (suc i) h = get_elem?-total xs i (omega arith)

  pub get_elem?-lt : (xs : List A) (i : ℕ) {a : A} → get_elem? xs i ≡ some a → i < length xs
  get_elem?-lt [] i h = absurd (cc)
  get_elem?-lt (x ∷ xs) zero h = omega arith
  get_elem?-lt (x ∷ xs) (suc i) h = omega (arith, get_elem?-lt xs i h)

  pub get_elem?-none : (xs : List A) (i : ℕ) → length xs ≤ i → get_elem? xs i ≡ none
  get_elem?-none [] i h = refl
  get_elem?-none (x ∷ xs) zero h = absurd (omega arith)
  get_elem?-none (x ∷ xs) (suc i) h = get_elem?-none xs i (omega arith)

  -- Writing back what was read changes nothing.
  pub set-get_elem? : (xs : List A) (i : ℕ) {a : A} → get_elem? xs i ≡ some a → set xs i a ≡ xs
  set-get_elem? [] i h = refl
  set-get_elem? (x ∷ xs) zero h = ground arith
  set-get_elem? (x ∷ xs) (suc i) h = ap (◌∷◌ x) (set-get_elem? xs i h)

  pub set-set : (xs : List A) (i : ℕ) (a b : A) → set (set xs i a) i b ≡ set xs i b
  set-set [] i a b = refl
  set-set (x ∷ xs) zero a b = refl
  set-set (x ∷ xs) (suc i) a b = ap (◌∷◌ x) (set-set xs i a b)

  -- The entry behind a prefix.
  pub get_elem?-middle :
      (ys : List A) (x : A) (xs : List A) → get_elem? (ys ++ x ∷ xs) (length ys) ≡ some x
  get_elem?-middle [] x xs = refl
  get_elem?-middle (y ∷ ys) x xs = get_elem?-middle ys x xs

  pub set-middle :
      (ys : List A) (x : A) (xs : List A) (v : A) → set (ys ++ x ∷ xs) (length ys) v ≡ ys ++ v ∷ xs
  set-middle [] x xs v = refl
  set-middle (y ∷ ys) x xs v = ap (◌∷◌ y) (set-middle ys x xs v)

  -- Two lists that agree at every index are equal.
  pub eq_of_get_elem? : (xs ys : List A) → ((i : ℕ) → get_elem? xs i ≡ get_elem? ys i) → xs ≡ ys
  eq_of_get_elem? [] [] h = refl
  eq_of_get_elem? [] (y ∷ ys) h = absurd (cc (h 0))
  eq_of_get_elem? (x ∷ xs) [] h = absurd (cc (h 0))
  eq_of_get_elem? (x ∷ xs) (y ∷ ys) h = ground (arith, h 0, eq_of_get_elem? xs ys (λ i. h (suc i)))

module _ {ℓ} {A : Type ℓ} where
  pub length-modify : (xs : List A) (i : ℕ) (f : A → A) → length (modify xs i f) ≡ length xs
  length-modify [] i f = refl
  length-modify (x ∷ xs) zero f = refl
  length-modify (x ∷ xs) (suc i) f = ap suc (length-modify xs i f)

  -- A write of `f` of what was read is a `modify`.
  pub set-eq-modify :
      (xs : List A) (i : ℕ) (f : A → A) {a : A}
      → get_elem? xs i ≡ some a
      → set xs i (f a) ≡ modify xs i f
  set-eq-modify [] i f h = refl
  set-eq-modify (x ∷ xs) zero f h = ground arith
  set-eq-modify (x ∷ xs) (suc i) f h = ap (◌∷◌ x) (set-eq-modify xs i f h)

  pub get_elem?-modify :
      (xs : List A) (i j : ℕ) (f : A → A) {a : A}
      → get_elem? xs j ≡ some a
      → get_elem? (modify xs i f) j ≡ some (if i == j then f a else a)
  get_elem?-modify [] i j f h = absurd (cc)
  get_elem?-modify (x ∷ xs) zero zero f h = ground arith
  get_elem?-modify (x ∷ xs) zero (suc j) f h = ground arith
  get_elem?-modify (x ∷ xs) (suc i) zero f h = ground arith
  get_elem?-modify (x ∷ xs) (suc i) (suc j) f h = ground (arith, get_elem?-modify xs i j f h)

  pub modify-modify :
      (xs : List A) (i : ℕ) (f g : A → A) {a : A}
      → get_elem? xs i ≡ some a
      → g (f a) ≡ a
      → modify (modify xs i f) i g ≡ xs
  modify-modify [] i f g h e = refl
  modify-modify (x ∷ xs) zero f g h e = ground arith
  modify-modify (x ∷ xs) (suc i) f g h e = ap (◌∷◌ x) (modify-modify xs i f g h e)

-- How often a number stands in a list.
abbrev pub count : ℕ → List ℕ → ℕ
count a [] = 0
count a (x ∷ xs) = if a == x then suc (count a xs) else count a xs

pub count-append : (a : ℕ) (xs ys : List ℕ) → count a (xs ++ ys) ≡ count a xs + count a ys
count-append a [] ys = omega arith
count-append a (x ∷ xs) ys = ground (arith, count-append a xs ys)

pub count-le-length : (a : ℕ) (xs : List ℕ) → count a xs ≤ length xs
count-le-length a [] = omega arith
count-le-length a (x ∷ xs) = ground (arith, count-le-length a xs)

-- The sum of a weight over a list.
module _ {ℓ} {A : Type ℓ} (w : A → ℕ) where
  abbrev pub total : List A → ℕ
  total [] = 0
  total (x ∷ xs) = w x + total xs

  -- A write moves the weight from the old entry to the new one.
  pub total-set :
      (xs : List A) (i : ℕ) (a b : A)
      → get_elem? xs i ≡ some a
      → total (set xs i b) + w a ≡ total xs + w b
  total-set [] i a b h = absurd (cc)
  total-set (x ∷ xs) zero a b h = ground arith
  total-set (x ∷ xs) (suc i) a b h = omega (arith, total-set xs i a b h)

  pub le-total : (xs : List A) (i : ℕ) (a : A) → get_elem? xs i ≡ some a → w a ≤ total xs
  le-total [] i a h = absurd (cc)
  le-total (x ∷ xs) zero a h = ground arith
  le-total (x ∷ xs) (suc i) a h = omega (arith, le-total xs i a h)

  -- A sum that is not zero has an entry that is not.
  pub positive-total :
      (xs : List A) → 0 < total xs → (i : ℕ) × (a : A) × (get_elem? xs i ≡ some a) × (0 < w a)
  positive-total [] h = absurd (omega arith)
  positive-total (x ∷ xs) h = elim (Nat-cases (w x)) [
    | inl none_here ↦
        let (i, a, at, pos) = positive-total xs (omega (arith, none_here, h)) in (suc i, a, at, pos)
    | inr (k, some_here) ↦ (zero, x, refl, omega (arith, some_here))
  ]

module _ {ℓ} {A : Type ℓ} where
  pub total_mono : (v w : A → ℕ) → ((a : A) → v a ≤ w a) → (xs : List A) → total v xs ≤ total w xs
  total_mono v w h [] = omega arith
  total_mono v w h (x ∷ xs) = omega (arith, h x, total_mono v w h xs)

  pub total-le-length : (w : A → ℕ) → ((a : A) → w a ≤ 1) → (xs : List A) → total w xs ≤ length xs
  total-le-length w h [] = omega arith
  total-le-length w h (x ∷ xs) = omega (arith, h x, total-le-length w h xs)

  pub total-append : (w : A → ℕ) (xs ys : List A) → total w (xs ++ ys) ≡ total w xs + total w ys
  total-append w [] ys = omega arith
  total-append w (x ∷ xs) ys = omega (arith, total-append w xs ys)

  pub total-replicate : (w : A → ℕ) (n : ℕ) (a : A) → w a ≡ 0 → total w (replicate n a) ≡ 0
  total-replicate w zero a h = refl
  total-replicate w (suc n) a h = omega (arith, h, total-replicate w n a h)

  pub total-replicate_one : (w : A → ℕ) (n : ℕ) (a : A) → w a ≡ 1 → total w (replicate n a) ≡ n
  total-replicate_one w zero a h = refl
  total-replicate_one w (suc n) a h = omega (arith, h, total-replicate_one w n a h)

-- The weight of the other entries is that of all with the one replaced by `z`, which weighs nothing.
module _ {ℓ} {A : Type ℓ} (w : A → ℕ) {z : A} (weightless : w z ≡ 0) (xs : List A) (i : ℕ) (t : A)
    (found : get_elem? xs i ≡ some t) where
  pub others_before : total w (set xs i z) + w t ≡ total w xs
  others_before = omega (arith, total-set w xs i t z found, weightless)

  pub others_after : (t' : A) → total w (set xs i z) + w t' ≡ total w (set xs i t')
  others_after t' = omega (arith, total-set w xs i t t' found, others_before)
