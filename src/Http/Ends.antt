-- ===== src/Http/Ends.antt =====
-- Where `find_header_end` of proxy_http.rs finds the end of the headers in a part of the input.
use service_proxy.Http.{is_end, position, find_header_end}
use service_proxy.Shared.{
  ℕ, suc, ◌+◌, ◌≤◌, ◌<◌, ◌≡◌, refl, inl, inr, true, false, none, some, List, [], ◌∷◌, ◌++◌, length,
  arith, Bool-cases, Option-cases, ap, ◌∙◌,
}

-- A window that lies in the part is the same window.
is_end-append : (xs ys : List ℕ) → 4 ≤ length xs → is_end (xs ++ ys) ≡ is_end xs
unfolding is_end
is_end-append [] ys h = absurd (omega arith)
is_end-append (a ∷ []) ys h = absurd (omega arith)
is_end-append (a ∷ b ∷ []) ys h = absurd (omega arith)
is_end-append (a ∷ b ∷ c ∷ []) ys h = absurd (omega arith)
is_end-append (a ∷ b ∷ c ∷ d ∷ xs) ys h = refl

is_end-length : (xs : List ℕ) → is_end xs ≡ true → 4 ≤ length xs
unfolding is_end
is_end-length [] h = absurd cc
is_end-length (a ∷ []) h = absurd cc
is_end-length (a ∷ b ∷ []) h = absurd cc
is_end-length (a ∷ b ∷ c ∷ []) h = absurd cc
is_end-length (a ∷ b ∷ c ∷ d ∷ xs) h = omega arith

is_end-short : (xs : List ℕ) → length xs < 4 → is_end xs ≡ false
is_end-short xs h = elim (Bool-cases (is_end xs)) [
  | inl yes' ↦ absurd (omega (arith, is_end-length xs yes'))
  | inr no' ↦ no'
]

position-length : (xs : List ℕ) (p : ℕ) → position xs ≡ some p → p + 4 ≤ length xs
unfolding position
position-length [] p e = absurd cc
position-length (a ∷ xs) p e = elim (Bool-cases (is_end (a ∷ xs))) [
  | inl front ↦ ground (arith, is_end-length (a ∷ xs) front)
  | inr later ↦ elim (Option-cases (position xs)) [
    | inl missing ↦ absurd (ground arith)
    | inr (q, found) ↦ ground (arith, position-length xs q found)
  ]
]

position-short : (xs : List ℕ) → length xs < 4 → position xs ≡ none
position-short xs h = elim (Option-cases (position xs)) [
  | inl missing ↦ missing
  | inr (q, found) ↦ absurd (omega (arith, position-length xs q found))
]

-- An end that lies in the part is found in it.
position-within :
    (xs ys : List ℕ) (p : ℕ)
    → position (xs ++ ys) ≡ some p
    → p + 4 ≤ length xs
    → position xs ≡ some p
unfolding position
position-within [] ys p e h = absurd (omega arith)
position-within (a ∷ xs) ys p e h =
    let same : is_end (a ∷ (xs ++ ys)) ≡ is_end (a ∷ xs) =
      is_end-append (a ∷ xs) ys (omega arith) in
    elim (Bool-cases (is_end (a ∷ xs))) [
      | inl front ↦ ground arith
      | inr later ↦ elim (Option-cases (position (xs ++ ys))) [
        | inl missing ↦ absurd (ground arith)
        | inr (q, found) ↦
            let at_q : suc q ≡ p = ground arith in
            rw (later, position-within xs ys q found (omega arith)) (ap some at_q)
      ]
    ]

-- An end that does not lie in the part is not found in it.
position-beyond :
    (xs ys : List ℕ) (p : ℕ) → position (xs ++ ys) ≡ some p → length xs < p + 4 → position xs ≡ none
unfolding position
position-beyond [] ys p e h = refl
position-beyond (a ∷ xs) ys p e h = elim (Bool-cases (is_end (a ∷ xs))) [
  | inl front ↦
      let long = is_end-length (a ∷ xs) front in
      let whole : is_end (a ∷ (xs ++ ys)) ≡ true = is_end-append (a ∷ xs) ys long ∙ front in
      absurd (ground (arith, long))
  | inr later ↦ elim (Bool-cases (is_end (a ∷ (xs ++ ys)))) [
    | inl front ↦ let at_front : 0 ≡ p = ground arith in rw (later, position-short xs (omega arith))
    | inr away ↦ elim (Option-cases (position (xs ++ ys))) [
      | inl missing ↦ absurd (ground arith)
      | inr (q, found) ↦
          let at_q : suc q ≡ p = ground arith in
          rw (later, position-beyond xs ys q found (omega arith))
    ]
  ]
]

find_header_end-position :
    (xs : List ℕ) (k : ℕ)
    → find_header_end xs ≡ some k
    → (p : ℕ) × (position xs ≡ some p) × (p + 4 ≡ k)
unfolding find_header_end
find_header_end-position xs k e = elim (Option-cases (position xs)) [
  | inl missing ↦ absurd (ground arith)
  | inr (p, found) ↦ (p, found, ground arith)
]

-- `find_header_end` on a part of the input finds the same end, once the part holds it.
pub find_header_end-within :
    (xs ys : List ℕ) (k : ℕ)
    → find_header_end (xs ++ ys) ≡ some k
    → k ≤ length xs
    → find_header_end xs ≡ some k
unfolding find_header_end
find_header_end-within xs ys k e h =
    let (p, found, at_k) = find_header_end-position (xs ++ ys) k e in
    rw (position-within xs ys p found (omega arith)) (ap some at_k)

pub find_header_end-beyond :
    (xs ys : List ℕ) (k : ℕ)
    → find_header_end (xs ++ ys) ≡ some k
    → length xs < k
    → find_header_end xs ≡ none
unfolding find_header_end
find_header_end-beyond xs ys k e h =
    let (p, found, at_k) = find_header_end-position (xs ++ ys) k e in
    rw (position-beyond xs ys p found (omega arith))

pub find_header_end-length : (xs : List ℕ) (k : ℕ) → find_header_end xs ≡ some k → k ≤ length xs
find_header_end-length xs k e =
    let (p, found, at_k) = find_header_end-position xs k e in
    omega (arith, position-length xs p found)

pub find_header_end-pos : (xs : List ℕ) (k : ℕ) → find_header_end xs ≡ some k → 0 < k
find_header_end-pos xs k e =
    let (p, found, at_k) = find_header_end-position xs k e in omega (arith, at_k)
