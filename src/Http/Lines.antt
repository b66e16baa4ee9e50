-- ===== src/Http/Lines.antt =====
-- Where `find_header_end` of proxy_http.rs finds the end of headers that are written line by line.
use service_proxy.Http.{is_end, position, find_header_end}
use service_proxy.Shared.Strings.{is_empty}
use service_proxy.Shared.{
  ℕ, ◌+◌, ◌<◌, ◌≡◌, ◌≢◌, refl, sym, ap, ◌∙◌, false, some, List, [], ◌∷◌, ◌++◌, length,
  length-append, take, drop, arith, append_assoc,
}

-- ASCII without a carriage return.
abbrev pub Plain : List ℕ → Type 0
Plain [] = Unit {0}
Plain (c ∷ s) = (c < 128) × (c ≢ 13) × Plain s

-- Lines, none of them empty.
abbrev pub PlainLines : List (List ℕ) → Type 0
PlainLines [] = Unit {0}
PlainLines (l ∷ ls) = (is_empty l ≡ false) × Plain l × PlainLines ls

-- Each line with its line break.
abbrev pub write_lines : List (List ℕ) → List ℕ
write_lines [] = []
write_lines (l ∷ ls) = l ++ 13 ∷ 10 ∷ write_lines ls

-- What begins with neither a line break nor nothing.
abbrev Begins : List ℕ → Type 0
Begins [] = ⊥
Begins (c ∷ s) = c ≢ 13

position-line :
    (l s : List ℕ) (p : ℕ)
    → Plain l
    → Begins s
    → position s ≡ some p
    → position (l ++ 13 ∷ 10 ∷ s) ≡ some (length l + 2 + p)
unfolding position is_end
position-line [] [] p h b e = absurd b
position-line [] (c ∷ []) p h b e = ground (arith, e)
position-line [] (c ∷ d ∷ s) p h b e = ground (arith, e)
position-line (c ∷ l) s p h b e = ground (arith, position-line l s p h.2 b e)

position-last :
    (l rest : List ℕ) → Plain l → position (l ++ 13 ∷ 10 ∷ 13 ∷ 10 ∷ rest) ≡ some (length l)
unfolding position is_end
position-last [] rest h = refl
position-last (c ∷ l) rest h = ground (arith, position-last l rest h.2)

Begins-line : (l ls rest : List ℕ) → is_empty l ≡ false → Plain l → Begins ((l ++ ls) ++ rest)
Begins-line [] ls rest h p = absurd (cc)
Begins-line (c ∷ l) ls rest h p = p.1

position-lines :
    (l : List ℕ) (ls : List (List ℕ)) (rest : List ℕ)
    → PlainLines (l ∷ ls)
    → (p : ℕ) × (position (write_lines (l ∷ ls) ++ 13 ∷ 10 ∷ rest) ≡ some p)
      × (p + 2 ≡ length (write_lines (l ∷ ls)))
position-lines l [] rest h = (
  length l,
  ap position (append_assoc l (13 ∷ 10 ∷ []) (13 ∷ 10 ∷ rest)) ∙ position-last l rest h.1,
  omega (arith, length-append l (13 ∷ 10 ∷ [])),
)
position-lines l (m ∷ ls) rest h =
    let (p, found, counted) = position-lines m ls rest h.2 in
    (
      length l + 2 + p,
      ap position (append_assoc l (13 ∷ 10 ∷ write_lines (m ∷ ls)) (13 ∷ 10 ∷ rest))
          ∙ position-line l (write_lines (m ∷ ls) ++ 13 ∷ 10 ∷ rest) p h.1
              (Begins-line m (13 ∷ 10 ∷ write_lines ls) (13 ∷ 10 ∷ rest) h.2.0 h.2.1) found,
      omega (arith, counted, length-append l (13 ∷ 10 ∷ write_lines (m ∷ ls))),
    )

-- The empty line that ends the headers is found where it was written.
pub find_header_end-lines :
    (l : List ℕ) (ls : List (List ℕ)) (rest : List ℕ)
    → PlainLines (l ∷ ls)
    → find_header_end (write_lines (l ∷ ls) ++ 13 ∷ 10 ∷ rest)
      ≡ some (length (write_lines (l ∷ ls) ++ 13 ∷ 10 ∷ []))
unfolding find_header_end
find_header_end-lines l ls rest h =
    let (p, found, counted) = position-lines l ls rest h in
    rw found (ap some (omega (arith, counted, length-append (write_lines (l ∷ ls)) (13 ∷ 10 ∷ []))))

pub take-prefix : (xs ys : List ℕ) → take (length xs) (xs ++ ys) ≡ xs
take-prefix [] [] = refl
take-prefix [] (y ∷ ys) = refl
take-prefix (x ∷ xs) ys = ap (λ zs. x ∷ zs) (take-prefix xs ys)

pub drop-prefix : (xs ys : List ℕ) → drop (length xs) (xs ++ ys) ≡ ys
drop-prefix [] [] = refl
drop-prefix [] (y ∷ ys) = refl
drop-prefix (x ∷ xs) ys = drop-prefix xs ys

pub Plain-append : (s t : List ℕ) → Plain s → Plain t → Plain (s ++ t)
Plain-append [] t hs ht = ht
Plain-append (c ∷ s) t hs ht = (hs.0, hs.1, Plain-append s t hs.2 ht)

pub PlainLines-append :
    (ks ls : List (List ℕ)) → PlainLines ks → PlainLines ls → PlainLines (ks ++ ls)
PlainLines-append [] ls hk hl = hl
PlainLines-append (k ∷ ks) ls hk hl = (hk.0, hk.1, PlainLines-append ks ls hk.2 hl)

pub write_lines-append :
    (ks ls : List (List ℕ)) → write_lines (ks ++ ls) ≡ write_lines ks ++ write_lines ls
write_lines-append [] ls = refl
write_lines-append (k ∷ ks) ls =
    ap (λ s. k ++ 13 ∷ 10 ∷ s) (write_lines-append ks ls)
    ∙ sym (append_assoc k (13 ∷ 10 ∷ write_lines ks) (write_lines ls))
