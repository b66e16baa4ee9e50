-- ===== src/Shared/Strings.antt =====
-- What the program uses of Rust's `str`, `u8`, `char` and the number parsers, over lists of
-- characters.
pub mod Decimal
pub mod Trim
pub mod Words
pub mod Utf8
use service_proxy.Shared.Text.{Text, ◌=?◌}
use service_proxy.Shared.{
  ℕ, zero, suc, ◌+◌, ◌-◌, ◌*◌, ◌/◌, ◌%◌, ◌<◌, ◌==◌, ltb, leb, Bool, true, false, ◌&&◌, ◌||◌, Option,
  none, some, List, [], ◌∷◌, ◌++◌, if◌then◌else◌,
}

-- `is_empty`
abbrev pub is_empty {ℓ} : {A : Type ℓ} → List A → Bool
is_empty [] = true
is_empty (x ∷ xs) = false

abbrev between : ℕ → ℕ → ℕ → Bool
between lo hi c = leb lo c && leb c hi

-- `char::is_whitespace`: the Unicode property White_Space.
unfoldable pub is_whitespace : ℕ → Bool
is_whitespace c =
    between 9 13 c
    || c == 32
    || c == 0x85
    || c == 0xa0
    || c == 0x1680
    || between 0x2000 0x200a c
    || c == 0x2028
    || c == 0x2029
    || c == 0x202f
    || c == 0x205f
    || c == 0x3000

-- `trim_start_matches` and `trim_end_matches` with a test on characters.
unfoldable pub trim_start_by : (ℕ → Bool) → Text → Text
trim_start_by p [] = []
trim_start_by p (c ∷ s) = let rest = trim_start_by p s in if p c then rest else c ∷ s

unfoldable pub trim_end_by : (ℕ → Bool) → Text → Text
trim_end_by p [] = []
trim_end_by p (c ∷ s) = let rest = trim_end_by p s in if is_empty rest && p c then [] else c ∷ rest

-- `str::trim`
unfoldable pub trim : Text → Text
unfolding trim_start_by trim_end_by is_whitespace
trim s = trim_end_by is_whitespace (trim_start_by is_whitespace s)

-- `trim_end_matches(['\r', '\n'])`
unfoldable pub is_newline : ℕ → Bool
is_newline c = c == 13 || c == 10

-- `split_once(c)`: at the first `c`.
unfoldable pub split_once : ℕ → Text → Option (Text × Text)
split_once d [] = none
split_once d (c ∷ s) =
    if c == d
    then some ([], s)
    else elim (split_once d s) [ none ↦ none | some (a, b) ↦ some (c ∷ a, b) ]

-- `split(c)`: the pieces between the occurrences of `c`, at least one.
abbrev pub cons_head : ℕ → List Text → List Text
cons_head c [] = (c ∷ []) ∷ []
cons_head c (p ∷ ps) = (c ∷ p) ∷ ps

unfoldable pub split : ℕ → Text → List Text
split d [] = [] ∷ []
split d (c ∷ s) = let rest = split d s in if c == d then [] ∷ rest else cons_head c rest

-- `split_whitespace`: the pieces that are not empty.
unfoldable pub words : Text → Text → List Text
words cur [] = if is_empty cur then [] else cur ∷ []
words cur (c ∷ s) = elim (is_whitespace c) [
  | true ↦ let rest = words [] s in if is_empty cur then rest else cur ∷ rest
  | false ↦ words (cur ++ c ∷ []) s
]

unfoldable pub split_whitespace : Text → List Text
unfolding words is_whitespace
split_whitespace s = words [] s

-- `strip_prefix`
unfoldable pub strip_prefix : Text → Text → Option Text
strip_prefix [] s = some s
strip_prefix (p ∷ ps) [] = none
strip_prefix (p ∷ ps) (c ∷ s) = let rest = strip_prefix ps s in if p == c then rest else none

-- `to_ascii_lowercase` and `eq_ignore_ascii_case`
unfoldable pub lower : ℕ → ℕ
lower c = if between 65 90 c then c + 32 else c

unfoldable pub to_ascii_lowercase : Text → Text
unfolding lower
to_ascii_lowercase [] = []
to_ascii_lowercase (c ∷ s) = lower c ∷ to_ascii_lowercase s

unfoldable pub eq_ignore_ascii_case : Text → Text → Bool
unfolding to_ascii_lowercase
eq_ignore_ascii_case s t = to_ascii_lowercase s =? to_ascii_lowercase t

-- `as_bytes`: the UTF-8 encoding.
unfoldable pub utf8_char : ℕ → List ℕ
utf8_char c =
    if ltb c 0x80
    then c ∷ []
    else if ltb c 0x800
    then (0xc0 + c / 64) ∷ (0x80 + c % 64) ∷ []
    else if ltb c 0x10000
    then (0xe0 + c / 4096) ∷ (0x80 + c / 64 % 64) ∷ (0x80 + c % 64) ∷ []
    else (0xf0 + c / 262144) ∷ (0x80 + c / 4096 % 64) ∷ (0x80 + c / 64 % 64) ∷ (0x80 + c % 64) ∷ []

unfoldable pub as_bytes : Text → List ℕ
unfolding utf8_char
as_bytes [] = []
as_bytes (c ∷ s) = utf8_char c ++ as_bytes s

-- `format!("{}", n)` of an unsigned number, least fuel `n + 1`.
unfoldable pub decimal_fuel : ℕ → ℕ → Text
decimal_fuel zero n = []
decimal_fuel (suc f) n =
    let rest = decimal_fuel f (n / 10) in
    if ltb n 10 then (48 + n) ∷ [] else rest ++ (48 + n % 10) ∷ []

unfoldable pub decimal : ℕ → Text
unfolding decimal_fuel
decimal n = decimal_fuel (suc n) n

-- `str::parse` for an unsigned type with values below `m`: digits, after a `+` if there is one.
unfoldable pub digits_value : ℕ → ℕ → Text → Option ℕ
digits_value m acc [] = some acc
digits_value m acc (c ∷ s) =
    let v : ℕ = acc * 10 + (c - 48) in
    let rest = digits_value m v s in if between 48 57 c && ltb v m then rest else none

unfoldable pub parse_digits : ℕ → Text → Option ℕ
unfolding digits_value
parse_digits m s = if is_empty s then none else digits_value m 0 s

unfoldable pub parse_uint : ℕ → Text → Option ℕ
unfolding parse_digits
parse_uint m [] = none
parse_uint m (c ∷ s) = if c == 43 then parse_digits m s else parse_digits m (c ∷ s)
