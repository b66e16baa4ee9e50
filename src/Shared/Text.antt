-- ===== src/Shared/Text.antt =====
-- Text as Rust's `String` and `&str` read it by characters: a list of Unicode scalar values.
use Prim.Native.Char.{code}
use Prim.Native.String.{String}
use service_proxy.Shared.{
  ℕ, ◌≡◌, refl, subst, ◌↔◌, Bool, true, false, ◌&&◌, List, [], ◌∷◌, arith, ◌==◌,
}

abbrev pub Text : Type 0
Text = List ℕ

-- A literal of the source.
abbrev pub codes : String → Text
codes String.[] = []
codes (String.◌∷◌ c s) = code c ∷ codes s

infix 50 ◌=?◌
abbrev pub ◌=?◌ : Text → Text → Bool
[] =? [] = true
(x ∷ xs) =? (y ∷ ys) = (x == y) && (xs =? ys)
_ =? _ = false

pub =?_refl : (s : Text) → (s =? s) ≡ true
=?_refl [] = refl
=?_refl (x ∷ xs) = ground (arith, =?_refl xs)

pub =?_sound : (s t : Text) → (s =? t) ≡ true → s ≡ t
=?_sound [] [] h = refl
=?_sound [] (y ∷ ys) h = absurd (cc)
=?_sound (x ∷ xs) [] h = absurd (cc)
=?_sound (x ∷ xs) (y ∷ ys) h = ground (arith, =?_sound xs ys)

pub =?_iff : (s t : Text) → ((s =? t) ≡ true) ↔ (s ≡ t)
=?_iff s t = (=?_sound s t, λ e. subst (λ u. (s =? u) ≡ true) e (=?_refl s))

pub =?_comm : (s t : Text) → (s =? t) ≡ (t =? s)
=?_comm [] [] = refl
=?_comm [] (y ∷ ys) = refl
=?_comm (x ∷ xs) [] = refl
=?_comm (x ∷ xs) (y ∷ ys) = ground (arith, =?_comm xs ys)
