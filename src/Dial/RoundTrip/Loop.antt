-- ===== src/Dial/RoundTrip/Loop.antt =====
-- The header loop of `read_response` in upstream/dial.rs over the header lines of `write_response`.
use service_proxy.Dial.Io.{Io}
use service_proxy.Dial.RoundTrip.Lines.{
  IsName, IsValue, line_of, line-LineChars, read_headers-line, as_bytes-Ascii, LineChars-Ascii,
  Ascii,
}
use service_proxy.Dial.RoundTrip.Maps.{
  Fresh, DistinctKeys, Separate, Separate-snoc, push_header-new, push_header-last, kept,
}
use service_proxy.Dial.Types.{Headers, push_header}
use service_proxy.Dial.Wire.{Parsed, read_headers, value_lines, header_lines, is_framing, crlf}
use service_proxy.Shared.Strings.{as_bytes, to_ascii_lowercase, eq_ignore_ascii_case, parse_uint}
use service_proxy.Shared.Text.{Text, codes}
use service_proxy.Shared.{
  ℕ, zero, suc, ◌^◌, ◌<◌, ◌≡◌, refl, sym, ap, subst, ◌∙◌, inl, inr, false, Option, List, [], ◌∷◌,
  ◌++◌, append_assoc, append-nil, arith, length, length-append, Bool-cases, if◌then◌else◌,
}

abbrev pub Values : List Text → Type 0
Values [] = Unit {0}
Values (v ∷ vs) = IsValue v × Values vs

-- Headers that are written as lines: proper names, and values of one line.
abbrev pub CleanHeaders : Headers → Type 0
CleanHeaders [] = Unit {0}
CleanHeaders ((k, vs) ∷ hs) = IsName k × Values vs × CleanHeaders hs

Ascii-append : (s t : Text) → Ascii s → Ascii t → Ascii (s ++ t)
Ascii-append [] t hs ht = ht
Ascii-append (c ∷ s) t hs ht = (hs.0, Ascii-append s t hs.1 ht)

pub as_bytes-line :
    {k v : Text} → IsName k → IsValue v → as_bytes (line_of k v ++ crlf) ≡ line_of k v ++ crlf
as_bytes-line {k} {v} name value = as_bytes-Ascii (line_of k v ++ crlf) (
    Ascii-append (line_of k v) crlf (LineChars-Ascii (line_of k v) (line-LineChars name value))
      (omega arith))

abbrev pub with_length : Option ℕ → Headers → Parsed
with_length cl headers = record { headers = headers; content_length = cl }

-- The header loop goes on from one state of its variables to another, with fuel to spare.
module _ (net : Io) where
  open net use {Reader, pending}

  pub record Goes (fuel : ℕ) (p : Parsed) (b : Reader) (p' : Parsed) (rest : List ℕ) : Type 0 where
    pub fuel_left : ℕ
    pub reader : Reader
    pub left : pending reader ≡ rest
    pub enough : length rest < fuel_left
    pub runs : read_headers net fuel p b ≡ read_headers net fuel_left p' reader

  Goes-refl :
      (fuel : ℕ) (p : Parsed) (b : Reader) (rest : List ℕ)
      → pending b ≡ rest
      → length (pending b) < fuel
      → Goes fuel p b p rest
  Goes-refl fuel p b rest e h = record {
    fuel_left = fuel;
    reader = b;
    left = e;
    enough = omega (arith, ap length e);
    runs = refl;
  }

  pub Goes-trans :
      {fuel : ℕ} {p q r : Parsed} {b : Reader} {mid rest : List ℕ}
      → Goes fuel p b q mid
      → ((fuel' : ℕ) (b' : Reader)
          → pending b' ≡ mid
          → length (pending b') < fuel'
          → Goes fuel' q b' r rest)
      → Goes fuel p b r rest
  Goes-trans f g =
      let h = g f.fuel_left f.reader f.left (omega (arith, f.enough, ap length f.left)) in
      record {
        fuel_left = h.fuel_left;
        reader = h.reader;
        left = h.left;
        enough = h.enough;
        runs = f.runs ∙ h.runs;
      }

  pub Goes-to :
      {fuel : ℕ} {p q r : Parsed} {b : Reader} {rest : List ℕ}
      → q ≡ r
      → Goes fuel p b q rest
      → Goes fuel p b r rest
  Goes-to {fuel} {p} {b} {rest} e g = subst (λ q. Goes fuel p b q rest) e g

  -- One line, with what it leaves of the content length.
  pub Goes-line :
      {k v : Text}
      → IsName k
      → IsValue v
      → (fuel : ℕ) (p : Parsed) (cl : Option ℕ) (b : Reader) (rest : List ℕ)
      → (if eq_ignore_ascii_case k (codes "content-length")
          then parse_uint (2 ^ 64) v
          else p.content_length)
        ≡ cl
      → pending b ≡ as_bytes (line_of k v ++ crlf) ++ rest
      → length (pending b) < fuel
      → Goes fuel p b (record { headers = push_header k v p.headers; content_length = cl }) rest
  Goes-line {k} {v} name value zero p cl b rest sets e h = elim h [ ]
  Goes-line {k} {v} name value (suc fuel) p cl b rest sets e h =
      let cut : pending b ≡ line_of k v ++ crlf ++ rest =
        e ∙ ap (λ s. s ++ rest) (as_bytes-line name value) in
      let (b', left, run) = read_headers-line net name value fuel p b rest cut in
      record {
        fuel_left = fuel;
        reader = b';
        left = left;
        enough = omega (
          arith,
          ap length cut,
          length-append (line_of k v ++ crlf) rest,
          length-append (line_of k v) crlf,
        );
        runs = rw sets at run;
      }

  module _ {k : Text} (name : IsName k)
      (plain : eq_ignore_ascii_case k (codes "content-length") ≡ false) where
    -- The values of one header after its first.
    Goes-Values :
        (vs : List Text)
        → Values vs
        → (fuel : ℕ) (acc : Headers) (seen : List Text) (cl : Option ℕ) (b : Reader) (rest : List ℕ)
        → Fresh k acc
        → pending b ≡ value_lines k vs ++ rest
        → length (pending b) < fuel
        → Goes fuel
            (with_length cl (acc ++ (k, seen) ∷ []))
            b
            (with_length cl (acc ++ (k, seen ++ vs) ∷ []))
            rest
    unfolding value_lines
    Goes-Values [] clean fuel acc seen cl b rest fresh e h =
        Goes-to (ap (λ seen. with_length cl (acc ++ (k, seen) ∷ [])) (sym (append-nil seen)))
          (Goes-refl fuel (with_length cl (acc ++ (k, seen) ∷ [])) b rest e h)
    Goes-Values (v ∷ vs) clean fuel acc seen cl b rest fresh e h =
        Goes-trans
          (Goes-to (ap (with_length cl) (push_header-last k v seen acc fresh)) (
            Goes-line name clean.0 fuel (with_length cl (acc ++ (k, seen) ∷ [])) cl b
              (value_lines k vs ++ rest) (rw plain)
              (e ∙ append_assoc (as_bytes (line_of k v ++ crlf)) (value_lines k vs) rest) h))
          (λ fuel' b' e' h'.
            Goes-to
              (ap (λ seen. with_length cl (acc ++ (k, seen) ∷ [])) (append_assoc seen (v ∷ []) vs))
              (Goes-Values vs clean.1 fuel' acc (seen ++ v ∷ []) cl b' rest fresh e' h'))

    -- All values of a header with a new key.
    Goes-header :
        (v : Text) (vs : List Text)
        → Values (v ∷ vs)
        → (fuel : ℕ) (acc : Headers) (cl : Option ℕ) (b : Reader) (rest : List ℕ) → Fresh k acc
        → pending b ≡ value_lines k (v ∷ vs) ++ rest
        → length (pending b) < fuel
        → Goes fuel (with_length cl acc) b (with_length cl (acc ++ (k, v ∷ vs) ∷ [])) rest
    unfolding value_lines
    Goes-header v vs clean fuel acc cl b rest fresh e h =
        Goes-trans
          (Goes-to (ap (with_length cl) (push_header-new k v acc fresh)) (
            Goes-line name clean.0 fuel (with_length cl acc) cl b (value_lines k vs ++ rest)
              (rw plain) (e ∙ append_assoc (as_bytes (line_of k v ++ crlf)) (value_lines k vs) rest)
              h))
          (λ fuel' b' e' h'. Goes-Values vs clean.1 fuel' acc (v ∷ []) cl b' rest fresh e' h')

-- A header that is written is not the one that sets the length.
plain_name :
    (k : Text)
    → is_framing (to_ascii_lowercase k) ≡ false
    → eq_ignore_ascii_case k (codes "content-length") ≡ false
unfolding eq_ignore_ascii_case
plain_name k h = ground arith

module _ (net : Io) where
  open net use {Reader, pending}

  -- All headers of the response.
  pub Goes-headers :
      (hs : Headers)
      → CleanHeaders hs
      → DistinctKeys hs
      → (fuel : ℕ) (acc : Headers) (cl : Option ℕ) (b : Reader) (rest : List ℕ) → Separate hs acc
      → pending b ≡ header_lines is_framing hs ++ rest
      → length (pending b) < fuel
      → Goes net fuel (with_length cl acc) b (with_length cl (acc ++ kept hs)) rest
  unfolding header_lines value_lines
  Goes-headers [] clean distinct fuel acc cl b rest sep e h =
      Goes-to net (ap (with_length cl) (sym (append-nil acc)))
        (Goes-refl net fuel (with_length cl acc) b rest e h)
  Goes-headers ((k, []) ∷ hs) clean distinct fuel acc cl b rest sep e h =
      let rest_of = Goes-headers hs clean.2 distinct.1 fuel acc cl b rest sep.1 in
      elim (Bool-cases (is_framing (to_ascii_lowercase k))) [
        | inl framing ↦ rw framing (rest_of (rw framing at e) h)
        | inr plain ↦ rw plain (rest_of (rw plain at e) h)
      ]
  Goes-headers ((k, v ∷ vs) ∷ hs) clean distinct fuel acc cl b rest sep e h =
      let rest_of = Goes-headers hs clean.2 distinct.1 in
      elim (Bool-cases (is_framing (to_ascii_lowercase k))) [
        | inl framing ↦ rw framing (rest_of fuel acc cl b rest sep.1 (rw framing at e) h)
        | inr plain ↦ rw plain (
            Goes-trans net
              (Goes-header net clean.0 (plain_name k plain) v vs clean.1 fuel acc cl b
                (header_lines is_framing hs ++ rest) sep.0
                ((rw plain at e)
                  ∙ append_assoc (value_lines k (v ∷ vs)) (header_lines is_framing hs) rest)
                h)
              (λ fuel' b' e' h'.
                Goes-to net (ap (with_length cl) (append_assoc acc ((k, v ∷ vs) ∷ []) (kept hs))) (
                  rest_of fuel' (acc ++ (k, v ∷ vs) ∷ []) cl b' rest
                    (Separate-snoc hs acc k (v ∷ vs) sep.1 distinct.0) e' h')))
      ]
