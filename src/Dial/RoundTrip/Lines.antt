-- ===== src/Dial/RoundTrip/Lines.antt =====
-- How the header loop of `read_response` in upstream/dial.rs reads one line of `write_response`.
use service_proxy.Dial.Io.{Io, LineChars}
use service_proxy.Dial.Types.{push_header}
use service_proxy.Dial.Wire.{Parsed, parse_header, read_headers, crlf}
use service_proxy.Shared.Result.{ok}
use service_proxy.Shared.Strings.Trim.{
  All, IsTrimmed, IsTrimmed-newline, trim-blank, trim-none, trim_end_by-line, is_empty-append,
}
use service_proxy.Shared.Strings.Words.{split_once-lem}
use service_proxy.Shared.Strings.{
  is_empty, is_whitespace, is_newline, trim_end_by, eq_ignore_ascii_case, as_bytes, parse_uint,
}
use service_proxy.Shared.Text.{Text, codes}
use service_proxy.Shared.Call.{yields}
use service_proxy.Shared.{
  ℕ, suc, ◌^◌, ◌<◌, ◌≡◌, refl, sym, ap, ◌∙◌, true, false, List, [], ◌∷◌, ◌++◌, append_assoc, arith,
  ◌==◌, if◌then◌else◌,
}

-- ASCII text is its own encoding.
pub as_bytes-append : (s t : Text) → as_bytes (s ++ t) ≡ as_bytes s ++ as_bytes t
unfolding as_bytes
as_bytes-append [] t = refl
as_bytes-append (c ∷ s) t = simp (as_bytes-append s t, append_assoc)

abbrev pub Ascii : Text → Type 0
Ascii [] = Unit {0}
Ascii (c ∷ s) = (c < 128) × Ascii s

pub as_bytes-Ascii : (s : Text) → Ascii s → as_bytes s ≡ s
unfolding as_bytes
as_bytes-Ascii [] h = refl
as_bytes-Ascii (c ∷ s) h = ground (arith, as_bytes-Ascii s h.1)

pub LineChars-Ascii : (s : Text) → LineChars s → Ascii s
LineChars-Ascii [] h = tt
LineChars-Ascii (c ∷ s) h = (h.0, LineChars-Ascii s h.2)

pub LineChars-append : (s t : Text) → LineChars s → LineChars t → LineChars (s ++ t)
LineChars-append [] t hs ht = ht
LineChars-append (c ∷ s) t hs ht = (hs.0, hs.1, LineChars-append s t hs.2 ht)

-- A header name: not empty, and no white space or colon in it.
pub record IsName (k : Text) : Type 0 where
  pub some_char : is_empty k ≡ false
  pub ascii : Ascii k
  pub solid : All is_whitespace false k
  pub no_colon : All (λ c. c == 58) false k

-- A header value: one line, with no white space at its ends.
pub record IsValue (v : Text) : Type 0 where
  pub one_line : LineChars v
  pub trimmed : IsTrimmed v

IsName-LineChars : (k : Text) → Ascii k → All is_whitespace false k → LineChars k
unfolding is_whitespace
IsName-LineChars [] a h = tt
IsName-LineChars (c ∷ k) a h = (a.0, ground arith, IsName-LineChars k a.1 h.1)

-- The text of a header line, without and with its line break.
abbrev pub line_of : Text → Text → Text
line_of k v = k ++ codes ": " ++ v

line_of-cons : (k v : Text) → line_of k v ≡ k ++ 58 ∷ 32 ∷ v
line_of-cons k v = append_assoc k (58 ∷ 32 ∷ []) v

crlf-All : All is_newline true crlf
unfolding is_newline
crlf-All = (refl, (refl, tt))

colon-trim :
    (v : Text) → trim_end_by is_newline v ≡ v → trim_end_by is_newline (58 ∷ 32 ∷ v) ≡ 58 ∷ 32 ∷ v
unfolding trim_end_by is_newline
colon-trim v h = ground arith

module _ {k v : Text} (name : IsName k) (value : IsValue v) where
  pub line-LineChars : LineChars (line_of k v)
  line-LineChars =
      LineChars-append (k ++ codes ": ") v
        (LineChars-append k (codes ": ") (IsName-LineChars k name.ascii name.solid) (omega arith))
        value.one_line

  line-trim : trim_end_by is_newline (line_of k v ++ crlf) ≡ line_of k v
  line-trim = rw (line_of-cons k v) (
      trim_end_by-line k (58 ∷ 32 ∷ v) crlf (λ e. cc)
        (colon-trim v (IsTrimmed-newline v value.trimmed)) crlf-All)

  line-is_empty : is_empty (line_of k v) ≡ false
  line-is_empty = rw (line_of-cons k v) (is_empty-append k (58 ∷ 32 ∷ v) (λ e. cc))

  -- The variables of the header loop after this line.
  parse_header-line :
      (p : Parsed)
      → parse_header (line_of k v) p
        ≡ ok (record {
          headers = push_header k v p.headers;
          content_length =
              if eq_ignore_ascii_case k (codes "content-length")
              then parse_uint (2 ^ 64) v
              else p.content_length;
        })
  unfolding parse_header
  parse_header-line p = rw (
    line_of-cons k v,
    parse_header,
    split_once-lem 58 k (32 ∷ v) name.no_colon,
    trim-none k name.solid,
    trim-blank v value.trimmed,
  )

module _ (net : Io) where
  open net use {Reader, waits, waits-line, read_line, read_line-lem, pending}

  -- One round of the header loop, from what its steps return.
  pub read_headers-step :
      (fuel : ℕ) (p p' : Parsed) (b b' : Reader) (raw line : Text)
      → waits b ≡ false
      → read_line b ≡ ok (raw, b')
      → trim_end_by is_newline raw ≡ line
      → is_empty line ≡ false
      → parse_header line p ≡ ok p'
      → read_headers net (suc fuel) p b ≡ read_headers net fuel p' b'
  unfolding read_headers
  read_headers-step fuel p p' b b' raw line heard read trimmed ne parsed = ground arith

  -- One round of the header loop over a line of the response.
  pub read_headers-line :
      {k v : Text}
      → IsName k
      → IsValue v
      → (fuel : ℕ) (p : Parsed) (b : Reader) (rest : List ℕ)
      → pending b ≡ line_of k v ++ crlf ++ rest
      → (b' : Reader) × (pending b' ≡ rest)
        × (read_headers net (suc fuel) p b
            ≡ read_headers net fuel
                (record {
                  headers = push_header k v p.headers;
                  content_length =
                      if eq_ignore_ascii_case k (codes "content-length")
                      then parse_uint (2 ^ 64) v
                      else p.content_length;
                })
                b')
  read_headers-line {k} {v} name value fuel p b rest e =
      let line : Text = line_of k v in
      let cut : pending b ≡ (line ++ 13 ∷ []) ++ 10 ∷ rest =
        e ∙ append_assoc line crlf rest ∙ sym (append_assoc line (13 ∷ []) (10 ∷ rest)) in
      let chars : LineChars (line ++ 13 ∷ []) =
        LineChars-append line (13 ∷ []) (line-LineChars name value) (omega arith) in
      let (b', read, left) = read_line-lem b (line ++ 13 ∷ []) rest chars cut in
      let raw : read_line b ≡ ok (line ++ crlf, b') =
        read ∙ ap (λ s. ok (s, b')) (append_assoc line (13 ∷ []) (10 ∷ [])) in
      (
        b',
        left,
        read_headers-step fuel p _ b b' (line ++ crlf) line
            (waits-line b (line ++ 13 ∷ []) rest cut) raw (line-trim name value)
            (line-is_empty name value) (parse_header-line name value p),
      )

  -- The empty line ends the loop.
  pub read_headers-end :
      (fuel : ℕ) (p : Parsed) (b : Reader) (rest : List ℕ)
      → pending b ≡ crlf ++ rest
      → (b' : Reader) × (pending b' ≡ rest)
        × (read_headers net (suc fuel) p b ≡ yields (ok (p, b')))
  unfolding read_headers trim_end_by is_newline
  read_headers-end fuel p b rest e =
      let (b', read, left) = read_line-lem b (13 ∷ []) rest (omega arith) e in
      let heard = waits-line b (13 ∷ []) rest e in (b', left, ground (arith, heard))
