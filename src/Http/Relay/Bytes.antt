-- ===== src/Http/Relay/Bytes.antt =====
-- The bytes of a request that `write_request` of upstream/dial.rs writes.
use service_proxy.Http.Relay.{
  value_fields, header_fields, host_fields, last_fields, request_fields, field_line, start_line,
  request_head, PlainValues, PlainHeaders, IsPlain,
}
use service_proxy.Dial.RoundTrip.Lines.{Ascii, as_bytes-Ascii, as_bytes-append}
use service_proxy.Dial.Types.{Headers, Request}
use service_proxy.Dial.Wire.{request_bytes, header_lines, value_lines, skipped_in_request, crlf}
use service_proxy.Http.Lines.{Plain, write_lines, Plain-append, write_lines-append}
use service_proxy.Shared.Strings.Decimal.{Digits, decimal-Digits}
use service_proxy.Shared.Strings.Utf8.{from_utf8_lossy, decode, lead, single}
use service_proxy.Shared.Strings.{is_empty, as_bytes, decimal, to_ascii_lowercase}
use service_proxy.Shared.Text.{Text, codes}
use service_proxy.Shared.{
  ℕ, ◌<◌, ◌≡◌, refl, sym, ap, ap₂, ◌∙◌, inl, inr, false, List, [], ◌∷◌, ◌++◌, map, length,
  if◌then◌else◌, arith, append_assoc, map-append, Bool-cases, lt→ltb,
}

pub Plain-Ascii : (s : List ℕ) → Plain s → Ascii s
Plain-Ascii [] h = tt
Plain-Ascii (c ∷ s) h = (h.0, Plain-Ascii s h.2)

pub plain_bytes : (s : Text) → Plain s → as_bytes s ≡ s
plain_bytes s h = as_bytes-Ascii s (Plain-Ascii s h)

lead-single : (c : ℕ) → c < 128 → lead c ≡ single c
unfolding lead
lead-single c h = rw (lt→ltb c 128 h) refl

-- ASCII is read back as it is.
pub lossy-Ascii : (s : Text) → Ascii s → from_utf8_lossy s ≡ s
unfolding from_utf8_lossy decode
lossy-Ascii [] h = refl
lossy-Ascii (c ∷ []) h = rw (lead-single c h.0) refl
lossy-Ascii (c ∷ d ∷ s) h = rw (lead-single c h.0) (ap (λ t. c ∷ t) (lossy-Ascii (d ∷ s) h.1))

-- A line of a header is not empty and has no carriage return.
pub field_line-Plain : (k v : Text) → Plain k → Plain v → Plain (field_line (k, v))
field_line-Plain k v hk hv =
    Plain-append (k ++ codes ": ") v (Plain-append k (codes ": ") hk (omega arith)) hv

pub start_line-Plain : (req : Request) → IsPlain req → Plain (start_line req)
start_line-Plain req h =
    Plain-append (req.method ++ codes " " ++ req.path) (codes " HTTP/1.1")
      (Plain-append (req.method ++ codes " ") req.path
        (Plain-append req.method (codes " ") h.method (omega arith)) h.path)
      (omega arith)

pub is_empty-append : (s t : List ℕ) → is_empty t ≡ false → is_empty (s ++ t) ≡ false
is_empty-append [] t h = h
is_empty-append (c ∷ s) t h = refl

line_bytes : (l : Text) → Plain l → as_bytes (l ++ crlf) ≡ l ++ crlf
line_bytes l h =
    as_bytes-append l crlf ∙ ap₂ ◌++◌ (plain_bytes l h) (as_bytes-Ascii crlf (omega arith))

field_bytes :
    (k v : Text)
    → Plain k
    → Plain v
    → as_bytes (k ++ codes ": " ++ v ++ crlf) ≡ field_line (k, v) ++ crlf
field_bytes k v hk hv = line_bytes (field_line (k, v)) (field_line-Plain k v hk hv)

-- The bytes of fields.
abbrev field_lines : List (Text × List ℕ) → List ℕ
field_lines fs = write_lines (map field_line fs)

field_lines-append :
    (fs gs : List (Text × List ℕ)) → field_lines (fs ++ gs) ≡ field_lines fs ++ field_lines gs
field_lines-append fs gs =
    ap write_lines (map-append field_line fs gs)
    ∙ write_lines-append (map field_line fs) (map field_line gs)

value_lines-fields :
    (k : Text) (vs : List Text)
    → Plain k
    → PlainValues vs
    → value_lines k vs ≡ field_lines (value_fields k vs)
unfolding value_lines
value_lines-fields k [] hk h = refl
value_lines-fields k (v ∷ vs) hk h =
    ap₂ ◌++◌ (field_bytes k v hk h.0) (value_lines-fields k vs hk h.1)
    ∙ append_assoc (field_line (k, v)) crlf (field_lines (value_fields k vs))

header_lines-fields :
    (hs : Headers)
    → PlainHeaders hs
    → header_lines skipped_in_request hs ≡ field_lines (header_fields hs)
unfolding header_lines header_fields
header_lines-fields [] h = refl
header_lines-fields ((k, vs) ∷ hs) h =
    elim (Bool-cases (skipped_in_request (to_ascii_lowercase k))) [
      | inl skip ↦ rw skip (header_lines-fields hs h.2)
      | inr keep ↦ rw keep (
          ap₂ ◌++◌ (value_lines-fields k vs h.0 h.1) (header_lines-fields hs h.2)
          ∙ sym (field_lines-append (value_fields k vs) (header_fields hs)))
    ]

host_bytes :
    (host : Text)
    → Plain host
    → (if is_empty host then [] else as_bytes (codes "Host: " ++ host ++ crlf))
      ≡ field_lines (host_fields host)
host_bytes [] h = refl
host_bytes (c ∷ host) h = field_bytes (codes "Host") (c ∷ host) (omega arith) h

pub Digits-Plain : (s : Text) → Digits s → Plain s
Digits-Plain [] h = tt
Digits-Plain (c ∷ s) h = (omega (arith, h), omega (arith, h), Digits-Plain s h.2)

Ascii-append : (s t : Text) → Ascii s → Ascii t → Ascii (s ++ t)
Ascii-append [] t hs ht = ht
Ascii-append (c ∷ s) t hs ht = (hs.0, Ascii-append s t hs.1 ht)

regroup :
    (x y : Text) → x ++ crlf ++ y ++ crlf ++ crlf ≡ (x ++ 13 ∷ 10 ∷ (y ++ 13 ∷ 10 ∷ [])) ++ crlf
regroup x y =
    ap (λ s. s ++ crlf) (append_assoc (x ++ crlf) y crlf ∙ append_assoc x crlf (y ++ crlf))

last_bytes :
    (n : ℕ)
    → as_bytes (
        codes "Content-Length: "
        ++ decimal n
        ++ crlf
        ++ codes "Connection: keep-alive"
        ++ crlf
        ++ crlf)
      ≡ field_lines (last_fields n) ++ crlf
last_bytes n =
    as_bytes-Ascii (x ++ crlf ++ y ++ crlf ++ crlf) (
      Ascii-append (x ++ crlf ++ y ++ crlf) crlf
        (Ascii-append (x ++ crlf ++ y) crlf
          (Ascii-append (x ++ crlf) y (Ascii-append x crlf x_ascii (omega arith)) (omega arith))
          (omega arith))
        (omega arith))
    ∙ regroup x y
  where
    x : Text
    x = codes "Content-Length: " ++ decimal n

    y : Text
    y = codes "Connection: keep-alive"

    x_ascii : Ascii x
    x_ascii =
        Ascii-append (codes "Content-Length: ") (decimal n) (omega arith)
          (Plain-Ascii (decimal n) (Digits-Plain (decimal n) (decimal-Digits n)))

pieces :
    (a b c d : List ℕ)
    → (a ++ crlf) ++ b ++ c ++ (d ++ crlf) ≡ (a ++ 13 ∷ 10 ∷ (b ++ (c ++ d))) ++ crlf
pieces a b c d = simp append_assoc

start_bytes :
    (req : Request)
    → IsPlain req
    → as_bytes (req.method ++ codes " " ++ req.path ++ codes " HTTP/1.1" ++ crlf)
      ≡ start_line req ++ crlf
start_bytes req h = line_bytes (start_line req) (start_line-Plain req h)

-- `write_request` writes the head, with every line and the empty line, and then the body.
pub request_bytes-head :
    (req : Request) → IsPlain req → request_bytes req ≡ request_head req ++ req.body
unfolding request_bytes request_head request_fields
request_bytes-head req h =
    let hosts : List (Text × List ℕ) = host_fields req.host in
    let headers : List (Text × List ℕ) = header_fields req.headers in
    let lasts : List (Text × List ℕ) = last_fields (length req.body) in
    let same : field_lines (hosts ++ (headers ++ lasts))
        ≡ field_lines hosts ++ (field_lines headers ++ field_lines lasts) =
      field_lines-append hosts (headers ++ lasts)
      ∙ ap (λ s. field_lines hosts ++ s) (field_lines-append headers lasts) in
    ap (λ s. s ++ req.body)
      (ap₂ ◌++◌
          (ap₂ ◌++◌ (ap₂ ◌++◌ (start_bytes req h) (host_bytes req.host h.host))
            (header_lines-fields req.headers h.headers))
          (last_bytes (length req.body))
        ∙ pieces (start_line req) (field_lines hosts) (field_lines headers) (field_lines lasts)
        ∙ ap (λ s. (start_line req ++ 13 ∷ 10 ∷ s) ++ crlf) (sym same))
