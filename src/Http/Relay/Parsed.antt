-- ===== src/Http/Relay/Parsed.antt =====
-- What `parse_request` of proxy_http.rs makes of the fields that `write_request` writes.
use service_proxy.Http.Relay.{
  value_fields, header_fields, host_fields, last_fields, request_fields, IsPlain,
}
use service_proxy.Http.Relay.Bytes.{Plain-Ascii, lossy-Ascii, Digits-Plain}
use service_proxy.Dial.Types.{Headers, Request}
use service_proxy.Dial.Wire.{skipped_in_request, is_framing}
use service_proxy.Http.Lines.{Plain}
use service_proxy.Http.{Fields, add_field, add_fields, no_fields}
use service_proxy.Shared.Strings.Decimal.{decimal-Digits, parse_uint-decimal}
use service_proxy.Shared.Strings.{decimal, to_ascii_lowercase, lower, eq_ignore_ascii_case}
use service_proxy.Shared.Text.{Text, codes, ◌=?◌}
use service_proxy.Shared.{
  ℕ, ◌^◌, ◌<◌, ◌≡◌, refl, ◌∙◌, inl, inr, Bool, true, false, ◌||◌, List, [], ◌∷◌, ◌++◌, length,
  Bool-cases,
}

-- What the fields say of the host and of the length of the body.
add_fields-append :
    (fs gs : List (Text × List ℕ)) (f : Fields)
    → add_fields (fs ++ gs) f ≡ add_fields gs (add_fields fs f)
unfolding add_fields
add_fields-append [] gs f = refl
add_fields-append ((k, v) ∷ fs) gs f = add_fields-append fs gs (add_field k v f)

abbrev Untouched : Fields → Fields → Type 0
Untouched f f' = (f'.host ≡ f.host) × (f'.content_length ≡ f.content_length)

add_field-Untouched :
    (k : Text) (v : List ℕ) (f : Fields)
    → eq_ignore_ascii_case k (codes "host") ≡ false
    → eq_ignore_ascii_case k (codes "content-length") ≡ false
    → Untouched f (add_field k v f)
unfolding add_field
add_field-Untouched k v f no_host no_length = (rw no_host refl, rw no_length refl)

value_fields-Untouched :
    (k : Text) (vs : List Text) (f : Fields)
    → eq_ignore_ascii_case k (codes "host") ≡ false
    → eq_ignore_ascii_case k (codes "content-length") ≡ false
    → Untouched f (add_fields (value_fields k vs) f)
unfolding add_fields
value_fields-Untouched k [] f no_host no_length = (refl, refl)
value_fields-Untouched k (v ∷ vs) f no_host no_length =
    let (a, b) = add_field-Untouched k v f no_host no_length in
    let (c, d) = value_fields-Untouched k vs (add_field k v f) no_host no_length in (c ∙ a, d ∙ b)

or-false : (a b : Bool) → (a || b) ≡ false → (a ≡ false) × (b ≡ false)
or-false false b h = (refl, h)
or-false true b h = absurd (cc)

passed-names :
    (k : Text)
    → skipped_in_request (to_ascii_lowercase k) ≡ false
    → (eq_ignore_ascii_case k (codes "host") ≡ false)
      × (eq_ignore_ascii_case k (codes "content-length") ≡ false)
unfolding eq_ignore_ascii_case to_ascii_lowercase lower
passed-names k h =
    let (framing, host) =
      or-false (is_framing (to_ascii_lowercase k)) (to_ascii_lowercase k =? codes "host") h in
    let (_, length) =
      or-false (to_ascii_lowercase k =? codes "connection")
        (to_ascii_lowercase k =? codes "content-length") framing in
    (host, length)

header_fields-Untouched :
    (hs : Headers) (f : Fields) → Untouched f (add_fields (header_fields hs) f)
unfolding header_fields add_fields eq_ignore_ascii_case to_ascii_lowercase
header_fields-Untouched [] f = (refl, refl)
header_fields-Untouched ((k, vs) ∷ hs) f =
    elim (Bool-cases (skipped_in_request (to_ascii_lowercase k))) [
      | inl skip ↦ rw skip (header_fields-Untouched hs f)
      | inr keep ↦
          let (no_host, no_length) = passed-names k keep in
          let (a, b) = value_fields-Untouched k vs f no_host no_length in
          let (c, d) = header_fields-Untouched hs (add_fields (value_fields k vs) f) in
          rw (keep, add_fields-append (value_fields k vs) (header_fields hs) f) (c ∙ a, d ∙ b)
    ]

host_fields-host :
    (host : Text) → Plain host → (add_fields (host_fields host) no_fields).host ≡ host
unfolding add_fields add_field eq_ignore_ascii_case to_ascii_lowercase lower
host_fields-host [] h = refl
host_fields-host (c ∷ host) h = lossy-Ascii (c ∷ host) (Plain-Ascii (c ∷ host) h)

last_fields-both :
    (n : ℕ) (f : Fields)
    → n < 2 ^ 64
    → ((add_fields (last_fields n) f).host ≡ f.host)
      × ((add_fields (last_fields n) f).content_length ≡ n)
unfolding add_fields add_field eq_ignore_ascii_case to_ascii_lowercase lower
last_fields-both n f small = (
  refl,
  rw
      (
        lossy-Ascii (decimal n)
            (Plain-Ascii (decimal n) (Digits-Plain (decimal n) (decimal-Digits n))),
        parse_uint-decimal (2 ^ 64) n small,
      )
      refl,
)

-- A reader of the fields that were written finds the host and the length of the body.
pub request_fields-both :
    (req : Request)
    → IsPlain req
    → length req.body < 2 ^ 64
    → ((add_fields (request_fields req) no_fields).host ≡ req.host)
      × ((add_fields (request_fields req) no_fields).content_length ≡ length req.body)
unfolding request_fields
request_fields-both req h small =
    let hosts : Fields = add_fields (host_fields req.host) no_fields in
    let headers : Fields = add_fields (header_fields req.headers) hosts in
    let (host, _) = header_fields-Untouched req.headers hosts in
    let (last_host, counted) = last_fields-both (length req.body) headers small in
    rw
      (
        add_fields-append (host_fields req.host)
            (header_fields req.headers ++ last_fields (length req.body)) no_fields,
        add_fields-append (header_fields req.headers) (last_fields (length req.body)) hosts,
      )
      (last_host ∙ host ∙ host_fields-host req.host h.host, counted)
