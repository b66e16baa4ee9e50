-- ===== src/Http/Said.antt =====
-- What the fields of a head say, described without the loop of `parse_request` of proxy_http.rs.
use service_proxy.Config.{unwrap_or}
use service_proxy.Dial.Types.{Headers, push_header}
use service_proxy.Http.{Fields, add_field, add_fields}
use service_proxy.Shared.Strings.Utf8.{from_utf8_lossy}
use service_proxy.Shared.Strings.{eq_ignore_ascii_case, parse_uint}
use service_proxy.Shared.Text.{Text, codes, ◌=?◌, =?_sound, =?_comm}
use service_proxy.Shared.{
  ℕ, ◌^◌, ◌≡◌, refl, sym, ap, ◌∙◌, inl, inr, Bool, true, false, Option, none, some, List, [], ◌∷◌,
  ◌++◌, if◌then◌else◌, append-nil, append_assoc, arith, Bool-cases,
}

-- The value of the last field with this name, in whatever case it is written.
abbrev pub last_value : Text → List (Text × List ℕ) → Option Text
last_value name [] = none
last_value name ((k, raw) ∷ fields) = elim (last_value name fields) [
  | some v ↦ some v
  | none ↦ if eq_ignore_ascii_case k name then some (from_utf8_lossy raw) else none
]

-- The number of bytes that a Content-Length announces: none where it is no number below 2 ^ 64.
abbrev pub announced : Text → ℕ
announced v = unwrap_or (parse_uint (2 ^ 64) v) 0

-- The length that the fields give the body.
abbrev pub said_length : List (Text × List ℕ) → ℕ
said_length fields = elim (last_value (codes "content-length") fields) [
  | some v ↦ announced v
  | none ↦ 0
]

-- The values of the fields with exactly this name, in the order of the fields.
abbrev pub values_of : Text → List (Text × List ℕ) → List Text
values_of name [] = []
values_of name ((k, raw) ∷ fields) =
    let rest = values_of name fields in if k =? name then from_utf8_lossy raw ∷ rest else rest

-- What a header map holds for a name.
abbrev pub values_at : Text → Headers → List Text
values_at name [] = []
values_at name ((k, vs) ∷ hs) = let rest = values_at name hs in if k =? name then vs else rest

pub add_fields-host :
    (fields : List (Text × List ℕ)) (f : Fields)
    → (add_fields fields f).host ≡ unwrap_or (last_value (codes "host") fields) f.host
unfolding add_fields add_field
add_fields-host [] f = refl
add_fields-host ((k, raw) ∷ fields) f =
    add_fields-host fields (add_field k raw f)
    ∙ pick (last_value (codes "host") fields) (eq_ignore_ascii_case k (codes "host"))
  where
    pick :
        (later : Option Text) (b : Bool)
        → unwrap_or later (if b then from_utf8_lossy raw else f.host)
          ≡ unwrap_or
              (elim later [
                | some v ↦ some v
                | none ↦ if b then some (from_utf8_lossy raw) else none
              ])
              f.host
    pick (some v) b = refl
    pick none true = refl
    pick none false = refl

length_or : ℕ → Option Text → ℕ
length_or n none = n
length_or n (some v) = announced v

add_fields-length_or :
    (fields : List (Text × List ℕ)) (f : Fields)
    → (add_fields fields f).content_length
      ≡ length_or f.content_length (last_value (codes "content-length") fields)
unfolding add_fields add_field length_or
add_fields-length_or [] f = refl
add_fields-length_or ((k, raw) ∷ fields) f =
    add_fields-length_or fields (add_field k raw f)
    ∙ pick (last_value (codes "content-length") fields)
        (eq_ignore_ascii_case k (codes "content-length"))
  where
    pick :
        (later : Option Text) (b : Bool)
        → length_or (if b then announced (from_utf8_lossy raw) else f.content_length) later
          ≡ length_or f.content_length (elim later [
            | some v ↦ some v
            | none ↦ if b then some (from_utf8_lossy raw) else none
          ])
    pick (some v) b = refl
    pick none true = refl
    pick none false = refl

pub add_fields-length :
    (fields : List (Text × List ℕ)) (f : Fields)
    → f.content_length ≡ 0
    → (add_fields fields f).content_length ≡ said_length fields
unfolding length_or
add_fields-length fields f e =
    add_fields-length_or fields f ∙ go (last_value (codes "content-length") fields)
  where
    go :
        (later : Option Text)
        → length_or f.content_length later ≡ elim later [ some v ↦ announced v | none ↦ 0 ]
    go none = e
    go (some v) = refl

values_at-push :
    (name k v : Text) (hs : Headers)
    → values_at name (push_header k v hs)
      ≡ (if k =? name then values_at name hs ++ v ∷ [] else values_at name hs)
unfolding push_header
values_at-push name k v [] = refl
values_at-push name k v ((j, vs) ∷ hs) = elim (Bool-cases (j =? k)) [
  | inl same ↦ rw (same, =?_sound j k same) (ground arith)
  | inr differ ↦ elim (Bool-cases (j =? name)) [
    | inl at ↦
        let away : (k =? name) ≡ false =
          ap (λ s. k =? s) (sym (=?_sound j name at)) ∙ =?_comm k j ∙ differ in
        rw (differ, at, away) refl
    | inr off ↦ rw (differ, off) (values_at-push name k v hs)
  ]
]

pub values_at-add_fields :
    (name : Text) (fields : List (Text × List ℕ)) (f : Fields)
    → values_at name (add_fields fields f).header_map
      ≡ values_at name f.header_map ++ values_of name fields
unfolding add_fields add_field
values_at-add_fields name [] f = sym (append-nil (values_at name f.header_map))
values_at-add_fields name ((k, raw) ∷ fields) f =
    values_at-add_fields name fields (add_field k raw f)
    ∙ rw (values_at-push name k (from_utf8_lossy raw) f.header_map) (pick (k =? name))
  where
    pick :
        (b : Bool)
        → (if b
              then values_at name f.header_map ++ from_utf8_lossy raw ∷ []
              else values_at name f.header_map)
            ++ values_of name fields
          ≡ values_at name f.header_map
            ++ (if b then from_utf8_lossy raw ∷ values_of name fields else values_of name fields)
    pick true =
        append_assoc (values_at name f.header_map) (from_utf8_lossy raw ∷ [])
          (values_of name fields)
    pick false = refl
