-- ===== src/Dial/RoundTrip/Maps.antt =====
-- The header maps of upstream/dial.rs: keys that differ, and what `push_header` does at a new key
-- and at the last one.
use service_proxy.Dial.Types.{Headers, push_header}
use service_proxy.Dial.Wire.{is_framing}
use service_proxy.Shared.Strings.{is_empty, to_ascii_lowercase}
use service_proxy.Shared.Text.{Text, ◌=?◌, =?_refl, =?_comm, =?_sound}
use service_proxy.Shared.{
  ◌≡◌, refl, ap, ◌∙◌, inl, inr, true, false, ◌||◌, List, [], ◌∷◌, ◌++◌, arith, Bool-cases,
  if◌then◌else◌,
}

-- `k` is not a key of the map.
abbrev pub Fresh : Text → Headers → Type 0
Fresh k [] = Unit {0}
Fresh k ((j, vs) ∷ hs) = ((j =? k) ≡ false) × Fresh k hs

-- No key stands twice, as in every `HashMap`.
abbrev pub DistinctKeys : Headers → Type 0
DistinctKeys [] = Unit {0}
DistinctKeys ((k, vs) ∷ hs) = Fresh k hs × DistinctKeys hs

-- No key of `hs` is a key of `acc`.
abbrev pub Separate : Headers → Headers → Type 0
Separate [] acc = Unit {0}
Separate ((k, vs) ∷ hs) acc = Fresh k acc × Separate hs acc

pub Separate-nil : (hs : Headers) → Separate hs []
Separate-nil [] = tt
Separate-nil ((k, vs) ∷ hs) = (tt, Separate-nil hs)

pub Fresh-snoc :
    (j k : Text) (vs : List Text) (acc : Headers)
    → Fresh j acc
    → (k =? j) ≡ false
    → Fresh j (acc ++ (k, vs) ∷ [])
Fresh-snoc j k vs [] h e = (e, tt)
Fresh-snoc j k vs ((i, ws) ∷ acc) h e = (h.0, Fresh-snoc j k vs acc h.1 e)

pub Separate-snoc :
    (hs acc : Headers) (k : Text) (vs : List Text)
    → Separate hs acc
    → Fresh k hs
    → Separate hs (acc ++ (k, vs) ∷ [])
Separate-snoc [] acc k vs s f = tt
Separate-snoc ((j, ws) ∷ hs) acc k vs s f =
    (Fresh-snoc j k vs acc s.0 (=?_comm k j ∙ f.0), Separate-snoc hs acc k vs s.1 f.1)

pub push_header-new :
    (k v : Text) (acc : Headers) → Fresh k acc → push_header k v acc ≡ acc ++ (k, v ∷ []) ∷ []
unfolding push_header
push_header-new k v [] f = refl
push_header-new k v ((j, vs) ∷ acc) f = rw f.0 (ap (◌∷◌ (j, vs)) (push_header-new k v acc f.1))

pub push_header-last :
    (k v : Text) (vs : List Text) (acc : Headers)
    → Fresh k acc
    → push_header k v (acc ++ (k, vs) ∷ []) ≡ acc ++ (k, vs ++ v ∷ []) ∷ []
unfolding push_header
push_header-last k v vs [] f = rw (=?_refl k)
push_header-last k v vs ((j, ws) ∷ acc) f =
    rw f.0 (ap (◌∷◌ (j, ws)) (push_header-last k v vs acc f.1))

-- The headers of a response that reach the reader: not those that frame the message, nor a key
-- without values.
abbrev pub kept : Headers → Headers
kept [] = []
kept ((k, vs) ∷ hs) =
    if is_framing (to_ascii_lowercase k) || is_empty vs then kept hs else (k, vs) ∷ kept hs

framing_ne :
    (k name : Text)
    → is_framing (to_ascii_lowercase k) ≡ false
    → is_framing (to_ascii_lowercase name) ≡ true
    → (k =? name) ≡ false
framing_ne k name h e = elim (Bool-cases (k =? name)) [
  | inl same ↦
      let equal : k ≡ name = =?_sound k name same in
      absurd (cc (ap (λ s. is_framing (to_ascii_lowercase s)) equal))
  | inr differ ↦ differ
]

-- A name that frames the message is no key that is kept.
pub kept-Fresh :
    (name : Text) (hs : Headers)
    → is_framing (to_ascii_lowercase name) ≡ true
    → Fresh name (kept hs)
kept-Fresh name [] e = tt
kept-Fresh name ((k, vs) ∷ hs) e =
    elim (Bool-cases (is_framing (to_ascii_lowercase k) || is_empty vs)) [
      | inl out ↦ rw out (kept-Fresh name hs e)
      | inr stays ↦ rw stays (framing_ne k name (ground arith) e, kept-Fresh name hs e)
    ]
