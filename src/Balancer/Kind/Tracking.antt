-- ===== src/Balancer/Kind/Tracking.antt =====
-- The in-flight counts of a counting selector of upstream/balancer.rs against the tokens that its
-- callers hold: the calls as a step relation, and the counts as an invariant of it.
use service_proxy.Balancer.Counters.Laws.{
  IsAligned, picked, picked-IsAligned, released, released-IsAligned, new-IsAligned,
}
use service_proxy.Balancer.Counters
use service_proxy.Balancer.Counters.{Counters}
use service_proxy.Balancer.Kind.Serves.{
  counters_of, Serves, next-Serves, release-released, stats-inflight,
}
use service_proxy.Balancer.Kind.{
  SelectorKind, next, release, stats, new_selector, lb_round_robin, lb_least_conn, lb_p2c,
}
use service_proxy.Balancer.Rng.{Rng}
use service_proxy.Balancer.Counters.Stats.{cleared, cleared-IsAligned}
use service_proxy.Shared.{
  ℕ, ◌+◌, ◌%◌, ◌^◌, ◌≤◌, ◌<◌, ◌≡◌, subst, ◌⊎◌, inl, inr, none, some, List, [], ◌∷◌, ◌++◌, map, Bool,
  arith, length, get_elem?, get_elem?-modify, get_elem?-replicate, ap, ◌∙◌, count, count-append,
  ◌==◌, if◌then◌else◌,
}
use service_proxy.Shared.Text.{Text}

-- A selector with `n` upstreams while its callers hold the tokens `held`.
pub record Tracks (n : ℕ) (held : List ℕ) (c : Counters) : Type 0 where
  pub aligned : IsAligned c n
  pub inflights : (i : ℕ) → i < n → get_elem? c.inflight i ≡ some (count i held % 2 ^ 64)

pick-Tracks :
    {n : ℕ} {held : List ℕ} {c : Counters} (idx : ℕ)
    → idx < n
    → Tracks n held c
    → Tracks n (idx ∷ held) (picked idx c)
pick-Tracks {n} {held} {c} idx h t = record {
  aligned = picked-IsAligned idx t.aligned;
  inflights =
      λ i lt. get_elem?-modify c.inflight idx i _ (t.inflights i lt) ∙ ap some (ground arith);
}

count-drop :
    (i tok : ℕ) (xs ys : List ℕ)
    → count i (xs ++ tok ∷ ys) ≡ count i (xs ++ ys) + (if i == tok then 1 else 0)
count-drop i tok xs ys = ground (arith, count-append i xs (tok ∷ ys), count-append i xs ys)

release-Tracks :
    {n : ℕ} (xs ys : List ℕ) (tok : ℕ) {c : Counters}
    → tok < n
    → Tracks n (xs ++ tok ∷ ys) c
    → Tracks n (xs ++ ys) (released tok c)
release-Tracks {n} xs ys tok {c} h t = record {
  aligned = released-IsAligned tok t.aligned;
  inflights = λ i lt.
      get_elem?-modify c.inflight tok i _ (t.inflights i lt)
      ∙ ap some (ground (arith, count-drop i tok xs ys));
}

-- A selector, the random numbers to come, and the tokens that callers hold.
pub record System (r : Rng) : Type 0 where
  pub kind : SelectorKind
  pub gen : r.State
  pub held : List ℕ

-- One call of the selector. A token is given back by a caller that holds it.
pub data Step (r : Rng) (s : System r) : System r → Type 0 where
  takes :
      {k : SelectorKind} {g : r.State} (addr : Text) (token : ℕ)
      → next r (s.kind, s.gen) ≡ ((k, g), some (addr, token))
      → Step r s (record { kind = k; gen = g; held = token ∷ s.held })
  panics :
      {k : SelectorKind} {g : r.State}
      → next r (s.kind, s.gen) ≡ ((k, g), none)
      → Step r s (record { kind = k; gen = g; held = s.held })
  gives :
      (before : List ℕ) (token : ℕ) (after : List ℕ)
      → s.held ≡ before ++ token ∷ after
      → Step r s (record s { kind = (release token s.kind).0; held = before ++ after })
  reports : (reset : Bool) → Step r s (record s { kind = (stats reset s.kind).0 })

pub data Reach (r : Rng) (s : System r) : System r → Type 0 where
  here : Reach r s s
  later : {t u : System r} → Reach r s t → Step r t u → Reach r s u

abbrev pub AllBelow : ℕ → List ℕ → Type 0
AllBelow n [] = Unit {0}
AllBelow n (x ∷ xs) = (x < n) × AllBelow n xs

pub record IsTracking {r : Rng} (n : ℕ) (s : System r) : Type 0 where
  pub counters : Counters
  pub counted : counters_of s.kind ≡ some counters
  pub tracks : Tracks n s.held counters
  pub tokens : AllBelow n s.held

AllBelow-drop :
    (n : ℕ) (xs : List ℕ) (x : ℕ) (ys : List ℕ)
    → AllBelow n (xs ++ x ∷ ys)
    → (x < n) × AllBelow n (xs ++ ys)
AllBelow-drop n [] x ys h = h
AllBelow-drop n (z ∷ xs) x ys h = let (lt, rest) = AllBelow-drop n xs x ys h.1 in (lt, (h.0, rest))

-- The token that was handed out is the index that was picked.
take-IsTracking :
    {r : Rng} {n : ℕ} {held : List ℕ} {c : Counters} (k : SelectorKind) (g : r.State) (addr : Text)
    (token : ℕ)
    → n ≤ 2 ^ 31
    → Tracks n held c
    → AllBelow n held
    → Serves n c k (some (addr, token))
    → IsTracking {r = r} n (record { kind = k; gen = g; held = token ∷ held })
take-IsTracking k g addr token small t below (inl (e, _)) = absurd (cc)
take-IsTracking {r} {n} {held} {c} k g addr token small t below
      (inr (idx, a, lt, at, out, counted)) =
    let same : token ≡ idx = ground arith in
    rw same (record {
      counters = picked idx c;
      counted = counted;
      tracks = pick-Tracks idx lt t;
      tokens = (lt, below);
    })

panic-IsTracking :
    {r : Rng} {n : ℕ} {held : List ℕ} {c : Counters} (k : SelectorKind) (g : r.State)
    → Tracks n held c
    → AllBelow n held
    → Serves n c k none
    → IsTracking {r = r} n (record { kind = k; gen = g; held = held })
panic-IsTracking {c} k g t below (inl (e, counted)) = record {
  counters = c;
  counted = counted;
  tracks = t;
  tokens = below;
}
panic-IsTracking k g t below (inr (idx, a, lt, at, out, counted)) = absurd (cc)

-- Every call keeps the in-flight counts equal to the tokens held.
pub Step-IsTracking :
    {r : Rng} {n : ℕ} {s t : System r}
    → 0 < n
    → n ≤ 2 ^ 31
    → Step r s t
    → IsTracking n s
    → IsTracking n t
Step-IsTracking {r} {n} {s} pos small (takes {k} {g} addr token e) v =
    take-IsTracking k g addr token small v.tracks v.tokens (
      subst (λ p. Serves n v.counters p.0.0 p.1) e
        (next-Serves r s.kind s.gen pos v.counted v.tracks.aligned))
Step-IsTracking {r} {n} {s} pos small (panics {k} {g} e) v =
    panic-IsTracking k g v.tracks v.tokens (
      subst (λ p. Serves n v.counters p.0.0 p.1) e
        (next-Serves r s.kind s.gen pos v.counted v.tracks.aligned))
Step-IsTracking {r} {n} {s} pos small (gives before token after e) v =
    let (lt, rest) = AllBelow-drop n before token after (subst (AllBelow n) e v.tokens) in
    record {
      counters = released token v.counters;
      counted = release-released s.kind small lt v.counted v.tracks.aligned;
      tracks =
          release-Tracks before after token lt
            (subst (λ held. Tracks n held v.counters) e v.tracks);
      tokens = rest;
    }
Step-IsTracking {r} {n} {s} pos small (reports reset) v = record {
  counters = record v.counters { total = map (cleared reset) v.counters.total };
  counted = stats-inflight reset s.kind v.counted v.tracks.aligned;
  tracks = record {
    aligned = cleared-IsAligned reset v.tracks.aligned;
    inflights = v.tracks.inflights;
  };
  tokens = v.tokens;
}

abbrev pub start : (r : Rng) → List Text → Text → r.State → System r
start r addrs strategy g = record { kind = new_selector addrs strategy; gen = g; held = [] }

abbrev pub Counting : Text → Type 0
Counting strategy = (strategy ≡ lb_round_robin) ⊎ (strategy ≡ lb_least_conn) ⊎ (strategy ≡ lb_p2c)

new_selector-counters :
    (addrs : List Text) (strategy : Text)
    → Counting strategy
    → counters_of (new_selector addrs strategy) ≡ some (Counters.new addrs)
unfolding new_selector
new_selector-counters addrs strategy (inl e) = rw e
new_selector-counters addrs strategy (inr (inl e)) = rw e
new_selector-counters addrs strategy (inr (inr e)) = rw e

pub start-IsTracking :
    (r : Rng) (addrs : List Text) (strategy : Text) (g : r.State)
    → Counting strategy
    → IsTracking (length addrs) (start r addrs strategy g)
unfolding Counters.new
start-IsTracking r addrs strategy g c = record {
  counters = Counters.new addrs;
  counted = new_selector-counters addrs strategy c;
  tracks = record {
    aligned = new-IsAligned addrs;
    inflights = λ i lt. get_elem?-replicate (length addrs) 0 i lt;
  };
  tokens = tt;
}

pub Reach-IsTracking :
    {r : Rng} {n : ℕ} {s t : System r}
    → 0 < n
    → n ≤ 2 ^ 31
    → IsTracking n s
    → Reach r s t
    → IsTracking n t
Reach-IsTracking pos small v here = v
Reach-IsTracking pos small v (later reach step) =
    Step-IsTracking pos small step (Reach-IsTracking pos small v reach)
