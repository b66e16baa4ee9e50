-- ===== src/Handlers/InFlight.antt =====
-- The in-flight counts while handlers run side by side.
use service_proxy.Balancer.Counters.{Counters}
use service_proxy.Balancer.Kind
use service_proxy.Balancer.Kind.InFlight.{Reach-inflight}
use service_proxy.Balancer.Kind.Tracking
use service_proxy.Balancer.Kind.Tracking.{start, Counting, takes, panics, gives}
use service_proxy.Balancer.Kind.Serves.{counters_of}
use service_proxy.Balancer.Kind.{SelectorKind}
use service_proxy.Balancer.Rng.{Rng}
use service_proxy.Handlers.{
  Handler, reading, choosing, forwarding, finished, Event, go, arrived, unreadable, forwarded,
  handler_step, System, init, Step, moves, Reach, here, later,
}
use service_proxy.Proxy.{give_back}
use service_proxy.Shared.Text.{Text}
use service_proxy.Shared.{
  ℕ, ◌+◌, ◌%◌, ◌^◌, ◌≤◌, ◌<◌, ◌≡◌, refl, sym, ap, subst, ◌∙◌, ◌==◌, inl, inr, none, some, List, [],
  ◌∷◌, ◌++◌, if◌then◌else◌, length, get_elem?, set, count, count-append, total, total-replicate,
  others_before, others_after, arith, Option-cases, Bool-cases, ==_iff,
}

-- Whether a handler is forwarding with a token.
abbrev pub forwards : ℕ → Handler → ℕ
forwards tok (forwarding addr held) = if tok == held then 1 else 0
forwards tok _ = 0

-- A number that is counted stands somewhere.
count-split :
    (a : ℕ) (xs : List ℕ) → 0 < count a xs → (ys : List ℕ) × (zs : List ℕ) × (xs ≡ ys ++ a ∷ zs)
count-split a [] h = absurd (omega arith)
count-split a (x ∷ xs) h = elim (Bool-cases (a == x)) [
  | inl same ↦ ([], xs, ap (λ b. b ∷ xs) (sym ((==_iff a x).0 same)))
  | inr other ↦
      let (ys, zs, e) = count-split a xs (ground (arith, other, h)) in
      (x ∷ ys, zs, ap (λ l. x ∷ l) e)
]

module _ (r : Rng) where
  -- The callers of the selector behind the handlers: they hold the tokens that are forwarded with.
  record Callers (from : Tracking.System r) (s : System r) : Type 0 where
    held : List ℕ
    reach : Tracking.Reach r from (record { kind = s.selector.0; gen = s.selector.1; held = held })
    matched : (tok : ℕ) → count tok held ≡ total (forwards tok) s.handlers

  -- What one handler does, next to the others.
  record Moved (from : Tracking.System r) (selector : SelectorKind × r.State) (t : Handler)
      (others : ℕ → ℕ) : Type 0 where
    held : List ℕ
    reach : Tracking.Reach r from (record { kind = selector.0; gen = selector.1; held = held })
    matched : (tok : ℕ) → count tok held ≡ others tok + forwards tok t

  module _ (from : Tracking.System r) (selector selector' : SelectorKind × r.State) (t' : Handler)
      (others : ℕ → ℕ) where
    stays_put :
        (t : Handler)
        → selector ≡ selector'
        → ((tok : ℕ) → forwards tok t ≡ forwards tok t')
        → Moved from selector t others
        → Moved from selector' t' others
    stays_put t same equal v =
        subst (λ q. Moved from q t' others) same
          (record {
            held = v.held;
            reach = v.reach;
            matched = λ tok. v.matched tok ∙ ap (λ k. others tok + k) (equal tok);
          })

    chooses :
        (out : Text × ℕ)
        → Kind.next r selector ≡ (selector', some out)
        → forwarding out.0 out.1 ≡ t'
        → Moved from selector choosing others
        → Moved from selector' t' others
    chooses (addr, token) next who v = rw (← who) (record {
      held = token ∷ v.held;
      reach = Tracking.later v.reach (takes addr token next);
      matched = λ tok. ground (arith, v.matched tok);
    })

    breaks :
        Kind.next r selector ≡ (selector', none)
        → finished ≡ t'
        → Moved from selector choosing others
        → Moved from selector' t' others
    breaks next who v = rw (← who) (record {
      held = v.held;
      reach = Tracking.later v.reach (panics next);
      matched = v.matched;
    })

    returns :
        (addr : Text) (token : ℕ)
        → (give_back r token selector).0 ≡ selector'
        → finished ≡ t'
        → Moved from selector (forwarding addr token) others
        → Moved from selector' t' others
    unfolding give_back
    returns addr token back who v =
        let (xs, ys, e) = count-split token v.held (ground (arith, v.matched token)) in
        rw (← who, ← back)
          (record {
            held = xs ++ ys;
            reach = Tracking.later v.reach (gives xs token ys e);
            matched = λ tok. ground (
              arith,
              v.matched tok,
              ap (count tok) e,
              count-append tok xs (token ∷ ys),
              count-append tok xs ys,
            );
          })

    step-Moved :
        (t : Handler) (e : Event)
        → handler_step r selector t e ≡ some (selector', t')
        → Moved from selector t others
        → Moved from selector' t' others
    unfolding handler_step
    step-Moved reading arrived h v =
        let same : selector ≡ selector' = cc in
        let who : choosing ≡ t' = cc in stays_put reading same (λ tok. rw (← who) refl) v
    step-Moved reading unreadable h v =
        let same : selector ≡ selector' = cc in
        let who : finished ≡ t' = cc in stays_put reading same (λ tok. rw (← who) refl) v
    step-Moved choosing go h v = elim (Option-cases (Kind.next r selector).1) [
      | inl panicked ↦ breaks (ground (arith, panicked, h)) (ground (arith, panicked, h)) v
      | inr (out, picked) ↦ chooses out (ground (arith, picked, h)) (ground (arith, picked, h)) v
    ]
    step-Moved (forwarding addr tok) forwarded h v =
        let back : (give_back r tok selector).0 ≡ selector' = cc in
        let who : finished ≡ t' = cc in returns addr tok back who v
    step-Moved t e h v = absurd (ground (arith, h))

  Step-Callers :
      {from : Tracking.System r} {s u : System r} → Step r s u → Callers from s → Callers from u
  Step-Callers {from} {s} (moves i e {t} {t'} {selector} at step) v = record {
    held = moved.held;
    reach = moved.reach;
    matched = λ tok.
        moved.matched tok ∙ others_after (forwards tok) {z = finished} refl s.handlers i t at t';
  }
    where
      moved : Moved from selector t' (λ tok. total (forwards tok) (set s.handlers i finished))
      moved =
          step-Moved from s.selector selector t'
            (λ tok. total (forwards tok) (set s.handlers i finished)) t e step
            (record {
              held = v.held;
              reach = v.reach;
              matched = λ tok.
                  v.matched tok
                  ∙ sym (others_before (forwards tok) {z = finished} refl s.handlers i t at);
            })

  Reach-Callers :
      (addrs : List Text) (strategy : Text) (g : r.State) (n : ℕ) {s : System r}
      → Reach r (init r addrs strategy g n) s
      → Callers (start r addrs strategy g) s
  Reach-Callers addrs strategy g n here = record {
    held = [];
    reach = Tracking.here;
    matched = λ tok. sym (total-replicate (forwards tok) n reading refl);
  }
  Reach-Callers addrs strategy g n (later reach step) =
      Step-Callers step (Reach-Callers addrs strategy g n reach)

  -- While `n` handlers run over one selector that counts, in every state that they reach, however
  -- their steps interleave, whichever requests cannot be read and wherever `next` panics: the
  -- in-flight count of each upstream is the number of handlers that are forwarding to it, modulo
  -- 2 ^ 64. It holds for at least one upstream and at most 2 ^ 31.
  pub handlers-inflight :
      (addrs : List Text) (strategy : Text) (g : r.State) (n : ℕ) {s : System r}
      → Counting strategy
      → 0 < length addrs
      → length addrs ≤ 2 ^ 31
      → Reach r (init r addrs strategy g n) s
      → (c : Counters) × (counters_of s.selector.0 ≡ some c)
        × ((i : ℕ)
            → i < length addrs
            → get_elem? c.inflight i ≡ some (total (forwards i) s.handlers % 2 ^ 64))
  handlers-inflight addrs strategy g n counting pos small reach =
      let v = Reach-Callers addrs strategy g n reach in
      let (c, counted, inflights) = Reach-inflight r addrs strategy g counting pos small v.reach in
      (c, counted, λ i lt. inflights i lt ∙ ap (λ k. some (k % 2 ^ 64)) (v.matched i))
