-- ===== src/Workers/Works.antt =====
-- Each step of a worker of `serve_pooled` of main.rs as a step of the line.
use service_proxy.Workers.Holds.{
  has_guard, is_live, is_free, serves, pending, Consecutive, UpTo, Consecutive-length, line,
  line_of, Books,
}
use service_proxy.Workers.Line.{Line-eq, Serves, stays, leaves, taken, done, lost}
use service_proxy.Workers.{
  Channel, Acceptor, accepting, sending, returned, Worker, locking, receiving, handling, stopped,
  Event, go, handled, panicked, Label, silent, begins, ends, breaks, Pooled, drop_rx, unlock,
  received, worker_step,
}
use service_proxy.Shared.{
  ℕ, suc, ◌+◌, ◌-◌, ◌<◌, ◌≡◌, refl, sym, ap, subst, ◌∙◌, true, false, Option, none, some, List, ◌∷◌,
  ◌++◌, length, arith,
}

-- The first number of those that end before `a`.
UpTo-first :
    (x : ℕ) (xs : List ℕ) (a : ℕ)
    → UpTo (x ∷ xs) a
    → (x ≡ a - length (x ∷ xs)) × UpTo xs a × (suc x ≡ a - length xs) × (x < a)
UpTo-first x xs a h =
    let counted : suc (a - length (x ∷ xs)) + length xs ≡ a =
      Consecutive-length (suc (a - length (x ∷ xs))) xs a h.1 in
    let next : suc (a - length (x ∷ xs)) ≡ a - length xs = omega (arith, counted) in
    (
      h.0,
      subst (λ b. Consecutive b xs a) next h.1,
      omega (arith, h.0, next),
      omega (arith, h.0, counted),
    )

-- The other workers hold `guards` guards, `live` of them have not stopped, `idle` of them are free,
-- and `busy c` of them serve connection `c`.
module _ {ch : Channel} (depth : ℕ) (p p' : Pooled ch) (w' : Worker) (l : Label)
    (guards live idle : ℕ) (busy : ℕ → ℕ) where
  abbrev pub Kept : Worker → Type 0
  Kept w =
      Books depth p' (guards + has_guard w') (live + is_live w')
      × Serves depth (line_of p (idle + is_free w) (λ c. busy c + serves c w)) l
          (line_of p' (idle + is_free w') (λ c. busy c + serves c w'))

  abbrev Before : Worker → Type 0
  Before w = Books depth p (guards + has_guard w) (live + is_live w)

  abbrev Steps : Option (Pooled ch × Worker × Label) → Type 0
  Steps o = o ≡ some (p', w', l)

  lock-Kept :
      Steps (some (record p { locked = true }, receiving, silent))
      → p.locked ≡ false
      → Before locking
      → Kept locking
  lock-Kept h free v =
      let to : (record p { locked = true }) ≡ p' = cc in
      let who : receiving ≡ w' = cc in
      let quiet : silent ≡ l = cc in
      rw (← to, ← who, ← quiet)
        (
          record {
            ordered = v.ordered;
            buffer = v.buffer;
            room = v.room;
            guard = ground (arith, v.guard);
            clones = v.clones;
            unended = v.unended;
          },
          stays refl,
        )

  done-Kept :
      (conn : ℕ)
      → Steps (some (p, locking, ends conn))
      → Before (handling conn)
      → Kept (handling conn)
  done-Kept conn h v =
      let to : p ≡ p' = cc in
      let who : locking ≡ w' = cc in
      let seen : ends conn ≡ l = cc in
      rw (← to, ← who, ← seen)
        (
          record v {},
          done conn (ground arith) (Line-eq _ _ refl refl (omega arith) (λ c. ground arith)),
        )

  panic-Kept :
      (conn : ℕ)
      → Steps (some (drop_rx ch p, stopped, breaks conn))
      → Before (handling conn)
      → Kept (handling conn)
  panic-Kept conn h v =
      let to : drop_rx ch p ≡ p' = cc in
      let who : stopped ≡ w' = cc in
      let seen : breaks conn ≡ l = cc in
      rw (← to, ← who, ← seen)
        (
          record {
            ordered = v.ordered;
            buffer = v.buffer;
            room = v.room;
            guard = v.guard;
            clones = omega (arith, v.clones);
            unended = v.unended;
          },
          lost conn (ground arith) (Line-eq _ _ refl refl (omega arith) (λ c. ground arith)),
        )

  close-Kept :
      Steps (some (drop_rx ch (unlock ch p), stopped, silent)) → Before receiving → Kept receiving
  close-Kept h v =
      let to : drop_rx ch (unlock ch p) ≡ p' = cc in
      let who : stopped ≡ w' = cc in
      let quiet : silent ≡ l = cc in
      rw (← to, ← who, ← quiet)
        (
          record {
            ordered = v.ordered;
            buffer = v.buffer;
            room = v.room;
            guard = ground (arith, v.guard);
            clones = omega (arith, v.clones);
            unended = v.unended;
          },
          leaves (omega arith) (Line-eq _ _ refl refl (omega arith) (λ c. omega arith)),
        )

  take-Kept :
      (conn : ℕ) (q : ch.Chan)
      → ch.recv p.chan ≡ some (conn, q)
      → Steps (some (record p { chan = q; locked = false }, handling conn, begins conn))
      → Before receiving
      → Kept receiving
  take-Kept conn q gets h v =
      let to : (record p { chan = q; locked = false }) ≡ p' = cc in
      let who : handling conn ≡ w' = cc in
      let seen : begins conn ≡ l = cc in
      let (first, same) = ch.recv-first conn p.chan q gets in
      let split : line p ≡ conn ∷ (ch.content q ++ pending p.acceptor) = rw first refl in
      let (at, rest, next, lt) =
        UpTo-first conn (ch.content q ++ pending p.acceptor) p.arrived
          (subst (λ xs. UpTo xs p.arrived) split v.ordered) in
      let begun : conn ≡ p.arrived - length (line p) =
        at ∙ sym (ap (λ xs. p.arrived - length xs) split) in
      rw (← to, ← who, ← seen)
        (
          record {
            ordered = rest;
            buffer = same ∙ v.buffer;
            room = omega (arith, v.room, ap length first);
            guard = ground (arith, v.guard);
            clones = v.clones;
            unended = v.unended;
          },
          subst
              (λ c. Serves depth (line_of p (idle + 1) (λ x. busy x + 0)) (begins c) (
                line_of (record p { chan = q; locked = false }) (idle + 0)
                  (λ x. busy x + serves x (handling conn))))
              (sym begun)
              (taken (omega (arith, begun, lt)) (omega arith) (
                Line-eq _ _ refl (omega (arith, begun, next)) (omega arith)
                  (λ c. ground (arith, begun)))),
        )

  received-Kept :
      (a : Acceptor) (o : Option (ℕ × ch.Chan))
      → ch.recv p.chan ≡ o
      → Steps (received ch p a o)
      → Before receiving
      → Kept receiving
  received-Kept a (some (conn, q)) gets h v = take-Kept conn q gets h v
  received-Kept (returned r) none gets h v = close-Kept h v
  received-Kept accepting none gets h v = absurd (cc)
  received-Kept (sending c) none gets h v = absurd (cc)

  pub worker-Kept : (w : Worker) (e : Event) → Steps (worker_step ch p w e) → Before w → Kept w
  unfolding worker_step
  worker-Kept locking go h v = lock-Kept (ground (arith, h)) (ground (arith, h)) v
  worker-Kept receiving go h v = received-Kept p.acceptor (ch.recv p.chan) refl h v
  worker-Kept (handling conn) handled h v = done-Kept conn h v
  worker-Kept (handling conn) panicked h v = panic-Kept conn h v
  worker-Kept w e h v = absurd (ground (arith, h))
