-- ===== src/Workers/Holds.antt =====
-- The books of `serve_pooled` of main.rs, and each step of its accept loop as a step of the line.
use service_proxy.Workers.Line.{Line, Serves, stays, comes}
use service_proxy.Workers.{
  Channel, Acceptor, accepting, sending, returned, Worker, locking, receiving, handling, stopped,
  Event, go, accepted, accept_failed, Label, silent, arrives, Pooled, return_with, sent,
  accept_step,
}
use service_proxy.Shared.Text.{Text}
use service_proxy.Shared.Result.{ok, err}
use service_proxy.Shared.{
  ℕ, suc, ◌+◌, ◌-◌, ◌≤◌, ◌≡◌, refl, sym, ap, subst, ◌∙◌, ◌==◌, Option, none, some, List, [], ◌∷◌,
  ◌++◌, if◌then◌else◌, length, length-append, arith, append-nil,
}

-- What each worker counts for.
abbrev pub has_guard : Worker → ℕ
has_guard receiving = 1
has_guard _ = 0

abbrev pub is_live : Worker → ℕ
is_live stopped = 0
is_live _ = 1

abbrev pub is_free : Worker → ℕ
is_free locking = 1
is_free receiving = 1
is_free _ = 0

abbrev pub serves : ℕ → Worker → ℕ
serves c (handling d) = if c == d then 1 else 0
serves c _ = 0

abbrev pub pending : Acceptor → List ℕ
pending (sending conn) = conn ∷ []
pending _ = []

abbrev pub running : Acceptor → ℕ
running (returned r) = 0
running _ = 1

-- `serve_pooled` has not returned, or has returned an error.
abbrev pub HasNotEnded : Acceptor → Type 0
HasNotEnded (returned (ok u)) = ⊥
HasNotEnded _ = Unit

-- The numbers from `b` up to `a`.
abbrev pub Consecutive : ℕ → List ℕ → ℕ → Type 0
Consecutive b [] a = b ≡ a
Consecutive b (x ∷ xs) a = (x ≡ b) × Consecutive (suc b) xs a

pub Consecutive-length : (b : ℕ) (xs : List ℕ) (a : ℕ) → Consecutive b xs a → b + length xs ≡ a
Consecutive-length b [] a h = omega (arith, h)
Consecutive-length b (x ∷ xs) a h = omega (arith, Consecutive-length (suc b) xs a h.1)

Consecutive-append :
    (b : ℕ) (xs : List ℕ) (a : ℕ) → Consecutive b xs a → Consecutive b (xs ++ a ∷ []) (suc a)
Consecutive-append b [] a h = (sym h, ap suc h)
Consecutive-append b (x ∷ xs) a h = (h.0, Consecutive-append (suc b) xs a h.1)

-- The numbers that end before `a`.
abbrev pub UpTo : List ℕ → ℕ → Type 0
UpTo xs a = Consecutive (a - length xs) xs a

UpTo-begun : (xs : List ℕ) (a : ℕ) → UpTo xs a → suc a - length (xs ++ a ∷ []) ≡ a - length xs
UpTo-begun xs a h =
    omega (arith, length-append xs (a ∷ []), Consecutive-length (a - length xs) xs a h)

UpTo-append : (xs : List ℕ) (a : ℕ) → UpTo xs a → UpTo (xs ++ a ∷ []) (suc a)
UpTo-append xs a h = rw (UpTo-begun xs a h) (Consecutive-append (a - length xs) xs a h)

module _ {ch : Channel} where
  -- The connections that have arrived and have not been taken, oldest first.
  abbrev pub line : Pooled ch → List ℕ
  line p = ch.content p.chan ++ pending p.acceptor

  -- The line that `serve_pooled` keeps.
  abbrev pub line_of : Pooled ch → ℕ → (ℕ → ℕ) → Line
  line_of p idle busy = record {
    arrived = p.arrived;
    begun = p.arrived - length (line p);
    idle = idle;
    busy = busy;
  }

  -- `guards` workers have the guard and `live` have not stopped.
  pub record Books (depth : ℕ) (p : Pooled ch) (guards live : ℕ) : Type 0 where
    pub ordered : UpTo (line p) p.arrived
    pub buffer : ch.buffer p.chan ≡ depth
    pub room : length (ch.content p.chan) ≤ depth
    pub guard : guards ≡ (if p.locked then 1 else 0)
    pub clones : p.receivers ≡ running p.acceptor + live
    pub unended : HasNotEnded p.acceptor

module _ {ch : Channel} (depth : ℕ) (p p' : Pooled ch) (l : Label) (guards live idle : ℕ)
    (busy : ℕ → ℕ) (v : Books depth p guards live) where
  -- The books after a step of the accept loop, and the step of the line.
  abbrev pub Kept : Type 0
  Kept = Books depth p' guards live × Serves depth (line_of p idle busy) l (line_of p' idle busy)

  sent-Kept :
      (conn : ℕ) (q : Option ch.Chan)
      → p.acceptor ≡ sending conn
      → ch.send conn p.chan ≡ q
      → sent ch p q ≡ some (p', l)
      → Kept
  sent-Kept conn none at sends h = absurd (cc)
  sent-Kept conn (some q) at sends h =
      let (fits, last, same) = ch.send-last conn p.chan q sends in
      let to : (record p { acceptor = accepting; chan = q }) ≡ p' = cc in
      let quiet : silent ≡ l = cc in
      let moved : line p ≡ ch.content q ++ [] =
        rw (at, last) (sym (append-nil (ch.content p.chan ++ conn ∷ []))) in
      rw (← to, ← quiet)
        (
          record {
            ordered = rw (← moved) v.ordered;
            buffer = same ∙ v.buffer;
            room = omega (
              arith,
              fits,
              v.buffer,
              ap length last,
              length-append (ch.content p.chan) (conn ∷ []),
            );
            guard = v.guard;
            clones = v.clones ∙ ap (λ a. running a + live) at;
            unended = tt;
          },
          stays (rw (← moved) refl),
        )

  -- `accept` hands over a connection: it waits behind the others.
  arrive-Kept :
      p.acceptor ≡ accepting
      → ◌≡◌ {A = Option (Pooled ch × Label)}
          (some
            (record p { acceptor = sending p.arrived; arrived = suc p.arrived }, arrives p.arrived))
          (some (p', l))
      → Kept
  arrive-Kept at h =
      let to : (record p { acceptor = sending p.arrived; arrived = suc p.arrived }) ≡ p' = cc in
      let seen : arrives p.arrived ≡ l = cc in
      let old : line p ≡ ch.content p.chan = rw at (append-nil (ch.content p.chan)) in
      let waiting : UpTo (ch.content p.chan) p.arrived =
        subst (λ xs. UpTo xs p.arrived) old v.ordered in
      let same : suc p.arrived - length (ch.content p.chan ++ p.arrived ∷ [])
          ≡ p.arrived - length (line p) =
        UpTo-begun (ch.content p.chan) p.arrived waiting
        ∙ sym (ap (λ xs. p.arrived - length xs) old) in
      rw (← to, ← seen)
        (
          record {
            ordered = UpTo-append (ch.content p.chan) p.arrived waiting;
            buffer = v.buffer;
            room = v.room;
            guard = v.guard;
            clones = v.clones ∙ ap (λ a. running a + live) at;
            unended = tt;
          },
          comes
              (omega (
                arith,
                v.room,
                ap length old,
                Consecutive-length (p.arrived - length (line p)) (line p) p.arrived v.ordered,
              ))
              (rw same refl),
        )

  -- `accept` fails: the connections in the queue stay.
  refuse-Kept :
      (e : Text)
      → p.acceptor ≡ accepting
      → ◌≡◌ {A = Option (Pooled ch × Label)}
          (some (return_with ch (err e) p, silent))
          (some (p', l))
      → Kept
  refuse-Kept e at h =
      let to : return_with ch (err e) p ≡ p' = cc in
      let quiet : silent ≡ l = cc in
      let moved : line p ≡ ch.content p.chan ++ [] = rw at refl in
      let counted : p.receivers ≡ 1 + live = v.clones ∙ ap (λ a. running a + live) at in
      rw (← to, ← quiet)
        (
          record {
            ordered = rw (← moved) v.ordered;
            buffer = v.buffer;
            room = v.room;
            guard = v.guard;
            clones = omega (arith, counted);
            unended = tt;
          },
          stays (rw (← moved) refl),
        )

  pub accept-Kept :
      (a : Acceptor) (e : Event) → p.acceptor ≡ a → accept_step ch p a e ≡ some (p', l) → Kept
  unfolding accept_step
  accept-Kept accepting accepted at h = arrive-Kept at h
  accept-Kept accepting (accept_failed e) at h = refuse-Kept e at h
  accept-Kept (sending conn) go at h =
      let held : p.receivers ≡ 1 + live = v.clones ∙ ap (λ a. running a + live) at in
      sent-Kept conn (ch.send conn p.chan) at refl (ground (arith, held, h))
  accept-Kept a e at h = absurd (ground (arith, h))
