-- ===== src/Workers/Fills.antt =====
-- The accept loop of `serve_pooled` of main.rs fills the queue by itself.
use service_proxy.Workers.Holds.{HasNotEnded, running, is_live, line}
use service_proxy.Workers.Order.{starts}
use service_proxy.Workers.Refines.{Good, Step-serves}
use service_proxy.Workers.{
  Channel, Acceptor, accepting, sending, returned, go, Label, silent, arrives, Server, accepted,
  accept_step, Step, accepts, Run, here, later,
}
use service_proxy.Workers.Runs.{Run-append}
use service_proxy.Shared.Result.{ok, err}
use service_proxy.Shared.Text.{Text}
use service_proxy.Shared.{
  ℕ, zero, suc, ◌+◌, ◌-◌, ◌<◌, ◌≡◌, ◌==◌, refl, ap, subst, ◌∙◌, ◌⊎◌, inl, inr, false, List, [], ◌∷◌,
  ◌++◌, length, length-append, total, arith,
}

module _ {ch : Channel} where
  -- The loop waits for room with a connection in its hands.
  pub record Filled (depth : ℕ) (u : Server ch) : Type 0 where
    pub last : Server ch
    pub labels : List Label
    pub run : Run ch u labels last
    pub nothing : starts labels ≡ []
    pub full : length (line last.shared) ≡ suc depth

  -- A connection is accepted.
  arrive :
      (u : Server ch)
      → u.shared.acceptor ≡ accepting
      → Step ch u (arrives u.shared.arrived) (record u {
        shared = record u.shared {
          acceptor = sending u.shared.arrived;
          arrived = suc u.shared.arrived;
        };
      })
  unfolding accept_step
  arrive u at = accepts accepted (rw (at, accept_step) refl)

  -- A connection is sent where the queue has room.
  send :
      (depth c : ℕ) (u : Server ch)
      → u.shared.acceptor ≡ sending c
      → Good depth u
      → length (ch.content u.shared.chan) < depth
      → (q : ch.Chan) × Step ch u silent
          (record u { shared = record u.shared { acceptor = accepting; chan = q } })
        × (ch.content q ≡ ch.content u.shared.chan ++ c ∷ [])
  unfolding accept_step
  send depth c u at good room =
      let (q, sends) = ch.send-room c u.shared.chan (omega (arith, room, good.buffer)) in
      let (_, last, _) = ch.send-last c u.shared.chan q sends in
      let held : u.shared.receivers ≡ 1 + total is_live u.workers =
        good.clones ∙ ap (λ a. running a + total is_live u.workers) at in
      let some_left : (u.shared.receivers == 0) ≡ false = ground (arith, held) in
      (q, accepts go (rw (at, accept_step) (rw some_left (rw sends refl))), last)

  sends :
      (n depth c : ℕ) (u : Server ch)
      → u.shared.acceptor ≡ sending c
      → Good depth u
      → length (ch.content u.shared.chan) + n ≡ depth
      → Filled depth u
  sends zero depth c u at good free = record {
    last = u;
    labels = [];
    run = here;
    nothing = refl;
    full = rw at (omega (arith, free, length-append (ch.content u.shared.chan) (c ∷ [])));
  }
  sends (suc n) depth c u at good free =
      let (q, first, longer) = send depth c u at good (omega (arith, free)) in
      let u1 : Server ch = record u {
        shared = record u.shared { acceptor = accepting; chan = q };
      } in
      let second = arrive u1 refl in
      let kept = (Step-serves depth second (Step-serves depth first good).0).0 in
      let rest = sends n depth u.shared.arrived _ refl kept (
        omega (arith, free, ap length longer, length-append (ch.content u.shared.chan) (c ∷ []))) in
      record {
        last = rest.last;
        labels = (silent ∷ arrives u.shared.arrived ∷ []) ++ rest.labels;
        run = Run-append (later (later here first) second) rest.run;
        nothing = rest.nothing;
        full = rest.full;
      }

  -- Where `accept` has not failed, the loop goes on until the queue is full.
  pub fills :
      (depth : ℕ) (u : Server ch)
      → Good depth u
      → ((e : Text) × (u.shared.acceptor ≡ returned (err e))) ⊎ Filled depth u
  fills depth u good = go_on u.shared.acceptor refl
    where
      go_on :
          (a : Acceptor)
          → u.shared.acceptor ≡ a
          → ((e : Text) × (u.shared.acceptor ≡ returned (err e))) ⊎ Filled depth u
      go_on (returned (err e)) at = inl (e, at)
      go_on (returned (ok o)) at = absurd (subst HasNotEnded at good.unended)
      go_on (sending c) at = inr (
          sends (depth - length (ch.content u.shared.chan)) depth c u at good
            (omega (arith, good.room)))
      go_on accepting at =
          let first = arrive u at in
          let kept = (Step-serves depth first good).0 in
          let rest =
            sends (depth - length (ch.content u.shared.chan)) depth u.shared.arrived _ refl kept
              (omega (arith, good.room)) in
          inr (record {
            last = rest.last;
            labels = (arrives u.shared.arrived ∷ []) ++ rest.labels;
            run = Run-append (later here first) rest.run;
            nothing = rest.nothing;
            full = rest.full;
          })
