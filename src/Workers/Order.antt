-- ===== src/Workers/Order.antt =====
-- The order in which `serve_pooled` of main.rs serves connections.
use service_proxy.Workers.Holds.{serves, line, Consecutive-length}
use service_proxy.Workers.Line.{
  Line, opened, more, less, Serves, stays, leaves, comes, taken, done, lost, Runs,
}
use service_proxy.Workers.Line
use service_proxy.Workers.Refines.{line_kept, Run-kept, Run-refines}
use service_proxy.Workers.{
  Channel, Label, silent, arrives, begins, ends, breaks, Server, start, Run,
}
use service_proxy.Shared.{
  ℕ, zero, suc, ◌+◌, ◌≤◌, ◌≡◌, refl, ap, ◌∙◌, some, List, [], ◌∷◌, ◌++◌, length, length-append,
  total, append-nil, arith,
}

-- The connections that arrive and those that are begun, in the order of the labels.
abbrev pub arrivals : List Label → List ℕ
arrivals [] = []
arrivals (arrives c ∷ ls) = c ∷ arrivals ls
arrivals (_ ∷ ls) = arrivals ls

abbrev pub starts : List Label → List ℕ
starts [] = []
starts (begins c ∷ ls) = c ∷ starts ls
starts (_ ∷ ls) = starts ls

arrivals-append : (ks ls : List Label) → arrivals (ks ++ ls) ≡ arrivals ks ++ arrivals ls
arrivals-append [] ls = refl
arrivals-append (arrives c ∷ ks) ls = ap (λ xs. c ∷ xs) (arrivals-append ks ls)
arrivals-append (silent ∷ ks) ls = arrivals-append ks ls
arrivals-append (begins c ∷ ks) ls = arrivals-append ks ls
arrivals-append (ends c ∷ ks) ls = arrivals-append ks ls
arrivals-append (breaks c ∷ ks) ls = arrivals-append ks ls

pub starts-append : (ks ls : List Label) → starts (ks ++ ls) ≡ starts ks ++ starts ls
starts-append [] ls = refl
starts-append (begins c ∷ ks) ls = ap (λ xs. c ∷ xs) (starts-append ks ls)
starts-append (silent ∷ ks) ls = starts-append ks ls
starts-append (arrives c ∷ ks) ls = starts-append ks ls
starts-append (ends c ∷ ks) ls = starts-append ks ls
starts-append (breaks c ∷ ks) ls = starts-append ks ls

-- The first `n` numbers.
abbrev pub first : ℕ → List ℕ
first zero = []
first (suc n) = first n ++ n ∷ []

pub length-first : (n : ℕ) → length (first n) ≡ n
length-first zero = refl
length-first (suc n) = omega (arith, length-append (first n) (n ∷ []), length-first n)

-- The line after the labels `ls`.
record InOrder (depth : ℕ) (ls : List Label) (s : Line) : Type 0 where
  came : arrivals ls ≡ first s.arrived
  went : starts ls ≡ first s.begun
  behind : s.begun ≤ s.arrived
  short : s.arrived ≤ s.begun + depth + 1
  once : (c : ℕ) → s.busy c ≤ 1
  later_ones : (c : ℕ) → s.begun ≤ c → s.busy c ≡ 0

Serves-InOrder :
    {depth : ℕ} {ls : List Label} {s t : Line} {l : Label}
    → Serves depth s l t
    → InOrder depth ls s
    → InOrder depth (ls ++ l ∷ []) t
Serves-InOrder {ls} (stays e) v = rw e (record {
  came = arrivals-append ls (silent ∷ []) ∙ append-nil (arrivals ls) ∙ v.came;
  went = starts-append ls (silent ∷ []) ∙ append-nil (starts ls) ∙ v.went;
  behind = v.behind;
  short = v.short;
  once = v.once;
  later_ones = v.later_ones;
})
Serves-InOrder {ls} (leaves free e) v = rw e (record {
  came = arrivals-append ls (silent ∷ []) ∙ append-nil (arrivals ls) ∙ v.came;
  went = starts-append ls (silent ∷ []) ∙ append-nil (starts ls) ∙ v.went;
  behind = v.behind;
  short = v.short;
  once = v.once;
  later_ones = v.later_ones;
})
Serves-InOrder {ls} {s} (comes few e) v = rw e (record {
  came = arrivals-append ls (arrives s.arrived ∷ []) ∙ ap (λ xs. xs ++ s.arrived ∷ []) v.came;
  went = starts-append ls (arrives s.arrived ∷ []) ∙ append-nil (starts ls) ∙ v.went;
  behind = omega (arith, v.behind);
  short = omega (arith, few);
  once = v.once;
  later_ones = v.later_ones;
})
Serves-InOrder {ls} {s} (taken some_left free e) v = rw e (record {
  came = arrivals-append ls (begins s.begun ∷ []) ∙ append-nil (arrivals ls) ∙ v.came;
  went = starts-append ls (begins s.begun ∷ []) ∙ ap (λ xs. xs ++ s.begun ∷ []) v.went;
  behind = omega (arith, some_left);
  short = omega (arith, v.short);
  once = λ c. ground (arith, v.once c, v.later_ones c);
  later_ones = λ c h. ground (arith, v.later_ones c);
})
Serves-InOrder {ls} (done c served e) v = rw e (record {
  came = arrivals-append ls (ends c ∷ []) ∙ append-nil (arrivals ls) ∙ v.came;
  went = starts-append ls (ends c ∷ []) ∙ append-nil (starts ls) ∙ v.went;
  behind = v.behind;
  short = v.short;
  once = λ x. ground (arith, v.once x);
  later_ones = λ x h. ground (arith, v.later_ones x);
})
Serves-InOrder {ls} (lost c served e) v = rw e (record {
  came = arrivals-append ls (breaks c ∷ []) ∙ append-nil (arrivals ls) ∙ v.came;
  went = starts-append ls (breaks c ∷ []) ∙ append-nil (starts ls) ∙ v.went;
  behind = v.behind;
  short = v.short;
  once = λ x. ground (arith, v.once x);
  later_ones = λ x h. ground (arith, v.later_ones x);
})

Runs-InOrder :
    (depth workers : ℕ) {ls : List Label} {t : Line}
    → Runs depth (opened workers) ls t
    → InOrder depth ls t
Runs-InOrder depth workers Line.here = record {
  came = refl;
  went = refl;
  behind = omega arith;
  short = omega arith;
  once = λ c. omega arith;
  later_ones = λ c h. refl;
}
Runs-InOrder depth workers (Line.later runs step) =
    Serves-InOrder step (Runs-InOrder depth workers runs)

-- The connections that are waiting are those that have arrived and are not begun.
pub Run-waiting :
    (ch : Channel) (worker_queue_depth worker_pool_size : ℕ) {s t : Server ch} {ls : List Label}
    → start ch worker_queue_depth worker_pool_size ≡ some s
    → Run ch s ls t
    → length (starts ls) + length (line t.shared) ≡ t.shared.arrived
unfolding line_kept
Run-waiting ch depth workers {t} {ls} started run =
    let (good, runs) = Run-kept depth workers started run in
    omega (
      arith,
      ap length (Runs-InOrder depth workers runs).went,
      length-first (line_kept t).begun,
      Consecutive-length (line_kept t).begun (line t.shared) t.shared.arrived good.ordered,
    )

-- In every run of `serve_pooled` and its workers the connections are accepted in the order of their
-- numbers and taken by the workers in the same order, each once and none left out: those taken are
-- the first `k` of those accepted. At most one more than the depth of the queue is accepted and not
-- taken, and no connection is handled by two workers at once.
pub Run-in_order :
    (ch : Channel) (worker_queue_depth worker_pool_size : ℕ) {s t : Server ch} {ls : List Label}
    → start ch worker_queue_depth worker_pool_size ≡ some s
    → Run ch s ls t
    → (arrivals ls ≡ first t.shared.arrived)
      × (k : ℕ) × (starts ls ≡ first k)
      × (k ≤ t.shared.arrived)
      × (t.shared.arrived ≤ k + worker_queue_depth + 1)
      × ((c : ℕ) → total (serves c) t.workers ≤ 1)
unfolding line_kept
Run-in_order ch worker_queue_depth worker_pool_size {t} {ls} started run =
    (v.came, (line_kept t).begun, v.went, v.behind, v.short, v.once)
  where
    v : InOrder worker_queue_depth ls (line_kept t)
    v =
        Runs-InOrder worker_queue_depth worker_pool_size
          (Run-refines ch worker_queue_depth worker_pool_size started run)
