-- ===== src/Pool/Invariant.antt =====
-- The accounts of upstream/pool.rs in the states that its tasks reach.
use service_proxy.Pool.Weights.{charge, slot, owns, live, Books, step-Books, step-max_size}
use service_proxy.Pool.{
  Pool, new, Task, looking, overflowing, Event, forward_step, System, init, Step, moves, Reach,
  here, later,
}
use service_proxy.Dial.Types.{Response}
use service_proxy.Shared.Text.{Text}
use native.Mathlib.Decide.{ℕ_discrete}
use service_proxy.Shared.{
  ℕ, zero, suc, ◌≢◌, ◌+◌, ◌^◌, ◌≤◌, ◌<◌, ◌≡◌, refl, sym, subst, ap, ◌∙◌, some, List, arith, length,
  get_elem?, set, replicate, count, total, others_before, others_after, total_mono, total-le-length,
  total-replicate, le-total, length-set, length-replicate, get_elem?-set_self, get_elem?-set_ne,
  get_elem?-lt,
}

Books-at :
    {p : Pool} {a a' b b' : ℕ} {f f' : ℕ → ℕ}
    → a ≡ a'
    → b ≡ b'
    → ((c : ℕ) → f c ≡ f' c)
    → Books p a b f
    → Books p a' b' f'
Books-at ea eb ef v = record {
  counted = omega (arith, v.counted);
  room = omega (arith, v.room);
  notified = v.notified;
  single = λ c. omega (arith, ef c, v.single c);
  unopened = λ c h. omega (arith, ef c, v.unopened c h);
}

pub record Balanced (max_size n : ℕ) (s : System) : Type 0 where
  pub size : s.pool.max_size ≡ max_size
  pub number : length s.tasks ≡ n
  pub books : Books s.pool (total charge s.tasks) (total slot s.tasks) (λ c. total (owns c) s.tasks)

slot-le-charge : (t : Task) → slot t ≤ charge t
slot-le-charge t = ground arith

charge-le-one : (t : Task) → charge t ≤ 1
charge-le-one t = ground arith

Step-Balanced :
    {max_size n : ℕ} {s u : System}
    → max_size + n + 2 < 2 ^ 64
    → Step s u
    → Balanced max_size n s
    → Balanced max_size n u
Step-Balanced {max_size} {n} {s} small (moves i e {t} {t'} {p} at step) v = record {
  size = step-max ∙ v.size;
  number = length-set s.tasks i t' ∙ v.number;
  books =
      Books-at (others_after charge {z = looking} refl s.tasks i t at t')
        (others_after slot {z = looking} refl s.tasks i t at t')
        (λ c. others_after (owns c) {z = looking} refl s.tasks i t at t') stepped;
}
  where
    rest : List Task
    rest = set s.tasks i looking

    covers : total slot rest ≤ total charge rest
    covers = total_mono slot charge slot-le-charge rest

    few : s.pool.max_size + total charge rest + 2 < 2 ^ 64
    few = omega (
      arith,
      v.size,
      v.number,
      length-set s.tasks i looking,
      total-le-length charge charge-le-one rest,
    )

    before :
        Books s.pool
          (total charge rest + charge t)
          (total slot rest + slot t)
          (λ c. total (owns c) rest + owns c t)
    before =
        Books-at (sym (others_before charge {z = looking} refl s.tasks i t at))
          (sym (others_before slot {z = looking} refl s.tasks i t at))
          (λ c. sym (others_before (owns c) {z = looking} refl s.tasks i t at)) v.books

    stepped :
        Books p
          (total charge rest + charge t')
          (total slot rest + slot t')
          (λ c. total (owns c) rest + owns c t')
    stepped =
        step-Books s.pool p t t' e (total charge rest) (total slot rest) (λ c. total (owns c) rest)
          step covers few before

    step-max : p.max_size ≡ s.pool.max_size
    step-max =
        step-max_size s.pool p t t' e (total charge rest) (total slot rest)
          (λ c. total (owns c) rest) step covers few before

init-Balanced : (addr : Text) (max_size n : ℕ) → Balanced max_size n (init addr max_size n)
unfolding new
init-Balanced addr max_size n = record {
  size = refl;
  number = length-replicate n looking;
  books = record {
    counted = omega (arith, total-replicate charge n looking refl);
    room = omega (arith, total-replicate slot n looking refl);
    notified = omega arith;
    single = λ c. omega (arith, total-replicate (owns c) n looking refl);
    unopened = λ c h. omega (arith, total-replicate (owns c) n looking refl);
  };
}

pub Reach-Balanced :
    (addr : Text) {max_size n : ℕ} {s : System}
    → max_size + n + 2 < 2 ^ 64
    → Reach (init addr max_size n) s
    → Balanced max_size n s
Reach-Balanced addr {max_size} {n} small here = init-Balanced addr max_size n
Reach-Balanced addr small (later r step) = Step-Balanced small step (Reach-Balanced addr small r)

live-le-slot : (t : Task) → live t ≤ slot t
live-le-slot t = ground arith

-- In every state that `n` tasks reach from a new pool, however their steps interleave and however
-- dials and forwards end: `outstanding` is the number of idle connections and of tasks that have
-- added to it and not subtracted yet, and the connections that are idle, in use or being opened are
-- at most `max_size`. It holds where `max_size` and `n` together are below 2 ^ 64 - 2.
pub Reach-bounded :
    (addr : Text) (max_size n : ℕ) {s : System}
    → max_size + n + 2 < 2 ^ 64
    → Reach (init addr max_size n) s
    → (s.pool.outstanding ≡ length s.pool.idle + total charge s.tasks)
      × (length s.pool.idle + total live s.tasks ≤ max_size)
Reach-bounded addr max_size n {s} small r = (
  v.books.counted,
  omega (arith, v.books.room, v.size, total_mono live slot live-le-slot s.tasks),
)
  where
    v : Balanced max_size n s
    v = Reach-Balanced addr small r

-- In every state that `n` tasks reach from a new pool a connection is in one place at most: it stands
-- in `idle` once or is used by one task, and one that has not been opened is nowhere. It holds where
-- `max_size` and `n` together are below 2 ^ 64 - 2.
pub Reach-single :
    (addr : Text) (max_size n : ℕ) {s : System} (c : ℕ)
    → max_size + n + 2 < 2 ^ 64
    → Reach (init addr max_size n) s
    → (count c s.pool.idle + total (owns c) s.tasks ≤ 1)
      × (s.pool.opened ≤ c → count c s.pool.idle + total (owns c) s.tasks ≡ 0)
Reach-single addr max_size n c small r =
    let v = Reach-Balanced addr small r in (v.books.single c, v.books.unopened c)

-- A task overflows only where `idle` is full while it has a connection.
overflowing-cause :
    (p p' : Pool) (t : Task) (e : Event) (resp : Response)
    → forward_step p t e ≡ some (p', overflowing resp)
    → (p.max_size ≤ length p.idle) × (slot t ≡ 1)
unfolding forward_step
overflowing-cause p p' t e resp step = ground arith

Step-overflowing :
    (max_size n : ℕ) {s u : System} (i : ℕ) (resp : Response)
    → Balanced max_size n s
    → ((i : ℕ) → get_elem? s.tasks i ≢ some (overflowing resp))
    → Step s u
    → get_elem? u.tasks i ≢ some (overflowing resp)
Step-overflowing max_size n {s} i resp v old (moves j e {t} {t'} {p} at step) now =
    elim (ℕ_discrete j i) [
      | yes same ↦
          let lt = get_elem?-lt s.tasks j at in
          let new' : get_elem? (set s.tasks j t') j ≡ some (overflowing resp) =
            subst (λ k. get_elem? (set s.tasks j t') k ≡ some (overflowing resp)) (sym same) now in
          let is : t' ≡ overflowing resp = cc (get_elem?-set_self s.tasks j t' lt) in
          let full = overflowing-cause s.pool p t e resp (step ∙ ap (λ t. some (p, t)) is) in
          omega (arith, full, v.books.room, le-total slot s.tasks j t at)
      | no other ↦ old i (sym (get_elem?-set_ne s.tasks j i t' other) ∙ now)
    ]

init-overflowing :
    (n i : ℕ) (resp : Response) → get_elem? (replicate n looking) i ≢ some (overflowing resp)
init-overflowing zero i resp e = cc
init-overflowing (suc n) zero resp e = cc
init-overflowing (suc n) (suc i) resp e = init-overflowing n i resp e

-- The branch of `put` that drops a healthy connection because `idle` is full is never taken: in no
-- state that `n` tasks reach from a new pool is a task there. It holds where `max_size` and `n`
-- together are below 2 ^ 64 - 2.
pub Reach-overflowing :
    (addr : Text) (max_size n : ℕ) {s : System} (i : ℕ) (resp : Response)
    → max_size + n + 2 < 2 ^ 64
    → Reach (init addr max_size n) s
    → get_elem? s.tasks i ≢ some (overflowing resp)
Reach-overflowing addr max_size n i resp small here = init-overflowing n i resp
Reach-overflowing addr max_size n i resp small (later {t} r step) =
    Step-overflowing max_size n i resp (Reach-Balanced addr small r)
      (λ i. Reach-overflowing addr max_size n i resp small r) step
