-- ===== src/Pool/Weights.antt =====
-- What a task of upstream/pool.rs counts for in the accounts of its pool.
use service_proxy.Pool.{
  Pool, Task, dialing, undoing, backing_off, holding, putting, dropping, overflowing, Event,
  forward_step,
}
use service_proxy.Shared.{
  ℕ, ◌+◌, ◌^◌, ◌≤◌, ◌<◌, ◌≡◌, some, arith, length, count, ◌==◌, if◌then◌else◌,
}

-- A task that has added to `outstanding` and not subtracted yet.
abbrev pub charge : Task → ℕ
charge dialing = 1
charge (undoing _) = 1
charge backing_off = 1
charge (holding _) = 1
charge (putting _ _) = 1
charge (dropping _) = 1
charge (overflowing _) = 1
charge _ = 0

-- The same without the tasks that were over the limit.
abbrev pub slot : Task → ℕ
slot backing_off = 0
slot t = charge t

-- A task that has the connection `c`.
abbrev pub owns : ℕ → Task → ℕ
owns c (holding d) = if c == d then 1 else 0
owns c (putting d _) = if c == d then 1 else 0
owns c _ = 0

-- A task whose connection is open or being opened.
abbrev pub live : Task → ℕ
live dialing = 1
live (holding _) = 1
live (putting _ _) = 1
live _ = 0

-- The accounts of a pool whose tasks weigh `charges`, `slots` and `owners` in all.
pub record Books (p : Pool) (charges slots : ℕ) (owners : ℕ → ℕ) : Type 0 where
  pub counted : p.outstanding ≡ length p.idle + charges
  pub room : length p.idle + slots ≤ p.max_size
  pub notified : p.wakes ≤ p.notifies
  pub single : (c : ℕ) → count c p.idle + owners c ≤ 1
  pub unopened : (c : ℕ) → p.opened ≤ c → count c p.idle + owners c ≡ 0

-- One step of a task keeps the accounts, where the others weigh `charges`, `slots` and `owners`.
module _ (p p' : Pool) (t t' : Task) (e : Event) (charges slots : ℕ) (owners : ℕ → ℕ)
    (step : forward_step p t e ≡ some (p', t')) (covers : slots ≤ charges)
    (small : p.max_size + charges + 2 < 2 ^ 64)
    (books : Books p (charges + charge t) (slots + slot t) (λ c. owners c + owns c t)) where
  step-counted : p'.outstanding ≡ length p'.idle + (charges + charge t')
  unfolding forward_step
  step-counted = ground (arith, books)

  step-room : length p'.idle + (slots + slot t') ≤ p'.max_size
  unfolding forward_step
  step-room = ground (arith, books)

  step-notified : p'.wakes ≤ p'.notifies
  unfolding forward_step
  step-notified = ground (arith, books)

  step-single : (c : ℕ) → count c p'.idle + (owners c + owns c t') ≤ 1
  unfolding forward_step
  step-single c = ground (arith, books.single c, books.unopened c)

  step-unopened : (c : ℕ) → p'.opened ≤ c → count c p'.idle + (owners c + owns c t') ≡ 0
  unfolding forward_step
  step-unopened c h = ground (arith, books.unopened c)

  pub step-max_size : p'.max_size ≡ p.max_size
  unfolding forward_step
  step-max_size = ground arith

  pub step-Books : Books p' (charges + charge t') (slots + slot t') (λ c. owners c + owns c t')
  step-Books = record {
    counted = step-counted;
    room = step-room;
    notified = step-notified;
    single = step-single;
    unopened = step-unopened;
  }
