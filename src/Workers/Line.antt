-- ===== src/Workers/Line.antt =====
-- What `serve_pooled` of main.rs promises: a line in which connections are served in the order in
-- which they arrive. Who serves a connection is forgotten.
use service_proxy.Workers.{Label, silent, arrives, begins, ends, breaks}
use service_proxy.Shared.{ℕ, suc, ◌+◌, ◌-◌, ◌≤◌, ◌<◌, ◌≡◌, ◌==◌, List, [], ◌∷◌, ◌++◌, if◌then◌else◌}
use mathlib.Core.Path.{fun_ext}

-- `arrived` connections have come and `begun` of them have been taken; `idle` workers are free, and
-- `busy c` of them serve connection `c`.
pub record Line : Type 0 where
  pub arrived : ℕ
  pub begun : ℕ
  pub idle : ℕ
  pub busy : ℕ → ℕ

abbrev pub opened : ℕ → Line
opened workers = record { arrived = 0; begun = 0; idle = workers; busy = λ c. 0 }

-- One more and one less at `c`.
abbrev pub more : ℕ → (ℕ → ℕ) → ℕ → ℕ
more c busy x = if x == c then suc (busy x) else busy x

abbrev pub less : ℕ → (ℕ → ℕ) → ℕ → ℕ
less c busy x = if x == c then busy x - 1 else busy x

-- One step of the line: a connection comes while at most `depth` wait, the first that waits is
-- taken by a free worker, and one that is served is done with or breaks its worker.
pub data Serves (depth : ℕ) (s : Line) : Label → Line → Type 0 where
  stays : {t : Line} → t ≡ s → Serves depth s silent t
  leaves : {t : Line} → 0 < s.idle → t ≡ record s { idle = s.idle - 1 } → Serves depth s silent t
  comes :
      {t : Line}
      → s.arrived ≤ s.begun + depth
      → t ≡ record s { arrived = suc s.arrived }
      → Serves depth s (arrives s.arrived) t
  taken :
      {t : Line}
      → s.begun < s.arrived
      → 0 < s.idle
      → t ≡ record s { begun = suc s.begun; idle = s.idle - 1; busy = more s.begun s.busy }
      → Serves depth s (begins s.begun) t
  done :
      {t : Line} (c : ℕ)
      → 0 < s.busy c
      → t ≡ record s { idle = suc s.idle; busy = less c s.busy }
      → Serves depth s (ends c) t
  lost :
      {t : Line} (c : ℕ)
      → 0 < s.busy c
      → t ≡ record s { busy = less c s.busy }
      → Serves depth s (breaks c) t

pub data Runs (depth : ℕ) (s : Line) : List Label → Line → Type 0 where
  here : Runs depth s [] s
  later :
      {ls : List Label} {t u : Line} {l : Label}
      → Runs depth s ls t
      → Serves depth t l u
      → Runs depth s (ls ++ l ∷ []) u

pub Line-eq :
    (s t : Line)
    → s.arrived ≡ t.arrived
    → s.begun ≡ t.begun
    → s.idle ≡ t.idle
    → ((c : ℕ) → s.busy c ≡ t.busy c)
    → s ≡ t
Line-eq s t a b i h = let same : s.busy ≡ t.busy = fun_ext h in cc
