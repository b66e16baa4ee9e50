-- ===== src/Balancer/Races.antt =====
-- Calls of a counting selector of upstream/balancer.rs side by side, one access of an atomic at a time.
-- What `next` loads before `Counters::pick` does not change the counts; which index it comes to is left
-- open.
pub mod Adds
pub mod Exact
pub mod Steps
pub mod Twice
pub mod Alone
use service_proxy.Balancer.Counters
use service_proxy.Balancer.Counters.{
  Counters, UpstreamStat, add_total, sub_total, add_inflight, sub_inflight,
}
use service_proxy.Shared.Text.{Text}
use service_proxy.Shared.{
  ℕ, suc, ◌≡◌, ltb, Bool, true, false, Option, none, some, List, [], ◌∷◌, ◌++◌, length, get_elem?,
  set, replicate, if◌then◌else◌, as_i32, nonneg_i32,
}

-- Where a caller stands: a request, or a report of the statistics with what it has so far.
pub data Caller : Type 0 where
  choosing : Caller  -- in `next`, before `pick`
  counting : ℕ → Caller  -- before `total[idx].fetch_add(1)`
  entering : ℕ → Caller  -- before `inflight[idx].fetch_add(1)`
  holding : ℕ → Caller  -- `next` has returned
  returned : ℕ → Caller  -- after `release`
  loading : (reset : Bool) → List UpstreamStat → Caller  -- before `total[i].load`
  clearing : ℕ → List UpstreamStat → Caller  -- before `total[i].fetch_sub(total)`
  reading : (reset : Bool) → ℕ → List UpstreamStat → Caller  -- before `inflight[i].load`
  reported : (reset : Bool) → List UpstreamStat → Caller

pub data Event : Type 0 where
  go : Event
  picks : ℕ → Event

-- An access that succeeds leads on; an index out of bounds panics and is no step.
abbrev pub onward {ℓ} : {A : Type ℓ} → Caller → Counters × Option A → Option (Counters × Caller)
onward to (c, none) = none
onward to (c, some a) = some (c, to)

abbrev pub reads : {A : Type 0} → Counters → Option A → (A → Caller) → Option (Counters × Caller)
reads c none to = none
reads c (some a) to = some (c, to a)

-- The next round of the iterator in `stats`, at the index `length stats`.
abbrev pub load_total : Counters → Bool → List UpstreamStat → Option (Counters × Caller)
load_total c reset stats =
    if ltb (length stats) (length c.addrs)
    then reads c (get_elem? c.total (length stats))
        (λ total. if reset then clearing total stats else reading reset total stats)
    else some (c, reported reset stats)

abbrev pub load_inflight : Counters → Bool → ℕ → List UpstreamStat → Option (Counters × Caller)
load_inflight c reset total stats = elim (get_elem? c.addrs (length stats)) [
  | none ↦ none
  | some addr ↦ reads c (get_elem? c.inflight (length stats)) (λ inflight.
      loading reset (stats ++ record { addr = addr; total = total; inflight = inflight } ∷ []))
]

-- The steps of a caller.
unfoldable pub caller_step : Counters → Caller → Event → Option (Counters × Caller)
unfolding add_total sub_total add_inflight sub_inflight
caller_step c choosing (picks idx) =
    if ltb idx (length c.addrs) then some (c, counting idx) else none
caller_step c (counting idx) go = onward (entering idx) (add_total idx 1 c)
caller_step c (entering idx) go = onward (holding idx) (add_inflight idx 1 c)
caller_step c (holding idx) go =
    let token = as_i32 idx in
    if nonneg_i32 token
    then onward (returned idx) (sub_inflight token 1 c)
    else some (c, returned idx)
caller_step c (loading reset stats) go = load_total c reset stats
caller_step c (clearing total stats) go =
    onward (reading true total stats) (sub_total (length stats) total c)
caller_step c (reading reset total stats) go = load_inflight c reset total stats
caller_step c _ _ = none

pub record System : Type 0 where
  pub counters : Counters
  pub callers : List Caller

-- New counters, with requests and reports to come.
abbrev pub init : List Text → ℕ → ℕ → ℕ → System
init addrs requests reports resets = record {
  counters = Counters.new addrs;
  callers =
      replicate requests choosing
      ++ (replicate reports (loading false []) ++ replicate resets (loading true []));
}

-- One caller makes one access.
pub data Step (s : System) : System → Type 0 where
  moves :
      (i : ℕ) (e : Event) {t t' : Caller} {c : Counters}
      → get_elem? s.callers i ≡ some t
      → caller_step s.counters t e ≡ some (c, t')
      → Step s (record { counters = c; callers = set s.callers i t' })

pub data Reach (s : System) : System → Type 0 where
  here : Reach s s
  later : {t u : System} → Reach s t → Step t u → Reach s u
