-- ===== src/Balancer/Counters.antt =====
-- `struct Counters` of upstream/balancer.rs, and `UpstreamStat`.

pub mod Laws
pub mod Stats
use service_proxy.Shared.{
  ℕ, suc, Bool, none, some, List, [], ◌∷◌, length, get_elem?, set, replicate, if◌then◌else◌, Op,
  pure, state, ◌>>=◌, ◌>>◌, expect, wrapping_add, wrapping_sub, as_i32, nonneg_i32,
}
use service_proxy.Shared.Text.{Text}

pub record UpstreamStat : Type 0 where
  pub addr : Text
  pub total : ℕ
  pub inflight : ℕ

-- The three vectors, index-aligned; the counts are `i64` patterns.
pub record Counters : Type 0 where
  pub addrs : List Text
  pub total : List ℕ
  pub inflight : List ℕ

-- `Counters::new`
unfoldable pub new : List Text → Counters
new addrs = record {
  addrs = addrs;
  total = replicate (length addrs) 0;
  inflight = replicate (length addrs) 0;
}

-- `self.total[idx].fetch_add(k)`; an index out of bounds panics.
unfoldable pub add_total : ℕ → ℕ → Op Counters ℕ
add_total idx k c = elim (get_elem? c.total idx) [
  | none ↦ (c, none)
  | some v ↦ (record c { total = set c.total idx (wrapping_add v k) }, some v)
]

-- `self.total[idx].fetch_sub(k)`
unfoldable pub sub_total : ℕ → ℕ → Op Counters ℕ
sub_total idx k c = elim (get_elem? c.total idx) [
  | none ↦ (c, none)
  | some v ↦ (record c { total = set c.total idx (wrapping_sub v k) }, some v)
]

unfoldable pub add_inflight : ℕ → ℕ → Op Counters ℕ
add_inflight idx k c = elim (get_elem? c.inflight idx) [
  | none ↦ (c, none)
  | some v ↦ (record c { inflight = set c.inflight idx (wrapping_add v k) }, some v)
]

unfoldable pub sub_inflight : ℕ → ℕ → Op Counters ℕ
sub_inflight idx k c = elim (get_elem? c.inflight idx) [
  | none ↦ (c, none)
  | some v ↦ (record c { inflight = set c.inflight idx (wrapping_sub v k) }, some v)
]

-- `Counters::pick`
unfoldable pub pick : ℕ → Op Counters (Text × ℕ)
unfolding add_total add_inflight
pick idx = do
  add_total idx 1
  add_inflight idx 1
  c ← state
  addr ← expect (get_elem? c.addrs idx)
  pure (addr, as_i32 idx)

-- `Counters::release`
unfoldable pub release : ℕ → Op Counters (Unit {0})
unfolding sub_inflight
release token = if nonneg_i32 token then (do sub_inflight token 1; pure tt) else pure tt

-- `if reset { self.total[i].fetch_sub(total); }`
unfoldable pub clear_total : Bool → ℕ → ℕ → Op Counters (Unit {0})
unfolding sub_total
clear_total reset i total = if reset then (do sub_total i total; pure tt) else pure tt

-- The closure of `Counters::stats` at one index.
unfoldable pub stat_at : Bool → ℕ → Text → Op Counters UpstreamStat
unfolding clear_total
stat_at reset i addr = do
  c ← state
  total ← expect (get_elem? c.total i)
  clear_total reset i total
  c' ← state
  inflight ← expect (get_elem? c'.inflight i)
  pure (record { addr = addr; total = total; inflight = inflight })

-- `.iter().enumerate().map(…).collect()`, from index `i` on.
unfoldable pub stats_from : Bool → ℕ → List Text → Op Counters (List UpstreamStat)
stats_from reset i [] = pure []
stats_from reset i (addr ∷ addrs) = do
  s ← stat_at reset i addr
  rest ← stats_from reset (suc i) addrs
  pure (s ∷ rest)

-- `Counters::stats`
unfoldable pub stats : Bool → Op Counters (List UpstreamStat)
unfolding stat_at stats_from
stats reset c = stats_from reset 0 c.addrs c
