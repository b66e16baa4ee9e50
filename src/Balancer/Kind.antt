-- ===== src/Balancer/Kind.antt =====
-- `SelectorKind` and `new_selector` of upstream/balancer.rs.
pub mod Serves
pub mod Tracking
pub mod InFlight
pub mod Dispatch
pub mod Addresses
use service_proxy.Balancer.Counters
use service_proxy.Balancer.Counters.{UpstreamStat}
use service_proxy.Balancer.LeastConn
use service_proxy.Balancer.LeastConn.{LeastConn}
use service_proxy.Balancer.P2c
use service_proxy.Balancer.P2c.{P2c}
use service_proxy.Balancer.Rng.{Rng}
use service_proxy.Balancer.RoundRobin.{
  Fixed, fixed_next, fixed_release, RoundRobin, new_round_robin, round_robin_next,
  round_robin_release, CountingRoundRobin, new_counting, counting_next, counting_release,
  counting_stats,
}
use service_proxy.Shared.{
  ℕ, Bool, true, false, Option, none, some, List, [], ◌∷◌, if◌then◌else◌, Op,
}
use mathlib.Core.Option
use service_proxy.Shared.Text.{Text, codes, ◌=?◌}

abbrev pub lb_round_robin : Text
lb_round_robin = codes "round-robin"

abbrev pub lb_least_conn : Text
lb_least_conn = codes "least-conn"

abbrev pub lb_p2c : Text
lb_p2c = codes "p2c"

pub data SelectorKind : Type 0 where
  fixed : Fixed → SelectorKind
  round_robin : RoundRobin → SelectorKind
  counting_round_robin : CountingRoundRobin → SelectorKind
  least_conn : LeastConn → SelectorKind
  p2c : P2c → SelectorKind

-- A call of a variant, with what it leaves put back.
abbrev pub within {ℓ} : {S : Type 0} {A : Type ℓ} → (S → SelectorKind) → S × A → SelectorKind × A
within put (s, out) = (put s, out)

-- The same for a variant that draws random numbers.
abbrev pub within_draw {ℓ} :
    {S G : Type 0} {A : Type ℓ} → (S → SelectorKind) → (S × G) × A → (SelectorKind × G) × A
within_draw put (sg, out) = ((put sg.0, sg.1), out)

abbrev pub keep_draw {ℓ} : {G : Type 0} {A : Type ℓ} → G → SelectorKind × A → (SelectorKind × G) × A
keep_draw g (k, out) = ((k, g), out)

-- `<SelectorKind as Selector>::next`
unfoldable pub next : (r : Rng) → Op (SelectorKind × r.State) (Text × ℕ)
next r (fixed s, g) = keep_draw g (within fixed (fixed_next s))
next r (round_robin s, g) = keep_draw g (within round_robin (round_robin_next s))
next r (counting_round_robin s, g) = keep_draw g (within counting_round_robin (counting_next s))
next r (least_conn s, g) = within_draw least_conn (LeastConn.next r (s, g))
next r (p2c s, g) = within_draw p2c (P2c.next r (s, g))

-- `<SelectorKind as Selector>::release`
unfoldable pub release : ℕ → Op SelectorKind (Unit {0})
release token (fixed s) = within fixed (fixed_release token s)
release token (round_robin s) = within round_robin (round_robin_release token s)
release token (counting_round_robin s) = within counting_round_robin (counting_release token s)
release token (least_conn s) = within least_conn (LeastConn.release token s)
release token (p2c s) = within p2c (P2c.release token s)

-- `Some(s.stats(reset))`
abbrev pub reported {ℓ} : {S : Type 0} {A : Type ℓ} → S × Option A → S × Option (Option A)
reported (s, out) = (s, Option.map some out)

-- `SelectorKind::stats`
unfoldable pub stats : Bool → Op SelectorKind (Option (List UpstreamStat))
stats reset (counting_round_robin s) =
    within counting_round_robin (reported (counting_stats reset s))
stats reset (least_conn s) = within least_conn (reported (LeastConn.stats reset s))
stats reset (p2c s) = within p2c (reported (P2c.stats reset s))
stats reset k = (k, some none)

-- `SelectorKind::has_stats`
unfoldable pub has_stats : SelectorKind → Bool
has_stats (counting_round_robin _) = true
has_stats (least_conn _) = true
has_stats (p2c _) = true
has_stats _ = false

-- The arms of `new_selector` for a strategy that is none of the three.
unfoldable pub plain_selector : List Text → SelectorKind
unfolding new_round_robin
plain_selector (addr ∷ []) = fixed (record { addr = addr })
plain_selector addrs = round_robin (new_round_robin addrs)

-- `new_selector`
unfoldable pub new_selector : List Text → Text → SelectorKind
unfolding plain_selector new_counting LeastConn.new P2c.new Counters.new
new_selector addrs strategy =
    if strategy =? lb_round_robin
    then counting_round_robin (new_counting addrs)
    else if strategy =? lb_least_conn
    then least_conn (LeastConn.new addrs)
    else if strategy =? lb_p2c
    then p2c (P2c.new addrs)
    else plain_selector addrs
