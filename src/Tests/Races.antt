-- ===== src/Tests/Races.antt =====
-- Runs of the counting selectors of upstream/balancer.rs, one access at a time.
use service_proxy.Balancer.Counters
use service_proxy.Balancer.Counters.{Counters, add_total, add_inflight, sub_total}
use service_proxy.Balancer.Races.Adds.{inside, counted, taken_off}
use service_proxy.Balancer.Races.Exact.{Reach-exact}
use service_proxy.Balancer.Races.Twice.{resets-twice}
use service_proxy.Balancer.Races.{
  reading, Event, go, picks, caller_step, System, init, Reach, here, later, moves,
}
use service_proxy.Tests.Balancer.{three}
use service_proxy.Shared.{
  ℕ, ◌+◌, ◌-◌, ◌%◌, ◌^◌, ◌≡◌, refl, true, none, some, [], get_elem?, set, total, wrapping_sub,
  arith,
}

-- A request, and two reports with a reset.
abbrev new_system : System
new_system = init three 1 0 2

-- What each caller does, in order; an access that is no step is left out.
abbrev moved : System → ℕ → Event → System
moved s i e = elim (get_elem? s.callers i) [
  | none ↦ s
  | some t ↦ elim (caller_step s.counters t e) [
    | none ↦ s
    | some (c, t') ↦ record { counters = c; callers = set s.callers i t' }
  ]
]

abbrev picked : System
picked = moved (moved (moved new_system 0 (picks 0)) 0 go) 0 go

picked-Reach : Reach new_system picked
unfolding caller_step add_total add_inflight Counters.new
picked-Reach =
    later (later (later here (moves 0 (picks 0) refl refl)) (moves 0 go refl refl))
      (moves 0 go refl refl)

abbrev reset_twice : System
reset_twice = moved (moved (moved (moved picked 1 go) 2 go) 1 go) 2 go

reset_twice-Reach : Reach new_system reset_twice
unfolding caller_step add_total add_inflight sub_total Counters.new
reset_twice-Reach =
    later
      (later (later (later picked-Reach (moves 1 go refl refl)) (moves 2 go refl refl))
        (moves 1 go refl refl))
      (moves 2 go refl refl)

-- The total of the first upstream is then -1.
reset_twice-total : get_elem? reset_twice.counters.total 0 ≡ some (2 ^ 64 - 1)
unfolding caller_step add_total add_inflight sub_total Counters.new
reset_twice-total = refl

Reach-exact_example :
    (get_elem? reset_twice.counters.inflight 0
      ≡ some (total (inside 0) reset_twice.callers % 2 ^ 64))
    × (v : ℕ) × (get_elem? reset_twice.counters.total 0 ≡ some v)
    × ((v + total (taken_off 0) reset_twice.callers) % 2 ^ 64
        ≡ total (counted 0) reset_twice.callers % 2 ^ 64)
Reach-exact_example = Reach-exact three 1 0 2 (omega arith) reset_twice-Reach 0 (omega arith)

resets-twice_example :
    (u : System) × Reach picked u
    × (get_elem? u.callers 1 ≡ some (reading true 1 []))
    × (get_elem? u.callers 2 ≡ some (reading true 1 []))
    × (get_elem? u.counters.total 0 ≡ some (wrapping_sub 0 1))
unfolding caller_step add_total add_inflight Counters.new
resets-twice_example =
    resets-twice picked 1 2 1 [] [] (omega arith) refl refl refl (omega arith) refl (omega arith)
