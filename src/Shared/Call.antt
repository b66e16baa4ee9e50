-- ===== src/Shared/Call.antt =====
-- How a call may go on: it comes back with a value, it panics because a vector is asked to hold more
-- than isize::MAX bytes, or it never comes back, for a peer that neither sends what is asked for nor
-- closes, or that sends header lines for ever. `spent` says that the fuel of the model ran out.
use service_proxy.Shared.{Option, none, some}
use service_proxy.Shared.Result.{Result, ok, err}

pub data Call {ℓ} (A : Type ℓ) : Type ℓ where
  yields : A → Call A
  overflowed blocked spent : Call A

-- What it comes back with, if it does.
abbrev pub value_of {ℓ} : {A : Type ℓ} → Call A → Option A
value_of (yields a) = some a
value_of _ = none

abbrev pub map_call {ℓ κ} : {A : Type ℓ} {B : Type κ} → (A → B) → Call A → Call B
map_call f (yields a) = yields (f a)
map_call f overflowed = overflowed
map_call f blocked = blocked
map_call f spent = spent

-- `?` after a call.
abbrev pub and_then {ℓ κ μ} :
    {E : Type ℓ} {A : Type κ} {B : Type μ}
    → Call (Result E A)
    → (A → Call (Result E B))
    → Call (Result E B)
and_then (yields (ok a)) f = f a
and_then (yields (err e)) f = yields (err e)
and_then overflowed f = overflowed
and_then blocked f = blocked
and_then spent f = spent
