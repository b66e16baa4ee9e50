-- ===== src/Balancer/Counters/Laws.antt =====
-- What the operations of `Counters` in upstream/balancer.rs leave, entry by entry.
use service_proxy.Balancer.Counters
use service_proxy.Balancer.Counters.{Counters, pick, release, add_total, add_inflight, sub_inflight}
use service_proxy.Shared.{
  ℕ, ◌^◌, ◌≤◌, ◌<◌, ◌≡◌, refl, ◌∙◌, some, List, arith, length, get_elem?, modify, length-modify,
  set-eq-modify, get_elem?-total, length-replicate, wrapping_add, wrapping_sub, as_i32,
}
use service_proxy.Shared.Text.{Text}

-- The three vectors have one entry for each upstream.
pub record IsAligned (c : Counters) (n : ℕ) : Type 0 where
  pub addrs_length : length c.addrs ≡ n
  pub total_length : length c.total ≡ n
  pub inflight_length : length c.inflight ≡ n

pub new-IsAligned : (addrs : List Text) → IsAligned (Counters.new addrs) (length addrs)
unfolding Counters.new
new-IsAligned addrs = record {
  addrs_length = refl;
  total_length = length-replicate (length addrs) 0;
  inflight_length = length-replicate (length addrs) 0;
}

-- The counters after a pick of `idx`, and after its release.
abbrev pub picked : ℕ → Counters → Counters
picked idx c = record c {
  total = modify c.total idx (λ v. wrapping_add v 1);
  inflight = modify c.inflight idx (λ v. wrapping_add v 1);
}

abbrev pub released : ℕ → Counters → Counters
released idx c = record c { inflight = modify c.inflight idx (λ v. wrapping_sub v 1) }

pub picked-IsAligned : (idx : ℕ) {c : Counters} {n : ℕ} → IsAligned c n → IsAligned (picked idx c) n
picked-IsAligned idx {c} v = record {
  addrs_length = v.addrs_length;
  total_length = length-modify c.total idx _ ∙ v.total_length;
  inflight_length = length-modify c.inflight idx _ ∙ v.inflight_length;
}

pub released-IsAligned :
    (idx : ℕ) {c : Counters} {n : ℕ} → IsAligned c n → IsAligned (released idx c) n
released-IsAligned idx {c} v = record {
  addrs_length = v.addrs_length;
  total_length = v.total_length;
  inflight_length = length-modify c.inflight idx _ ∙ v.inflight_length;
}

pick_at :
    (c : Counters) (idx : ℕ) {addr : Text} {t l : ℕ}
    → get_elem? c.addrs idx ≡ some addr
    → get_elem? c.total idx ≡ some t
    → get_elem? c.inflight idx ≡ some l
    → pick idx c ≡ (picked idx c, some (addr, as_i32 idx))
unfolding pick add_total add_inflight
pick_at c idx a et el = ground (
  arith,
  set-eq-modify c.total idx (λ v. wrapping_add v 1) et,
  set-eq-modify c.inflight idx (λ v. wrapping_add v 1) el,
)

release_at :
    (c : Counters) (token : ℕ) {l : ℕ}
    → token < 2 ^ 31
    → get_elem? c.inflight token ≡ some l
    → release token c ≡ (released token c, some tt)
unfolding release sub_inflight
release_at c token small el =
    ground (arith, set-eq-modify c.inflight token (λ v. wrapping_sub v 1) el)

-- A pick in range succeeds, counts, and returns the address with the index as its token.
pub pick_lem :
    {c : Counters} {n idx : ℕ}
    → IsAligned c n
    → idx < n
    → (addr : Text) × (get_elem? c.addrs idx ≡ some addr)
      × (pick idx c ≡ (picked idx c, some (addr, as_i32 idx)))
unfolding pick
pick_lem {c} {n} {idx} v h =
    let (addr, a) = get_elem?-total c.addrs idx (omega (arith, v.addrs_length)) in
    let (t, et) = get_elem?-total c.total idx (omega (arith, v.total_length)) in
    let (l, el) = get_elem?-total c.inflight idx (omega (arith, v.inflight_length)) in
    (addr, a, pick_at c idx a et el)

pub release_lem :
    {c : Counters} {n token : ℕ}
    → IsAligned c n
    → n ≤ 2 ^ 31
    → token < n
    → release token c ≡ (released token c, some tt)
unfolding release
release_lem {c} {n} {token} v small h =
    let (l, el) = get_elem?-total c.inflight token (omega (arith, v.inflight_length)) in
    release_at c token (omega arith) el
