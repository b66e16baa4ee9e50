-- ===== src/Proxy/Routes.antt =====
-- The addresses of `new_selector` in upstream/balancer.rs and those of `Manager::new` in
-- upstream/pool.rs.
use service_proxy.Balancer.Kind
use service_proxy.Balancer.Kind.Addresses.{addrs_of, Reach-addrs, start-addrs, next-member}
use service_proxy.Balancer.Kind.Tracking.{System, Reach, start}
use service_proxy.Balancer.Kind.{SelectorKind}
use service_proxy.Balancer.Rng.{Rng}
use service_proxy.Dial.Types.{Request, Response, UpstreamError}
use service_proxy.Pool
use service_proxy.Pool.Manager
use service_proxy.Pool.Manager.{forward, pooled, configured, forward-new}
use service_proxy.Pool.{Pool}
use service_proxy.Shared.Result.{Result}
use service_proxy.Shared.Text.{Text, =?_refl}
use service_proxy.Shared.{
  ℕ, zero, suc, ◌≡◌, refl, ◌∙◌, subst, true, some, List, [], ◌∷◌, get_elem?, arith,
}

configured-member :
    (addrs : List Text) (addr : Text) (i : ℕ)
    → get_elem? addrs i ≡ some addr
    → configured addr addrs ≡ true
unfolding configured
configured-member [] addr i e = absurd cc
configured-member (a ∷ rest) addr zero e = ground (arith, =?_refl addr)
configured-member (a ∷ rest) addr (suc i) e = ground (arith, configured-member rest addr i e)

-- A request whose upstream was chosen by the selector is forwarded over the pool of that address: in
-- any state that a selector of any strategy reaches from its start, an address that `next` hands out
-- has a pool in the manager that was made from the same addresses, so that the error "no pool for"
-- does not occur.
pub forward-chosen :
    (r : Rng) (addrs : List Text) (strategy : Text) (g : r.State) {s : System r} (size : ℕ)
    (forward_http : Text → Request → Result UpstreamError Response)
    (forward_pooled : Pool → Request → Result UpstreamError Response) (addr : Text) (token : ℕ)
    (req : Request)
    → Reach r (start r addrs strategy g) s
    → (Kind.next r (s.kind, s.gen)).1 ≡ some (addr, token)
    → forward forward_http forward_pooled (pooled (Manager.new addrs size)) addr req
      ≡ forward_pooled (Pool.new addr size) req
forward-chosen r addrs strategy g {s} size forward_http forward_pooled addr token req reach chosen =
    let (i, at_i) = next-member r s.kind s.gen addr token chosen in
    let same : addrs_of s.kind ≡ addrs = Reach-addrs reach ∙ start-addrs addrs strategy in
    let known : configured addr addrs ≡ true =
      configured-member addrs addr i (subst (λ l. get_elem? l i ≡ some addr) same at_i) in
    forward-new forward_http forward_pooled addrs size addr req ∙ rw known refl
