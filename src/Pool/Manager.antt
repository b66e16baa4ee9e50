-- ===== src/Pool/Manager.antt =====
-- `Manager` and `ForwarderKind` of upstream/pool.rs.
use service_proxy.Dial.Types.{Request, Response, UpstreamError, parse}
use service_proxy.Pool
use service_proxy.Pool.{Pool}
use service_proxy.Shared.Result.{Result, err, ◌>>=◌, ok_or}
use service_proxy.Shared.Text.{Text, codes, ◌=?◌, =?_sound, =?_comm}
use service_proxy.Shared.{
  ℕ, ◌≡◌, refl, subst, ◌∙◌, inl, inr, Bool-cases, Bool, false, ◌||◌, Option, none, some, List, [],
  ◌∷◌, ◌++◌, if◌then◌else◌, arith,
}

-- `HashMap<String, Arc<Pool>>`, each address once.
pub record Manager : Type 0 where
  pub pools : List (Text × Pool)

-- `HashMap::insert`
unfoldable pub insert : Text → Pool → List (Text × Pool) → List (Text × Pool)
insert addr p [] = (addr, p) ∷ []
insert addr p ((a, q) ∷ rest) = if a =? addr then (a, p) ∷ rest else (a, q) ∷ insert addr p rest

-- The loop of `Manager::new`
unfoldable pub insert_all : ℕ → List Text → List (Text × Pool) → List (Text × Pool)
unfolding insert
insert_all size [] pools = pools
insert_all size (addr ∷ rest) pools = insert_all size rest (insert addr (Pool.new addr size) pools)

-- `Manager::new`
unfoldable pub new : List Text → ℕ → Manager
unfolding insert_all
new addrs size_per_upstream = record { pools = insert_all size_per_upstream addrs [] }

-- `HashMap::get`
unfoldable pub lookup : Text → List (Text × Pool) → Option Pool
lookup addr [] = none
lookup addr ((a, p) ∷ rest) = if a =? addr then some p else lookup addr rest

-- `Manager::pool`
unfoldable pub pool : Text → Manager → Option Pool
unfolding lookup
pool addr m = lookup addr m.pools

pub data ForwarderKind : Type 0 where
  dial : ForwarderKind
  pooled : Manager → ForwarderKind

-- `ForwarderKind::forward`, with how `forward_http` and `forward_pooled` end.
unfoldable pub forward :
    (Text → Request → Result UpstreamError Response)
    → (Pool → Request → Result UpstreamError Response)
    → ForwarderKind
    → Text
    → Request
    → Result UpstreamError Response
unfolding pool
forward forward_http forward_pooled dial addr req = forward_http addr req
forward forward_http forward_pooled (pooled manager) addr req = do
  p ← ok_or (parse (codes "no pool for " ++ addr)) (pool addr manager)
  forward_pooled p req

-- Whether an address is configured.
unfoldable pub configured : Text → List Text → Bool
configured addr [] = false
configured addr (a ∷ rest) = (a =? addr) || configured addr rest

lookup-insert :
    (addr a : Text) (p : Pool) (pools : List (Text × Pool))
    → lookup addr (insert a p pools) ≡ (if a =? addr then some p else lookup addr pools)
unfolding lookup insert
lookup-insert addr a p [] = refl
lookup-insert addr a p ((b, q) ∷ rest) = elim (Bool-cases (b =? a)) [
  | inl same ↦ let e : b ≡ a = =?_sound b a same in rw (same, e) (ground arith)
  | inr other ↦ rw other (elim (Bool-cases (b =? addr)) [
    | inl here ↦
        let e : b ≡ addr = =?_sound b addr here in
        let apart : (a =? addr) ≡ false = subst (λ x. (a =? x) ≡ false) e (=?_comm a b ∙ other) in
        rw (here, apart)
    | inr away ↦ rw away (lookup-insert addr a p rest)
  ])
]

lookup-insert_all :
    (size : ℕ) (addr : Text) (addrs : List Text) (pools : List (Text × Pool))
    → lookup addr (insert_all size addrs pools)
      ≡ (if configured addr addrs then some (Pool.new addr size) else lookup addr pools)
unfolding insert_all configured
lookup-insert_all size addr [] pools = refl
lookup-insert_all size addr (a ∷ rest) pools =
    lookup-insert_all size addr rest (insert a (Pool.new a size) pools)
    ∙ elim (Bool-cases (a =? addr)) [
      | inl same ↦
          let e : a ≡ addr = =?_sound a addr same in
          ground (arith, lookup-insert addr a (Pool.new a size) pools)
      | inr other ↦ rw (lookup-insert addr a (Pool.new a size) pools, other)
    ]

-- In pooled mode a request to an upstream is forwarded over the pool of that address, with the
-- configured size, where the address is configured, and fails without a connection where it is not.
pub forward-new :
    (forward_http : Text → Request → Result UpstreamError Response)
    (forward_pooled : Pool → Request → Result UpstreamError Response) (addrs : List Text) (size : ℕ)
    (addr : Text) (req : Request)
    → forward forward_http forward_pooled (pooled (new addrs size)) addr req ≡ (
        if configured addr addrs
        then forward_pooled (Pool.new addr size) req
        else err (parse (codes "no pool for " ++ addr)))
unfolding forward new
forward-new forward_http forward_pooled addrs size addr req =
    rw (lookup-insert_all size addr addrs []) (ground arith)
