-- ===== src/Admin/Queries.antt =====
-- What the endpoints for operators make of their queries.
use service_proxy.Admin.{
  any, bytes_or_empty, json_reply, stats_service, find_prefix, query_seconds, clamp, Format,
  protobuf, flamegraph, handle,
}
use service_proxy.Balancer.Counters.{Counters, UpstreamStat}
use service_proxy.Balancer.Counters.Laws.{IsAligned}
use service_proxy.Balancer.Counters.Stats.{cleared, side_by_side, stats_lem}
use service_proxy.Balancer.Kind
use service_proxy.Balancer.Kind.Serves.{counters_of, stats-inflight}
use service_proxy.Balancer.Kind.{
  SelectorKind, fixed, round_robin, counting_round_robin, least_conn, p2c,
}
use service_proxy.Balancer.LeastConn
use service_proxy.Balancer.P2c
use service_proxy.Balancer.RoundRobin.{counting_stats}
use service_proxy.Config.{unwrap_or}
use service_proxy.Shared.Result.{Result}
use service_proxy.Shared.Strings.{split, strip_prefix, decimal}
use service_proxy.Shared.Strings.Decimal.{parse_uint-decimal}
use service_proxy.Shared.Strings.Words.{join, AllFree, split-join, strip_prefix-append}
use service_proxy.Shared.Text.{Text, codes, ◌=?◌}
use service_proxy.Shared.{
  ℕ, ◌^◌, ◌≤◌, ◌<◌, ◌≡◌, Bool, Option, none, some, List, [], ◌∷◌, ◌++◌, map, arith,
}
use mathlib.Core.Option

stats-reported :
    (reset : Bool) {n : ℕ} (k : SelectorKind) {c : Counters}
    → counters_of k ≡ some c
    → IsAligned c n
    → (Kind.stats reset k).1 ≡ some (some (side_by_side c.addrs c.total c.inflight))
unfolding Kind.stats LeastConn.stats P2c.stats counting_stats
stats-reported reset (fixed s) e v = absurd (cc)
stats-reported reset (round_robin s) e v = absurd (cc)
stats-reported reset (counting_round_robin s) {c} e v =
    let same : s.counters ≡ c = cc in rw same (rw (stats_lem reset v))
stats-reported reset (least_conn s) {c} e v =
    let same : s.counters ≡ c = cc in rw same (rw (stats_lem reset v))
stats-reported reset (p2c s) {c} e v =
    let same : s.counters ≡ c = cc in rw same (rw (stats_lem reset v))

-- `GET /stats` of a selector that counts, with a query whose parameters are `p` and `ps`: the body
-- is the encoding of every address with its total and its in-flight count, and the totals are
-- cleared when one of the parameters is "reset=1", and are kept otherwise, while the in-flight
-- counts stay. It holds for parameters without "&" and counters whose vectors have the same length.
pub stats_service-get :
    (to_vec : List UpstreamStat → Result Text (List ℕ)) {n : ℕ} (k : SelectorKind) {c : Counters}
    (p : Text) (ps : List Text)
    → counters_of k ≡ some c
    → IsAligned c n
    → AllFree 38 (p ∷ ps)
    → ((stats_service to_vec (codes "GET") (codes "/stats") (some (join 38 (p ∷ ps))) k).1
        ≡ some (json_reply (bytes_or_empty (to_vec (side_by_side c.addrs c.total c.inflight)))))
      × (counters_of
            (stats_service to_vec (codes "GET") (codes "/stats") (some (join 38 (p ∷ ps))) k).0
          ≡ some (record c {
            total = map (cleared (any (λ p. p =? codes "reset=1") (p ∷ ps))) c.total;
          }))
unfolding stats_service
stats_service-get to_vec k p ps e v free =
    let reset : Bool = any (λ p. p =? codes "reset=1") (p ∷ ps) in
    (
      rw (split-join 38 p ps free) (rw (stats-reported reset k e v)),
      rw (split-join 38 p ps free) (rw (stats-reported reset k e v) (stats-inflight reset k e v)),
    )

-- Parameters that do not begin with "seconds=".
abbrev pub Others : List Text → Type 0
Others [] = Unit {0}
Others (p ∷ ps) = (strip_prefix (codes "seconds=") p ≡ none) × Others ps

find_prefix-Others :
    (ps : List Text) (v : Text) (qs : List Text)
    → Others ps
    → find_prefix (codes "seconds=") (ps ++ (codes "seconds=" ++ v) ∷ qs) ≡ some v
unfolding strip_prefix
find_prefix-Others [] v qs h = rw (strip_prefix-append (codes "seconds=") v)
find_prefix-Others (p ∷ ps) v qs h = rw h.0 (find_prefix-Others ps v qs h.1)

split-query :
    (ps : List Text) (p : Text) (qs : List Text)
    → AllFree 38 (ps ++ p ∷ qs)
    → split 38 (join 38 (ps ++ p ∷ qs)) ≡ ps ++ p ∷ qs
split-query [] p qs free = split-join 38 p qs free
split-query (x ∷ ps) p qs free = split-join 38 x (ps ++ p ∷ qs) free

clamped : (n : ℕ) → (1 ≤ clamp 1 300 n) × (clamp 1 300 n ≤ 300)
unfolding clamp
clamped n = ground arith

-- `query_seconds` reads the number of the first parameter that begins with "seconds=", for a number
-- below 2 ^ 64 and parameters without "&".
pub query_seconds-first :
    (ps : List Text) (n : ℕ) (qs : List Text)
    → Others ps
    → n < 2 ^ 64
    → AllFree 38 (ps ++ (codes "seconds=" ++ decimal n) ∷ qs)
    → query_seconds (some (join 38 (ps ++ (codes "seconds=" ++ decimal n) ∷ qs))) ≡ some n
unfolding query_seconds Option.bind
query_seconds-first ps n qs others small free = rw (
  split-query ps (codes "seconds=" ++ decimal n) qs free,
  find_prefix-Others ps (decimal n) qs others,
  parse_uint-decimal (2 ^ 64) n small,
)

-- `handle` of pprof_server.rs asks for a profile of 1 to 300 seconds only, whatever the request: its
-- answer is the same for two ways of collecting that agree for those.
pub handle-clamped :
    (collect collect' : ℕ → Format → Result Text (List ℕ)) (method path : Text)
    (query : Option Text)
    → ((n : ℕ) (f : Format) → 1 ≤ n → n ≤ 300 → collect n f ≡ collect' n f)
    → handle collect method path query ≡ handle collect' method path query
unfolding handle
handle-clamped collect collect' method path query same =
    let (lo, hi) = clamped (unwrap_or (query_seconds query) 30) in
    rw (
      same (clamp 1 300 (unwrap_or (query_seconds query) 30)) protobuf lo hi,
      same (clamp 1 300 (unwrap_or (query_seconds query) 30)) flamegraph lo hi,
    )
