-- ===== src/Admin.antt =====
-- The endpoints for operators: `serve_stats` of crates/service-proxy/src/main.rs and the handler of
-- pprof_server.rs. The JSON encoder and the profiler are arguments.
pub mod Queries
pub mod Profile
pub mod Queue
use service_proxy.Balancer.Counters.{UpstreamStat}
use service_proxy.Balancer.Kind
use service_proxy.Balancer.Kind.{SelectorKind}
use service_proxy.Config.{unwrap_or}
use service_proxy.Shared.Result.{Result, ok, err}
use service_proxy.Shared.Strings.{split, strip_prefix, parse_uint, as_bytes}
use service_proxy.Shared.Text.{Text, codes, ◌=?◌}
use service_proxy.Shared.{
  ℕ, ◌^◌, Bool, true, false, ltb, ◌&&◌, ◌||◌, Option, none, some, List, [], ◌∷◌, ◌++◌,
  if◌then◌else◌, Op, pure, ◌>>=◌, ◌>>◌,
}
use mathlib.Core.Option

-- What an endpoint answers.
pub record Reply : Type 0 where
  pub status : ℕ
  pub headers : List (Text × Text)
  pub body : List ℕ

-- `any`
abbrev pub any : (Text → Bool) → List Text → Bool
any p [] = false
any p (x ∷ xs) = p x || any p xs

-- `q.split('&').any(|p| p == "reset=1")`
unfoldable pub is_reset : Option Text → Bool
is_reset none = false
is_reset (some q) = any (λ p. p =? codes "reset=1") (split 38 q)

-- `unwrap_or_default` on a result.
abbrev pub bytes_or_empty : Result Text (List ℕ) → List ℕ
bytes_or_empty (ok body) = body
bytes_or_empty (err e) = []

abbrev pub json_reply : List ℕ → Reply
json_reply body = record {
  status = 200;
  headers = (codes "content-type", codes "application/json") ∷ [];
  body = body;
}

abbrev pub not_found : Reply
not_found = record { status = 404; headers = []; body = [] }

-- The service of `serve_stats`, with `serde_json::to_vec`.
unfoldable pub stats_service :
    (List UpstreamStat → Result Text (List ℕ)) → Text → Text → Option Text → Op SelectorKind Reply
unfolding is_reset
stats_service to_vec method path query =
    if (method =? codes "GET") && (path =? codes "/stats")
    then (do
      stats ← Kind.stats (is_reset query)
      pure (json_reply (bytes_or_empty (to_vec (unwrap_or stats [])))))
    else pure not_found

-- `find_map(|p| p.strip_prefix(…))`
abbrev pub find_prefix : Text → List Text → Option Text
find_prefix prefix [] = none
find_prefix prefix (p ∷ ps) = elim (strip_prefix prefix p) [
  | none ↦ find_prefix prefix ps
  | some v ↦ some v
]

-- `query_seconds`
unfoldable pub query_seconds : Option Text → Option ℕ
query_seconds query =
    Option.bind query
      (λ q. Option.bind (find_prefix (codes "seconds=") (split 38 q)) (parse_uint (2 ^ 64)))

-- `clamp`
unfoldable pub clamp : ℕ → ℕ → ℕ → ℕ
clamp lo hi n = if ltb n lo then lo else if ltb hi n then hi else n

-- `simple`
unfoldable pub simple : ℕ → Text → Reply
simple status body = record {
  status = status;
  headers = (codes "content-type", codes "text/plain") ∷ [];
  body = as_bytes body;
}

pub data Format : Type 0 where
  protobuf flamegraph : Format

-- The arms of the `match` on the path, with how the collection ends.
unfoldable pub profile_reply : Result Text (List ℕ) → Reply
unfolding simple
profile_reply (ok body) = record {
  status = 200;
  headers =
      (codes "content-type", codes "application/octet-stream")
      ∷ (codes "content-disposition", codes "attachment; filename=\"profile.pb\"")
      ∷ [];
  body = body;
}
profile_reply (err e) = simple 500 (codes "profile failed: " ++ e)

unfoldable pub flamegraph_reply : Result Text (List ℕ) → Reply
unfolding simple
flamegraph_reply (ok body) = record {
  status = 200;
  headers = (codes "content-type", codes "image/svg+xml") ∷ [];
  body = body;
}
flamegraph_reply (err e) = simple 500 (codes "flamegraph failed: " ++ e)

-- `handle` of pprof_server.rs, with `collect`.
unfoldable pub handle : (ℕ → Format → Result Text (List ℕ)) → Text → Text → Option Text → Reply
unfolding query_seconds clamp profile_reply flamegraph_reply simple
handle collect method path query =
    let seconds : ℕ = clamp 1 300 (unwrap_or (query_seconds query) 30) in
    if method =? codes "GET"
    then (if path =? codes "/debug/pprof/profile"
        then profile_reply (collect seconds protobuf)
        else if path =? codes "/debug/pprof/flamegraph"
        then flamegraph_reply (collect seconds flamegraph)
        else simple 404
            (codes "try /debug/pprof/profile?seconds=30 or /debug/pprof/flamegraph?seconds=30"))
    else simple 405 (codes "method not allowed")
