-- ===== src/Admin/Profile.antt =====
-- `collect` and `profile_blocking` of pprof_server.rs. The profiler of the crate pprof is an
-- argument, and so is what tokio says when the blocking task does not end well.
use service_proxy.Admin.{
  Format, protobuf, flamegraph, profile_reply, flamegraph_reply, handle, clamp, query_seconds,
}
use service_proxy.Config.{unwrap_or}
use service_proxy.Shared.Result.{Result, ok, err, map_err, ◌>>=◌, Result-cases}
use service_proxy.Shared.Strings.{is_empty}
use service_proxy.Shared.Text.{Text, codes, ◌=?◌, =?_sound}
use service_proxy.Shared.{
  ℕ, ◌≡◌, refl, ◌≢◌, ◌⊎◌, inl, inr, Bool, false, Option, none, some, List, [], ◌∷◌, ◌++◌,
  if◌then◌else◌, Bool-cases, arith,
}

-- The profiler: `build` starts it at a frequency and with the libraries that it leaves out, and
-- `report` is the report after so many seconds. An error is its message.
pub record Profiler : Type 1 where
  pub Guard : Type 0
  pub Report : Type 0
  pub Profile : Type 0
  pub build : ℕ → List Text → Result Text Guard
  pub report : ℕ → Guard → Result Text Report
  pub pprof : Report → Result Text Profile
  pub no_samples : Profile → Bool
  pub encode : Profile → Result Text (List ℕ)
  pub flamegraph : Report → Result Text (List ℕ)

abbrev pub prefixed : Text → Text → Text
prefixed what e = what ++ e

abbrev pub no_profile : Text
no_profile = codes "no samples collected (empty profile — common on macOS; use Linux/Docker)"

abbrev pub no_flamegraph : Text
no_flamegraph = codes "no samples collected (empty flamegraph — common on macOS; use Linux/Docker)"

abbrev pub blocklist : List Text
blocklist = codes "libc" ∷ codes "libgcc" ∷ codes "pthread" ∷ codes "vdso" ∷ []

abbrev pub profile_path : Text
profile_path = codes "/debug/pprof/profile"

abbrev pub flamegraph_path : Text
flamegraph_path = codes "/debug/pprof/flamegraph"

module _ (p : Profiler) where
  -- The arms of the `match` on the format.
  unfoldable pub encode_report : Format → p.Report → Result Text (List ℕ)
  encode_report protobuf report = do
    profile ← map_err (prefixed (codes "pprof encode: ")) (p.pprof report)
    if p.no_samples profile
        then err no_profile
        else map_err (prefixed (codes "prost encode: ")) (p.encode profile)
  encode_report flamegraph report = do
    buf ← map_err (prefixed (codes "flamegraph: ")) (p.flamegraph report)
    if is_empty buf then err no_flamegraph else ok buf

  -- `profile_blocking`
  unfoldable pub profile_blocking : ℕ → Format → Result Text (List ℕ)
  unfolding encode_report
  profile_blocking seconds format = do
    guard ← map_err (prefixed (codes "start profiler: ")) (p.build 100 blocklist)
    report ← map_err (prefixed (codes "build report: ")) (p.report seconds guard)
    encode_report format report

  -- `collect`, with `PROFILE_LOCK` held; `join` is the error where the blocking task panics.
  unfoldable pub collect : Option Text → ℕ → Format → Result Text (List ℕ)
  unfolding profile_blocking
  collect none seconds format = profile_blocking seconds format
  collect (some join) seconds format = err (codes "join: " ++ join)

  -- What a profiler makes: the encoding of a profile that has samples, or the picture of a report.
  abbrev pub IsSampled : Format → List ℕ → Type 0
  IsSampled protobuf body =
      (profile : p.Profile) × (p.no_samples profile ≡ false) × (p.encode profile ≡ ok body)
  IsSampled flamegraph body = (report : p.Report) × (p.flamegraph report ≡ ok body) × (body ≢ [])

  drawing :
      (report : p.Report) (buf body : List ℕ)
      → p.flamegraph report ≡ ok buf
      → (if is_empty buf then err no_flamegraph else ok buf) ≡ ok body
      → IsSampled flamegraph body
  drawing report [] body drawn h = absurd (cc)
  drawing report (x ∷ buf) body drawn h =
      let same : (x ∷ buf) ≡ body = cc in rw (← same) (report, drawn, λ e. absurd (cc))

  encode_report-IsSampled :
      (f : Format) (report : p.Report) (body : List ℕ)
      → encode_report f report ≡ ok body
      → IsSampled f body
  unfolding encode_report
  encode_report-IsSampled protobuf report body h = elim (Result-cases (p.pprof report)) [
    | inr (e, failed) ↦ absurd (ground (arith, failed, h))
    | inl (profile, got) ↦ elim (Bool-cases (p.no_samples profile)) [
      | inl none_there ↦ absurd (ground (arith, got, none_there, h))
      | inr some_there ↦ elim (Result-cases (p.encode profile)) [
        | inr (e, failed) ↦ absurd (ground (arith, got, some_there, failed, h))
        | inl (buf, encoded) ↦ (profile, some_there, ground (arith, got, some_there, encoded, h))
      ]
    ]
  ]
  encode_report-IsSampled flamegraph report body h = elim (Result-cases (p.flamegraph report)) [
    | inr (e, failed) ↦ absurd (ground (arith, failed, h))
    | inl (buf, drawn) ↦ drawing report buf body drawn (ground (arith, drawn, h))
  ]

  collect-IsSampled :
      (join : Option Text) (seconds : ℕ) (f : Format) (body : List ℕ)
      → collect join seconds f ≡ ok body
      → IsSampled f body
  unfolding collect profile_blocking
  collect-IsSampled (some join) seconds f body h = absurd (cc)
  collect-IsSampled none seconds f body h = elim (Result-cases (p.build 100 blocklist)) [
    | inr (e, failed) ↦ absurd (ground (arith, failed, h))
    | inl (guard, started) ↦ elim (Result-cases (p.report seconds guard)) [
      | inr (e, failed) ↦ absurd (ground (arith, started, failed, h))
      | inl (report, built) ↦
          encode_report-IsSampled f report body (ground (arith, started, built, h))
    ]
  ]

  -- What the request is answered with is what the collection gave.
  abbrev pub Collected : Option Text → ℕ → Format → List ℕ → Type 0
  Collected join seconds f body = (collect join seconds f ≡ ok body) × IsSampled f body

  profile_reply-IsSampled :
      (join : Option Text) (seconds : ℕ)
      → (profile_reply (collect join seconds protobuf)).status ≡ 200
      → Collected join seconds protobuf (profile_reply (collect join seconds protobuf)).body
  unfolding profile_reply
  profile_reply-IsSampled join seconds h = elim (Result-cases (collect join seconds protobuf)) [
    | inr (e, failed) ↦ absurd (ground (arith, failed, h))
    | inl (body, got) ↦ rw got (refl, collect-IsSampled join seconds protobuf body got)
  ]

  flamegraph_reply-IsSampled :
      (join : Option Text) (seconds : ℕ)
      → (flamegraph_reply (collect join seconds flamegraph)).status ≡ 200
      → Collected join seconds flamegraph (flamegraph_reply (collect join seconds flamegraph)).body
  unfolding flamegraph_reply
  flamegraph_reply-IsSampled join seconds h =
      elim (Result-cases (collect join seconds flamegraph)) [
        | inr (e, failed) ↦ absurd (ground (arith, failed, h))
        | inl (body, got) ↦ rw got (refl, collect-IsSampled join seconds flamegraph body got)
      ]

  -- A request that `handle` answers with status 200 asked for a profile or for a flamegraph; the
  -- collection of it, for the seconds that the query says from 1 to 300, or 30, succeeded, and the
  -- body of the answer is what it gave: the encoding of a profile that has samples, or a flamegraph of
  -- a report that is not empty.
  pub handle-IsSampled :
      (join : Option Text) (method path : Text) (query : Option Text)
      → (handle (collect join) method path query).status ≡ 200
      → let seconds = clamp 1 300 (unwrap_or (query_seconds query) 30) in
        ((path ≡ profile_path)
          × Collected join seconds protobuf (handle (collect join) method path query).body)
        ⊎ ((path ≡ flamegraph_path)
            × Collected join seconds flamegraph (handle (collect join) method path query).body)
  unfolding handle
  handle-IsSampled join method path query h =
      let seconds : ℕ = clamp 1 300 (unwrap_or (query_seconds query) 30) in
      elim (Bool-cases (method =? codes "GET")) [
        | inr other ↦ absurd (ground (arith, other, h))
        | inl get ↦ elim (Bool-cases (path =? profile_path)) [
          | inl profiled ↦ inl (
            =?_sound path profile_path profiled,
            rw (get, profiled)
                (profile_reply-IsSampled join seconds (ground (arith, get, profiled, h))),
          )
          | inr away ↦ elim (Bool-cases (path =? flamegraph_path)) [
            | inl drawn ↦ inr (
              =?_sound path flamegraph_path drawn,
              rw (get, away, drawn)
                  (flamegraph_reply-IsSampled join seconds (ground (arith, get, away, drawn, h))),
            )
            | inr lost ↦ absurd (ground (arith, get, away, lost, h))
          ]
        ]
      ]
