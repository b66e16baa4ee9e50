-- ===== src/Main/Startup.antt =====
-- What `main` of crates/service-proxy/src/main.rs starts, and what stops it.
use service_proxy.Balancer.Kind
use service_proxy.Balancer.Kind.{SelectorKind}
use service_proxy.Config.{Config}
use service_proxy.Main.{
  Host, Service, pprof, stats, tokio_metrics, Server, Boot, ◌>>=◌, ◌>>◌, try, spawn, resume,
  spawn_if, parse_listen_addr, maybe_spawn_tokio_metrics, serve_mode, main_with,
}
use service_proxy.Shared.Result.{Result, ok, err, Result-cases}
use service_proxy.Shared.Strings.{is_empty}
use service_proxy.Shared.Text.{Text}
use service_proxy.Shared.{
  ◌≡◌, refl, sym, ap, ◌∙◌, inl, inr, Bool, true, false, not, ◌&&◌, List, [], ◌∷◌, ◌++◌,
  if◌then◌else◌, append-nil, append_assoc,
}
use mathlib.Core.Path.{fun_ext}
use service_proxy.Tls.{Crates}

module _ (h : Host) where
  -- A service that is asked for, with the address that it is given.
  abbrev pub Wish : Type 0
  Wish = (h.SocketAddr → Service h) × Text

  abbrev pub wish : Bool → (h.SocketAddr → Service h) → Text → List Wish
  wish on make addr = if on then (make, addr) ∷ [] else []

  -- The services that a configuration asks for, in the order in which they are started: the profiler
  -- where it has an address, the statistics where they have one and the selector has some, and the
  -- metrics of tokio where they have one and the program was built with them.
  unfoldable pub wanted : Bool → Config → List Wish
  wanted tokio_unstable cfg =
      let selector : SelectorKind = Kind.new_selector cfg.upstream_addrs cfg.lb_strategy in
      wish (not (is_empty cfg.pprof_addr)) pprof cfg.pprof_addr
      ++ (wish (Kind.has_stats selector && not (is_empty cfg.stats_addr)) (λ a. stats a selector)
            cfg.stats_addr
          ++ wish (tokio_unstable && not (is_empty cfg.tokio_metrics_addr)) tokio_metrics
              cfg.tokio_metrics_addr)

  -- Each in turn, up to the first address that cannot be used.
  start_each : List Wish → Boot h (Unit {0})
  start_each [] = try (ok tt)
  start_each ((make, addr) ∷ rest) = do
    a ← try (parse_listen_addr h addr)
    spawn (make a)
    start_each rest

  -- The addresses are those that `resolve` says.
  abbrev pub Resolved : (Text → h.SocketAddr) → List Wish → Type 0
  Resolved resolve [] = Unit {0}
  Resolved resolve ((make, addr) ∷ rest) =
      (parse_listen_addr h addr ≡ ok (resolve addr)) × Resolved resolve rest

  abbrev pub services : (Text → h.SocketAddr) → List Wish → List (Service h)
  services resolve [] = []
  services resolve ((make, addr) ∷ rest) = make (resolve addr) ∷ services resolve rest

  start_each-Resolved :
      (resolve : Text → h.SocketAddr) (ws rest : List Wish) (spawned : List (Service h))
      → Resolved resolve ws
      → start_each (ws ++ rest) spawned ≡ start_each rest (spawned ++ services resolve ws)
  unfolding start_each
  start_each-Resolved resolve [] rest spawned known =
      ap (start_each rest) (sym (append-nil spawned))
  start_each-Resolved resolve ((make, addr) ∷ ws) rest spawned known = rw known.0 (
      start_each-Resolved resolve ws rest (spawned ++ make (resolve addr) ∷ []) known.1
      ∙ ap (start_each rest)
          (append_assoc spawned (make (resolve addr) ∷ []) (services resolve ws)))

  -- A service that may be asked for, before those that are.
  spawn_if-each :
      (on : Bool) (make : h.SocketAddr → Service h) (addr : Text) (ws : List Wish)
      (end : Boot h (Unit {0})) (spawned : List (Service h))
      → (spawn_if h on make addr >> (start_each ws >> end)) spawned
        ≡ (start_each (wish on make addr ++ ws) >> end) spawned
  unfolding spawn_if start_each
  spawn_if-each false make addr ws end spawned = refl
  spawn_if-each true make addr ws end spawned = elim (Result-cases (parse_listen_addr h addr)) [
    | inl (a, parsed) ↦ rw parsed refl
    | inr (e, failed) ↦ rw failed refl
  ]

  start_each-fails :
      (make : h.SocketAddr → Service h) (addr : Text) (rest : List Wish) (e : Text)
      (end : Boot h (Unit {0})) (spawned : List (Service h))
      → parse_listen_addr h addr ≡ err e
      → (start_each ((make, addr) ∷ rest) >> end) spawned ≡ (spawned, err e)
  unfolding start_each
  start_each-fails make addr rest e end spawned failed = rw failed refl

  module _ (c : Crates) (serve : SelectorKind → Server h c → Result Text (Unit {0})) where
    -- The last step of `main`.
    abbrev pub serving : Config → Result Text (Unit {0})
    serving cfg =
        serve_mode h c serve cfg (Kind.new_selector cfg.upstream_addrs cfg.lb_strategy) cfg.mode

    main_with-each :
        (tokio_unstable : Bool) (cfg : Config) (spawned : List (Service h))
        → main_with h c serve tokio_unstable cfg spawned
          ≡ (start_each (wanted tokio_unstable cfg) >> try (serving cfg)) spawned
    unfolding main_with wanted start_each maybe_spawn_tokio_metrics spawn_if
    main_with-each tokio_unstable cfg spawned =
        let selector : SelectorKind = Kind.new_selector cfg.upstream_addrs cfg.lb_strategy in
        let end : Boot h (Unit {0}) = try (serving cfg) in
        let pprof_on : Bool = not (is_empty cfg.pprof_addr) in
        let stats_on : Bool = Kind.has_stats selector && not (is_empty cfg.stats_addr) in
        let metrics_on : Bool = tokio_unstable && not (is_empty cfg.tokio_metrics_addr) in
        let profiling : Boot h (Unit {0}) = spawn_if h pprof_on pprof cfg.pprof_addr in
        let counting : Boot h (Unit {0}) =
          spawn_if h stats_on (λ a. stats a selector) cfg.stats_addr in
        let three : List Wish = wish metrics_on tokio_metrics cfg.tokio_metrics_addr in
        let two : List Wish = wish stats_on (λ a. stats a selector) cfg.stats_addr ++ three in
        ap (λ k. (profiling >> (counting >> k)) spawned)
          (fun_ext (λ sofar.
            spawn_if-each metrics_on tokio_metrics cfg.tokio_metrics_addr [] end sofar
            ∙ ap (λ ws. (start_each ws >> end) sofar) (append-nil three)))
        ∙ ap (λ k. (profiling >> k) spawned)
            (fun_ext (spawn_if-each stats_on (λ a. stats a selector) cfg.stats_addr three end))
        ∙ spawn_if-each pprof_on pprof cfg.pprof_addr two end spawned

    -- Where every address of the services that a configuration asks for can be used, `main` spawns
    -- those services, all and in that order, and ends as the server of its mode ends.
    pub main-starts :
        (tokio_unstable : Bool) (cfg : Config) (resolve : Text → h.SocketAddr)
        → Resolved resolve (wanted tokio_unstable cfg)
        → main_with h c serve tokio_unstable cfg []
          ≡ (services resolve (wanted tokio_unstable cfg), serving cfg)
    unfolding start_each
    main-starts tokio_unstable cfg resolve known =
        main_with-each tokio_unstable cfg []
        ∙ ap
            (λ (out : List (Service h) × Result Text (Unit {0})).
              resume (λ _. try (serving cfg)) out.0 out.1)
            (ap (λ ws. start_each ws []) (sym (append-nil (wanted tokio_unstable cfg)))
              ∙ start_each-Resolved resolve (wanted tokio_unstable cfg) [] [] known)

    -- Where one address cannot be used, `main` ends with its error, has spawned the services before
    -- it only, and serves no client, whatever the server would have done.
    pub main-refuses :
        (tokio_unstable : Bool) (cfg : Config) (resolve : Text → h.SocketAddr) (before : List Wish)
        (make : h.SocketAddr → Service h) (addr : Text) (after : List Wish) (e : Text)
        → wanted tokio_unstable cfg ≡ before ++ (make, addr) ∷ after
        → Resolved resolve before
        → parse_listen_addr h addr ≡ err e
        → main_with h c serve tokio_unstable cfg [] ≡ (services resolve before, err e)
    main-refuses tokio_unstable cfg resolve before make addr after e asked known failed =
        main_with-each tokio_unstable cfg []
        ∙ ap (λ ws. (start_each ws >> try (serving cfg)) []) asked
        ∙ ap
            (λ (out : List (Service h) × Result Text (Unit {0})).
              resume (λ _. try (serving cfg)) out.0 out.1)
            (start_each-Resolved resolve before ((make, addr) ∷ after) [] known)
        ∙ start_each-fails make addr after e (try (serving cfg)) (services resolve before) failed
