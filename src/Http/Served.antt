-- ===== src/Http/Served.antt =====
-- The end of `read_http11_request` of proxy_http.rs, and `handle_conn` with a selector.
use service_proxy.Balancer.Kind
use service_proxy.Balancer.Kind.Tracking.{System, Reach, start, Counting}
use service_proxy.Balancer.Kind.{SelectorKind}
use service_proxy.Balancer.Rng.{Rng}
use service_proxy.Dial.Io.{Io}
use service_proxy.Dial.Types.{Request, Response, IoError, UpstreamError}
use service_proxy.Http.{
  find_header_end, Head, complete, partial_head, bad_head, add_fields, no_fields, Stream,
  read_content, parse_request, read_head, read_http11_request, unread_request, conn_reply,
  handle_conn,
}
use service_proxy.Proxy.{give_back}
use service_proxy.Proxy.InFlight.{inflight_of, restored, returns}
use service_proxy.Shared.Call.{Call, yields, overflowed, blocked, spent, map_call}
use service_proxy.Shared.Result.{Result, ok, err, Result-cases}
use service_proxy.Shared.Strings.{is_empty}
use service_proxy.Shared.Text.{Text}
use service_proxy.Shared.{
  ℕ, zero, suc, ◌-◌, ◌^◌, ◌≤◌, ◌<◌, ◌≡◌, ◌≢◌, refl, ap, inl, inr, ltb, false, some, List, [], ◌∷◌,
  ◌++◌, length, length-append, take, drop, arith, Bool-cases, Option-cases,
}

nonempty : (xs : List ℕ) → is_empty xs ≡ false → 0 < length xs
nonempty [] h = absurd cc
nonempty (x ∷ xs) h = omega arith

module _ (net : Io) (stream : Stream net) (httparse : List ℕ → Head) where
  open net use {Conn}
  open stream use {read, waits, unread, read-unread}

  shrinks :
      (room : ℕ) (c c1 : Conn) (xs : List ℕ)
      → read room c ≡ ok (xs, c1)
      → is_empty xs ≡ false
      → length (unread c1) < length (unread c)
  shrinks room c c1 xs e some_read = omega (
    arith,
    ap length (read-unread room c c1 xs e),
    length-append xs (unread c1),
    nonempty xs some_read,
  )

  read_content-total :
      (fuel n : ℕ) (body : List ℕ) (c : Conn)
      → length (unread c) < fuel
      → read_content net stream httparse fuel n body c ≢ spent
  unfolding read_content
  read_content-total zero n body c h = elim h [ ]
  read_content-total (suc fuel) n body c h = elim (Bool-cases (ltb (length body) n)) [
    | inr full ↦ ground arith
    | inl short ↦ elim (Bool-cases (ltb (n - length body) (2 ^ 63))) [
      | inr large ↦ ground (arith, short, large)
      | inl fits ↦ elim (Bool-cases (waits c)) [
        | inl silent ↦ ground (arith, short, fits, silent)
        | inr heard ↦ elim (Result-cases (read (n - length body) c)) [
          | inr (x, failed) ↦ ground arith
          | inl ((xs, c1), e) ↦ elim (Bool-cases (is_empty xs)) [
            | inl ended ↦ ground arith
            | inr some_read ↦
                let less = shrinks (n - length body) c c1 xs e some_read in
                ground (arith, read_content-total fuel n (body ++ xs) c1 (omega (arith, less)))
          ]
        ]
      ]
    ]
  ]

  map_call-spent : {A B : Type 0} (f : A → B) (m : Call A) → m ≢ spent → map_call f m ≢ spent
  map_call-spent f (yields a) h = ground arith
  map_call-spent f overflowed h = ground arith
  map_call-spent f blocked h = ground arith
  map_call-spent f spent h = absurd (h refl)

  parse_request-total :
      (buf : List ℕ) (k : ℕ) (c : Conn) → parse_request net stream httparse buf k c ≢ spent
  unfolding parse_request
  parse_request-total buf k c = go (httparse (take k buf)) refl
    where
      go :
          (h : Head) → httparse (take k buf) ≡ h → parse_request net stream httparse buf k c ≢ spent
      go partial_head e = ground arith
      go (bad_head x) e = ground arith
      go (complete method path headers) e =
          rw (e, parse_request)
            (map_call-spent _ _ (
              read_content-total (suc (length (unread c)))
                (add_fields headers no_fields).content_length (drop k buf) c (omega arith)))

  read_head-total :
      (fuel : ℕ) (buf : List ℕ) (c : Conn)
      → length (unread c) < fuel
      → read_head net stream httparse fuel buf c ≢ spent
  unfolding read_head
  read_head-total zero buf c h = elim h [ ]
  read_head-total (suc fuel) buf c h = elim (Bool-cases (waits c)) [
    | inl silent ↦ ground (arith, silent)
    | inr heard ↦ elim (Result-cases (read 1024 c)) [
      | inr (x, failed) ↦ ground arith
      | inl ((xs, c1), e) ↦ elim (Bool-cases (is_empty xs)) [
        | inl ended ↦ ground arith
        | inr some_read ↦ elim (Option-cases (find_header_end (buf ++ xs))) [
          | inr (k, found) ↦ ground (arith, parse_request-total (buf ++ xs) k c1)
          | inl missing ↦
              let less = shrinks 1024 c c1 xs e some_read in
              ground (arith, read_head-total fuel (buf ++ xs) c1 (omega (arith, less)))
        ]
      ]
    ]
  ]

  -- The fuel of `read_http11_request` is enough.
  pub read_http11_request-total : (c : Conn) → read_http11_request net stream httparse c ≢ spent
  unfolding read_http11_request
  read_http11_request-total c = read_head-total (suc (length (unread c))) [] c (omega arith)

  -- `handle_conn` with a selector that counts, in any state that is reached from its start: when no
  -- request can be read it leaves the selector alone; otherwise, once `next` has chosen an upstream,
  -- it writes the response, or status 502 when the forward fails, and in both cases it leaves the
  -- in-flight counts as it found them. It holds for at least one upstream and at most 2 ^ 31.
  pub handle_conn-inflight :
      (r : Rng) (addrs : List Text) (strategy : Text) (g : r.State) {s : System r}
      (forward : Text → Request → Result UpstreamError Response) (conn : Conn)
      → Counting strategy
      → 0 < length addrs
      → length addrs ≤ 2 ^ 31
      → Reach r (start r addrs strategy g) s
      → {k : SelectorKind} {g' : r.State} (addr : Text) (tok : ℕ)
      → Kind.next r (s.kind, s.gen) ≡ ((k, g'), some (addr, tok))
      → ((e : IoError)
          → read_http11_request net stream httparse conn ≡ yields (err e)
          → handle_conn net stream httparse r forward conn (s.kind, s.gen)
            ≡ ((s.kind, s.gen), some (unread_request e)))
        × ((req : Request) (conn' : Conn)
            → read_http11_request net stream httparse conn ≡ yields (ok (req, conn'))
            → (u : SelectorKind) × (handle_conn net stream httparse r forward conn (s.kind, s.gen)
                ≡ ((u, g'), some (conn_reply net stream httparse conn' (forward addr req))))
              × (inflight_of u ≡ inflight_of s.kind))
  unfolding handle_conn give_back
  handle_conn-inflight r addrs strategy g {s} forward conn counting pos small reach {k} {g'} addr
        tok chosen =
      (
        λ e failed. rw (failed, handle_conn),
        λ req conn' parsed. (
          (Kind.release tok k).0,
          rw (parsed, handle_conn)
              (rw chosen
                (rw (returns r addrs strategy g counting pos small reach addr tok chosen))),
          restored r addrs strategy g counting pos small reach addr tok chosen,
        ),
      )
