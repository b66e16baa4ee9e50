-- ===== src/Proxy/InFlight.antt =====
-- The in-flight counts around the handlers of grpc_proxy.rs and quic_proxy/mod.rs.
use service_proxy.Balancer.Counters.{Counters}
use service_proxy.Balancer.Counters.Laws.{IsAligned, release_lem}
use service_proxy.Balancer.Kind
use service_proxy.Balancer.Kind.Serves.{counters_of}
use service_proxy.Balancer.Kind.Tracking.{
  System, takes, gives, Reach, start, Counting, IsTracking, Reach-IsTracking, start-IsTracking,
  Step-IsTracking,
}
use service_proxy.Balancer.Kind.{
  SelectorKind, fixed, round_robin, counting_round_robin, least_conn, p2c,
}
use service_proxy.Balancer.LeastConn
use service_proxy.Balancer.P2c
use service_proxy.Balancer.Rng.{Rng}
use service_proxy.Balancer.RoundRobin.{counting_release}
use service_proxy.Dial.Io.{Io}
use service_proxy.Dial.Types.{Request, Response, IoError, UpstreamError}
use service_proxy.Framing.{to_be_bytes, read_frame, write_frame}
use service_proxy.Framing.RoundTrip.{write_frame-sent}
use service_proxy.Proxy.{
  StreamError, io_failed, echo_request, echo_reply, give_back, echo, quic_reply, handle_quic_stream,
}
use service_proxy.Shared.Result.{Result, ok, err, Result-cases}
use service_proxy.Shared.Text.{Text}
use service_proxy.Shared.{
  ℕ, zero, suc, inl, inr, ◌++◌, append_assoc, ◌%◌, ◌^◌, ◌≤◌, ◌<◌, ◌≡◌, refl, sym, ap, ◌∙◌, Option,
  none, some, List, [], ◌∷◌, length, get_elem?, arith, eq_of_get_elem?,
}
use mathlib.Core.Option
use native.Mathlib.Decide.{dec_lt}

release-some :
    {n token : ℕ} (k : SelectorKind) {c : Counters}
    → n ≤ 2 ^ 31
    → token < n
    → counters_of k ≡ some c
    → IsAligned c n
    → (Kind.release token k).1 ≡ some tt
unfolding Kind.release LeastConn.release P2c.release counting_release
release-some (fixed s) small lt e v = absurd (cc)
release-some (round_robin s) small lt e v = absurd (cc)
release-some {n} {token} (counting_round_robin s) {c} small lt e v =
    let same : s.counters ≡ c = cc in rw same (rw (release_lem v small lt))
release-some {n} {token} (least_conn s) {c} small lt e v =
    let same : s.counters ≡ c = cc in rw same (rw (release_lem v small lt))
release-some {n} {token} (p2c s) {c} small lt e v =
    let same : s.counters ≡ c = cc in rw same (rw (release_lem v small lt))

-- The in-flight counts of a selector that has them.
abbrev pub inflight_of : SelectorKind → Option (List ℕ)
inflight_of k = Option.map (λ (c : Counters). c.inflight) (counters_of k)

get_elem?-none : (xs : List ℕ) (i : ℕ) → length xs ≤ i → get_elem? xs i ≡ none
get_elem?-none [] i h = refl
get_elem?-none (x ∷ xs) zero h = absurd (omega arith)
get_elem?-none (x ∷ xs) (suc i) h = get_elem?-none xs i (omega arith)

-- The counts are those of the tokens held.
same_inflight :
    {r : Rng} {n : ℕ} {k k' : SelectorKind} {g g' : r.State} {held : List ℕ}
    → IsTracking {r = r} n (record { kind = k; gen = g; held = held })
    → IsTracking {r = r} n (record { kind = k'; gen = g'; held = held })
    → inflight_of k' ≡ inflight_of k
same_inflight {r} {n} v v' =
    rw (v.counted, v'.counted)
      (ap some (eq_of_get_elem? v'.counters.inflight v.counters.inflight entry))
  where
    entry : (i : ℕ) → get_elem? v'.counters.inflight i ≡ get_elem? v.counters.inflight i
    entry i = elim (dec_lt i n) [
      | yes lt ↦ v'.tracks.inflights i lt ∙ sym (v.tracks.inflights i lt)
      | no out ↦
          get_elem?-none v'.counters.inflight i (omega (arith, v'.tracks.aligned.inflight_length))
          ∙ sym (
              get_elem?-none v.counters.inflight i
                (omega (arith, v.tracks.aligned.inflight_length)))
    ]

-- What a stream has been given by a reply that ends well.
quic_reply-sent :
    (net : Io) (finish : net.Conn → Result StreamError net.Conn) (sent : net.Conn → List ℕ)
    → ((bs : List ℕ) (w w' : net.Conn) → net.write_all bs w ≡ ok w' → sent w' ≡ sent w ++ bs)
    → ((w w' : net.Conn) → net.flush w ≡ ok w' → sent w' ≡ sent w)
    → ((w w' : net.Conn) → finish w ≡ ok w' → sent w' ≡ sent w)
    → (resp : Response) (w w' : net.Conn) → quic_reply net finish w (ok resp) ≡ ok w'
    → sent w' ≡ sent w ++ (to_be_bytes (length resp.body % 2 ^ 32) ++ resp.body)
unfolding quic_reply
quic_reply-sent net finish sent writes flushes finishes resp w w' e =
    elim (Result-cases (write_frame net resp.body w)) [
      | inr (x, bad) ↦ absurd (ground (arith, bad, e))
      | inl (w1, e1) ↦
          finishes w1 w' (ground (arith, e1, e))
          ∙ write_frame-sent net sent writes flushes resp.body w w1 e1
          ∙ append_assoc (sent w) (to_be_bytes (length resp.body % 2 ^ 32)) resp.body
    ]

-- A token that `next` has handed out, given back.
module _ (r : Rng) (addrs : List Text) (strategy : Text) (g : r.State) {s : System r}
    (counting : Counting strategy) (pos : 0 < length addrs) (small : length addrs ≤ 2 ^ 31)
    (reach : Reach r (start r addrs strategy g) s) {k : SelectorKind} {g' : r.State} (addr : Text)
    (tok : ℕ) (chosen : Kind.next r (s.kind, s.gen) ≡ ((k, g'), some (addr, tok))) where
  before : IsTracking (length addrs) s
  before = Reach-IsTracking pos small (start-IsTracking r addrs strategy g counting) reach

  taken : IsTracking {r = r} (length addrs) (record { kind = k; gen = g'; held = tok ∷ s.held })
  taken = Step-IsTracking pos small (takes addr tok chosen) before

  given :
      IsTracking {r = r}
        (length addrs)
        (record { kind = (Kind.release tok k).0; gen = g'; held = s.held })
  given = Step-IsTracking pos small (gives [] tok s.held refl) taken

  pub restored : inflight_of (Kind.release tok k).0 ≡ inflight_of s.kind
  restored = same_inflight before given

  pub returns : (Kind.release tok k).1 ≡ some tt
  returns = release-some k small taken.tokens.0 taken.counted taken.tracks.aligned

  -- `GrpcProxy::echo` with a selector that counts, in any state that is reached from its start:
  -- once `next` has chosen an upstream, it answers by how the forward to that upstream ends, whether
  -- with a response or an error, and leaves the in-flight counts as it found them. It holds for at
  -- least one upstream and at most 2 ^ 31.
  pub echo-inflight :
      (forward : Text → Request → Result UpstreamError Response) (payload : List ℕ)
      → (u : SelectorKind) × (echo r forward payload (s.kind, s.gen)
          ≡ ((u, g'), some (echo_reply addr (forward addr (echo_request addr payload)))))
        × (inflight_of u ≡ inflight_of s.kind)
  unfolding echo give_back
  echo-inflight forward payload = ((Kind.release tok k).0, rw chosen (rw returns), restored)

  -- `handle_quic_stream` with a selector that counts, in any state that is reached from its start: a
  -- frame that cannot be read ends it with the error and leaves the selector alone; otherwise, once
  -- `next` has chosen an upstream, the in-flight counts are as it found them, and when the forward
  -- fails it ends well with the stream as it is, while after a forward that has succeeded, if it ends
  -- well, it has written to the stream the length of the body in four bytes, the highest first, and the
  -- body. It holds for at least one upstream and at most 2 ^ 31, where `write_all` adds its bytes to
  -- what a stream has been given and `flush` and `finish` add none.
  pub handle_quic_stream-inflight :
      (forward : Text → Request → Result UpstreamError Response) (net : Io)
      (finish : net.Conn → Result StreamError net.Conn) (sent : net.Conn → List ℕ) (send : net.Conn)
      (recv : net.Reader)
      → ((bs : List ℕ) (w w' : net.Conn) → net.write_all bs w ≡ ok w' → sent w' ≡ sent w ++ bs)
      → ((w w' : net.Conn) → net.flush w ≡ ok w' → sent w' ≡ sent w)
      → ((w w' : net.Conn) → finish w ≡ ok w' → sent w' ≡ sent w)
      → ((e : IoError)
          → read_frame net recv ≡ err e
          → handle_quic_stream r forward net finish send recv (s.kind, s.gen)
            ≡ ((s.kind, s.gen), some (err (io_failed e))))
        × ((payload : List ℕ) (recv' : net.Reader)
            → read_frame net recv ≡ ok (payload, recv')
            → (u : SelectorKind) × (out : Result StreamError net.Conn) × (handle_quic_stream r
                  forward net finish send recv
                  (s.kind, s.gen)
                ≡ ((u, g'), some out))
              × (inflight_of u ≡ inflight_of s.kind)
              × ((e : UpstreamError)
                  → forward addr (echo_request addr payload) ≡ err e
                  → out ≡ ok send)
              × ((resp : Response) (send' : net.Conn)
                  → forward addr (echo_request addr payload) ≡ ok resp
                  → out ≡ ok send'
                  → sent send'
                    ≡ sent send ++ (to_be_bytes (length resp.body % 2 ^ 32) ++ resp.body)))
  unfolding handle_quic_stream give_back quic_reply
  handle_quic_stream-inflight forward net finish sent send recv writes flushes finishes = (
    λ e failed. rw (failed, handle_quic_stream),
    λ payload recv' framed. (
      (Kind.release tok k).0,
      quic_reply net finish send (forward addr (echo_request addr payload)),
      rw (framed, handle_quic_stream) (rw chosen (rw returns)),
      restored,
      λ e failed. ap (quic_reply net finish send) failed,
      λ resp send' answered ended.
          quic_reply-sent net finish sent writes flushes finishes resp send send'
            (ap (quic_reply net finish send) (sym answered) ∙ ended),
    ),
  )
