-- ===== src/Dial/Total.antt =====
-- The fuel of `read_response`, `forward` and `forward_http` of upstream/dial.rs is enough.
use service_proxy.Dial.Io.{Io}
use service_proxy.Dial.Types.{Request}
use service_proxy.Dial.Wire.{
  Parsed, Attempt, elapsed, refused, connected, parse_header, parse_status, read_headers, read_body,
  read_rest, read_response, write_request, forward, forward_http,
}
use service_proxy.Shared.Call.{Call, yields, overflowed, blocked, spent, map_call, and_then}
use service_proxy.Shared.Result.{Result, ok, err, Result-cases}
use service_proxy.Shared.Strings.{is_empty, is_newline, trim_end_by}
use service_proxy.Shared.Text.{Text}
use service_proxy.Shared.{
  Option, ℕ, zero, suc, ◌<◌, ◌≡◌, refl, ap, ◌≢◌, inl, inr, false, none, some, [], arith, length,
  Bool-cases,
}

trim_end_by-nil : trim_end_by is_newline [] ≡ []
unfolding trim_end_by
trim_end_by-nil = refl

not_nil : (raw : Text) → is_empty (trim_end_by is_newline raw) ≡ false → raw ≢ []
not_nil raw h e = cc (ap (λ s. is_empty (trim_end_by is_newline s)) e, ap is_empty trim_end_by-nil)

module _ (net : Io) where
  open net use {Reader, Conn, pending, waits, read_line, read_line-shrinks}

  read_headers-total :
      (fuel : ℕ) (p : Parsed) (b : Reader)
      → length (pending b) < fuel
      → read_headers net fuel p b ≢ spent
  unfolding read_headers
  read_headers-total zero p b h = elim h [ ]
  read_headers-total (suc fuel) p b h = elim (Bool-cases (waits b)) [
    | inl silent ↦ ground (arith, silent)
    | inr heard ↦ elim (Result-cases (read_line b)) [
      | inr (e, failed) ↦ ground (arith)
      | inl ((raw, b'), read) ↦ elim (Bool-cases (is_empty (trim_end_by is_newline raw))) [
        | inl ended ↦ ground arith
        | inr more ↦ elim (Result-cases (parse_header (trim_end_by is_newline raw) p)) [
          | inr (e, bad) ↦ ground arith
          | inl (p', good) ↦
              let less = read_line-shrinks b b' raw read (not_nil raw more) in
              ground (arith, read_headers-total fuel p' b' (omega arith))
        ]
      ]
    ]
  ]

  read_body-total : (n : Option ℕ) (b : Reader) → read_body net n b ≢ spent
  unfolding read_body
  read_body-total none b = ground arith
  read_body-total (some n) b = ground arith

  and_then-total :
      {E A B : Type 0} (m : Call (Result E A)) (f : A → Call (Result E B))
      → m ≢ spent
      → ((a : A) → f a ≢ spent)
      → and_then m f ≢ spent
  and_then-total (yields (ok a)) f h k = k a
  and_then-total (yields (err e)) f h k = ground arith
  and_then-total overflowed f h k = ground arith
  and_then-total blocked f h k = ground arith
  and_then-total spent f h k = absurd (h refl)

  map_call-total : {A B : Type 0} (m : Call A) (f : A → B) → m ≢ spent → map_call f m ≢ spent
  map_call-total (yields a) f h = ground arith
  map_call-total overflowed f h = ground arith
  map_call-total blocked f h = ground arith
  map_call-total spent f h = absurd (h refl)

  read_rest-total :
      (fuel code : ℕ) (b : Reader) → length (pending b) < fuel → read_rest net fuel code b ≢ spent
  unfolding read_rest
  read_rest-total fuel code b h =
      and_then-total _ _
        (read_headers-total fuel (record { headers = []; content_length = none }) b h)
        (λ (p, b').
          and_then-total _ _ (read_body-total p.content_length b') (λ (body, b''). ground arith))

  read_response-total : (b : Reader) → read_response net b ≢ spent
  unfolding read_response
  read_response-total b = elim (Bool-cases (waits b)) [
    | inl silent ↦ ground (arith, silent)
    | inr heard ↦ elim (Result-cases (read_line b)) [
      | inr (e, failed) ↦ ground arith
      | inl ((line, b'), read) ↦ elim (Result-cases (parse_status line)) [
        | inr (e, bad) ↦ ground arith
        | inl (code, good) ↦
            ground (arith, read_rest-total (suc (length (pending b'))) code b' (omega arith))
      ]
    ]
  ]

  -- Forwarding a request over a connection, or over one that is dialed first, never runs out of fuel.
  pub forward-total :
      (req : Request)
      → ((conn : Conn) → forward net req conn ≢ spent)
        × ((attempt : Attempt Conn) → forward_http net attempt req ≢ spent)
  unfolding forward forward_http
  forward-total req = (over, dialed)
    where
      over : (conn : Conn) → forward net req conn ≢ spent
      over conn = elim (Result-cases (write_request net req conn)) [
        | inr (e, failed) ↦ ground arith
        | inl (conn', sent) ↦ ground (arith, read_response-total (net.buffered conn'))
      ]

      dialed : (attempt : Attempt Conn) → forward_http net attempt req ≢ spent
      dialed elapsed = ground arith
      dialed (refused e) = ground arith
      dialed (connected conn) = ground (arith, over conn)
