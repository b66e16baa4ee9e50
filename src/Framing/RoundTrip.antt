-- ===== src/Framing/RoundTrip.antt =====
-- A frame of quic_proxy/framing.rs as it is written and read.
use service_proxy.Dial.Io.{Io}
use service_proxy.Framing.{to_be_bytes, from_be_bytes, read_frame, write_frame}
use service_proxy.Shared.Result.{ok, Result-cases}
use service_proxy.Shared.{
  ℕ, ◌%◌, ◌^◌, ◌<◌, ◌≡◌, refl, ap, inl, inr, List, [], ◌++◌, length, arith, append_assoc, ◌∙◌,
}

from_be_bytes-to_be_bytes : (n : ℕ) → n < 2 ^ 32 → from_be_bytes (to_be_bytes n) ≡ n
unfolding from_be_bytes to_be_bytes
from_be_bytes-to_be_bytes n h = omega arith

length-to_be_bytes : (n : ℕ) → length (to_be_bytes n) ≡ 4
unfolding to_be_bytes
length-to_be_bytes n = refl

-- A frame that arrives is read, whoever has written it, and what comes after it is left.
pub read_frame-lem :
    (net : Io) (payload rest : List ℕ) (r : net.Reader)
    → length payload < 2 ^ 32
    → net.pending r ≡ to_be_bytes (length payload % 2 ^ 32) ++ (payload ++ rest)
    → (r' : net.Reader) × (read_frame net r ≡ ok (payload, r')) × (net.pending r' ≡ rest)
unfolding read_frame
read_frame-lem net payload rest r small ahead =
    let len : List ℕ = to_be_bytes (length payload % 2 ^ 32) in
    let (r1, e1, p1) = net.read_exact-lem r 4 len (payload ++ rest) four ahead in
    let (r2, e2, p2) = net.read_exact-lem r1 (length payload) payload rest refl p1 in
    (r2, rw (e1, same, e2), p2)
  where
    four : length (to_be_bytes (length payload % 2 ^ 32)) ≡ 4
    four = length-to_be_bytes (length payload % 2 ^ 32)

    same : from_be_bytes (to_be_bytes (length payload % 2 ^ 32)) ≡ length payload
    same = from_be_bytes-to_be_bytes (length payload % 2 ^ 32) (omega arith) ∙ omega arith

-- What a stream has been given: `write_all` adds its bytes, and `flush` none.
module _ (net : Io) (sent : net.Conn → List ℕ)
    (write_all-sent : (bs : List ℕ) (w w' : net.Conn)
      → net.write_all bs w ≡ ok w'
      → sent w' ≡ sent w ++ bs)
    (flush-sent : (w w' : net.Conn) → net.flush w ≡ ok w' → sent w' ≡ sent w) where
  pub write_frame-sent :
      (payload : List ℕ) (w w' : net.Conn)
      → write_frame net payload w ≡ ok w'
      → sent w' ≡ sent w ++ to_be_bytes (length payload % 2 ^ 32) ++ payload
  unfolding write_frame
  write_frame-sent payload w w' e =
      elim (Result-cases (net.write_all (to_be_bytes (length payload % 2 ^ 32)) w)) [
        | inr (x, bad) ↦ absurd (ground arith)
        | inl (w1, e1) ↦ elim (Result-cases (net.write_all payload w1)) [
          | inr (x, bad) ↦ absurd (ground arith)
          | inl (w2, e2) ↦
              let done : net.flush w2 ≡ ok w' = ground arith in
              flush-sent w2 w' done
              ∙ write_all-sent payload w1 w2 e2
              ∙ ap (λ s. s ++ payload)
                  (write_all-sent (to_be_bytes (length payload % 2 ^ 32)) w w1 e1)
              ∙ simp append_assoc
        ]
      ]

  -- Where a payload shorter than 2 ^ 32 bytes has been written to a stream that had been given
  -- nothing, the other end reads that payload and leaves what comes after it.
  pub read_frame-write_frame :
      (payload rest : List ℕ) (w w' : net.Conn) (r : net.Reader)
      → length payload < 2 ^ 32
      → sent w ≡ []
      → write_frame net payload w ≡ ok w'
      → net.pending r ≡ sent w' ++ rest
      → (r' : net.Reader) × (read_frame net r ≡ ok (payload, r')) × (net.pending r' ≡ rest)
  read_frame-write_frame payload rest w w' r small fresh e arrives =
      read_frame-lem net payload rest r small (
        arrives
        ∙ ap (λ s. s ++ rest)
            (write_frame-sent payload w w' e
              ∙ ap (λ s. s ++ to_be_bytes (length payload % 2 ^ 32) ++ payload) fresh)
        ∙ simp append_assoc)
