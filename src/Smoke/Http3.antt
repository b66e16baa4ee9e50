-- ===== src/Smoke/Http3.antt =====
-- crates/http3-smoke-client/src/main.rs: one request over a stream of h3. The client sends its payload
-- and prints the status and the body of the response.
pub mod Streams
pub mod Answered
use service_proxy.Shared.Result.{Result, ok, err, ◌>>=◌}
use service_proxy.Shared.Strings.Utf8.{from_utf8_lossy}
use service_proxy.Shared.Text.{Text, codes}
use service_proxy.Shared.{ℕ, zero, suc, ◌<◌, ◌≡◌, Option, none, some, List, [], ◌++◌}
use mathlib.Core.Option

-- `h3::client::RequestStream`. An error is its message. A server sends finitely many chunks.
pub record ClientStream : Type 1 where
  pub Stream : Type 0
  pub send_data : List ℕ → Stream → Result Text Stream
  pub finish : Stream → Result Text Stream
  pub recv_response : Stream → Result Text (ℕ × Stream)
  pub recv_data : Stream → Result Text (Option (List ℕ) × Stream)
  pub chunks : Stream → ℕ
  pub recv_data-less :
      (s s' : Stream) (chunk : List ℕ) → recv_data s ≡ ok (some chunk, s') → chunks s' < chunks s

-- `show_status` is how the crate http prints a status.
module _ (h3 : ClientStream) (show_status : ℕ → Text) where
  open h3 use {Stream, send_data, finish, recv_response, recv_data, chunks}

  -- `main` from `send_data` to `finish`.
  unfoldable pub post : List ℕ → Stream → Result Text Stream
  post payload s = do s' ← send_data payload s; finish s'

  -- The loop over `recv_data`; `none` means that the fuel ran out.
  unfoldable pub recv_chunks : ℕ → List ℕ → Stream → Option (Result Text (List ℕ))
  recv_chunks zero body s = none
  recv_chunks (suc fuel) body s = elim (recv_data s) [
    | err e ↦ some (err e)
    | ok (none, s') ↦ some (ok body)
    | ok (some chunk, s') ↦ recv_chunks fuel (body ++ chunk) s'
  ]

  -- The argument of `println!`
  unfoldable pub shown : ℕ → List ℕ → Text
  unfolding from_utf8_lossy
  shown status body =
      codes "status=" ++ show_status status ++ codes " body=" ++ from_utf8_lossy body

  -- `main` from `recv_response` on, with what it prints.
  unfoldable pub print_response : Stream → Option (Result Text Text)
  unfolding recv_chunks shown
  print_response s = elim (recv_response s) [
    | err e ↦ some (err e)
    | ok (status, s') ↦
        Option.map (λ read. read >>= λ body. ok (shown status body))
          (recv_chunks (suc (chunks s')) [] s')
  ]
