-- ===== src/Smoke.antt =====
-- crates/quic-smoke-client/src/main.rs: one request over a stream of quinn. The client writes its
-- payload as a frame, and prints the body of the frame that comes back. It does not use framing.rs.
pub mod Echoes
pub mod Http3
use service_proxy.Dial.Io.{Io}
use service_proxy.Dial.Types.{IoError}
use service_proxy.Framing.{to_be_bytes, from_be_bytes}
use service_proxy.Proxy.{StreamError, io_failed}
use service_proxy.Shared.Result.{Result, ok, map_err, ◌>>=◌}
use service_proxy.Shared.Strings.Utf8.{from_utf8_lossy}
use service_proxy.Shared.Text.{Text}
use service_proxy.Shared.{ℕ, ◌%◌, ◌^◌, List, length}

module _ (net : Io) where
  open net use {Conn, Reader, write_all, read_exact}

  -- `main` up to `send.finish()`.
  unfoldable pub send_payload :
      (Conn → Result StreamError Conn) → List ℕ → Conn → Result StreamError Conn
  unfolding to_be_bytes
  send_payload finish payload send = do
    send' ← map_err io_failed (write_all (to_be_bytes (length payload % 2 ^ 32)) send)
    send'' ← map_err io_failed (write_all payload send')
    finish send''

  -- The rest of `main`, with what it prints.
  unfoldable pub receive_body : Reader → Result StreamError Text
  unfolding from_be_bytes from_utf8_lossy
  receive_body recv = do
    (len_buf, recv') ← map_err io_failed (read_exact 4 recv)
    (body, recv'') ← map_err io_failed (read_exact (from_be_bytes len_buf) recv')
    ok (from_utf8_lossy body)
