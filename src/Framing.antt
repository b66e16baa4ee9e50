-- ===== src/Framing.antt =====
-- crates/service-proxy/src/quic_proxy/framing.rs: frames with a length of four bytes, the highest
-- first.
pub mod RoundTrip
use service_proxy.Dial.Io.{Io}
use service_proxy.Dial.Types.{IoError}
use service_proxy.Shared.Result.{Result, ok, ◌>>=◌}
use service_proxy.Shared.{ℕ, ◌+◌, ◌*◌, ◌/◌, ◌%◌, ◌^◌, List, [], ◌∷◌, length}

-- `u32::to_be_bytes`
unfoldable pub to_be_bytes : ℕ → List ℕ
to_be_bytes n = n / 2 ^ 24 % 256 ∷ n / 2 ^ 16 % 256 ∷ n / 2 ^ 8 % 256 ∷ n % 256 ∷ []

-- `u32::from_be_bytes`
abbrev pub be_value : ℕ → List ℕ → ℕ
be_value acc [] = acc
be_value acc (b ∷ bs) = be_value (acc * 256 + b) bs

unfoldable pub from_be_bytes : List ℕ → ℕ
from_be_bytes bs = be_value 0 bs

module _ (net : Io) where
  open net use {Conn, Reader, write_all, flush, read_exact}

  -- `read_frame`
  unfoldable pub read_frame : Reader → Result IoError (List ℕ × Reader)
  unfolding from_be_bytes
  read_frame r = do (len_buf, r') ← read_exact 4 r; read_exact (from_be_bytes len_buf) r'

  -- `write_frame`
  unfoldable pub write_frame : List ℕ → Conn → Result IoError Conn
  unfolding to_be_bytes
  write_frame payload w = do
    w' ← write_all (to_be_bytes (length payload % 2 ^ 32)) w
    w'' ← write_all payload w'
    flush w''
