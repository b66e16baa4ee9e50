-- ===== src/Dial/Io.antt =====
-- The connections that the program reads and writes: tokio's `TcpStream` and `BufReader`, which are
-- not part of the repository. The laws state the documented behaviour that the theorems rely on.
use service_proxy.Dial.Types.{IoError}
use service_proxy.Shared.Result.{Result, ok}
use service_proxy.Shared.Text.{Text}
use service_proxy.Shared.{ℕ, Bool, false, ◌<◌, ◌≡◌, ◌≢◌, List, [], ◌∷◌, ◌++◌, length}

-- Characters of one line that stand for themselves in UTF-8.
abbrev pub LineChars : Text → Type 0
LineChars [] = Unit {0}
LineChars (c ∷ s) = (c < 128) × (c ≢ 10) × LineChars s

pub record Io : Type 1 where
  pub Conn : Type 0
  -- `AsyncWriteExt::write_all` and `flush`
  pub write_all : List ℕ → Conn → Result IoError Conn
  pub flush : Conn → Result IoError Conn
  -- `BufReader::new`, and the stream that is left when the reader is dropped
  pub Reader : Type 0
  pub buffered : Conn → Reader
  pub dropped : Reader → Conn
  -- Whether reading lines from here on never ends: the rest of the line has not come, will not, and the
  -- peer does not close, or the peer sends header lines for ever.
  pub waits : Reader → Bool
  -- Whether a `read_exact` of so many bytes never ends: they do not come and the peer does not close.
  pub stalls : ℕ → Reader → Bool
  -- `AsyncBufReadExt::read_line` and `AsyncReadExt::read_exact`
  pub read_line : Reader → Result IoError (Text × Reader)
  pub read_exact : ℕ → Reader → Result IoError (List ℕ × Reader)
  -- The bytes that the peer has sent and will send before it closes, or before reading waits for ever.
  pub pending : Reader → List ℕ
  pub waits-line :
      (b : Reader) (line rest : List ℕ) → pending b ≡ line ++ 10 ∷ rest → waits b ≡ false
  pub stalls-exact :
      (b : Reader) (xs rest : List ℕ) → pending b ≡ xs ++ rest → stalls (length xs) b ≡ false
  -- A line is returned with its newline.
  pub read_line-lem :
      (b : Reader) (line : Text) (rest : List ℕ)
      → LineChars line
      → pending b ≡ line ++ 10 ∷ rest
      → (b' : Reader) × (read_line b ≡ ok (line ++ 10 ∷ [], b')) × (pending b' ≡ rest)
  -- A line that is not empty has taken bytes off the stream.
  pub read_line-shrinks :
      (b b' : Reader) (line : Text)
      → read_line b ≡ ok (line, b')
      → line ≢ []
      → length (pending b') < length (pending b)
  pub read_exact-lem :
      (b : Reader) (n : ℕ) (xs rest : List ℕ)
      → length xs ≡ n
      → pending b ≡ xs ++ rest
      → (b' : Reader) × (read_exact n b ≡ ok (xs, b')) × (pending b' ≡ rest)
