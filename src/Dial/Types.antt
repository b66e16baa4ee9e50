-- ===== src/Dial/Types.antt =====
-- The data of upstream/dial.rs: requests, responses and errors.
use service_proxy.Shared.Text.{Text, codes, ◌=?◌}
use service_proxy.Shared.{ℕ, List, [], ◌∷◌, ◌++◌, if◌then◌else◌}

-- `HashMap<String, Vec<String>>`, in the order in which it is iterated.
abbrev pub Headers : Type 0
Headers = List (Text × List Text)

-- `headers.entry(name).or_default().push(value)`
unfoldable pub push_header : Text → Text → Headers → Headers
push_header name value [] = (name, value ∷ []) ∷ []
push_header name value ((k, vs) ∷ hs) =
    if k =? name then (k, vs ++ value ∷ []) ∷ hs else (k, vs) ∷ push_header name value hs

pub record Request : Type 0 where
  pub method : Text
  pub path : Text
  pub host : Text
  pub headers : Headers
  pub body : List ℕ

pub record Response : Type 0 where
  pub status_code : ℕ
  pub headers : Headers
  pub body : List ℕ

-- The kinds of `std::io::Error` that the program names, and any other.
pub data ErrorKind : Type 0 where
  timed_out unexpected_eof connection_reset invalid_data other : ErrorKind

pub record IoError : Type 0 where
  pub kind : ErrorKind
  pub message : Text

pub data UpstreamError : Type 0 where
  dial_failed : IoError → UpstreamError
  io : IoError → UpstreamError
  parse : Text → UpstreamError

-- The `#[error(…)]` attributes.
unfoldable pub display : UpstreamError → Text
display (dial_failed e) = codes "dial: " ++ e.message
display (io e) = codes "io: " ++ e.message
display (parse s) = codes "parse: " ++ s
