-- ===== src/Dial/RoundTrip/Cut.antt =====
-- The bytes that `write_response` of upstream/dial.rs sends, cut where `read_response` cuts them.
use service_proxy.Dial.Io.{LineChars}
use service_proxy.Dial.RoundTrip.Lines.{
  IsName, IsValue, line_of, as_bytes-append, as_bytes-Ascii, LineChars-append, Ascii,
}
use service_proxy.Dial.Types.{Response}
use service_proxy.Dial.Wire.{
  response_bytes, header_lines, is_framing, reason_phrase, crlf, parse_status,
}
use service_proxy.Shared.Result.{ok}
use service_proxy.Shared.Strings.Decimal.{
  Digits, decimal-Digits, parse_uint-decimal, decimal-All, is_empty-decimal,
}
use service_proxy.Shared.Strings.Trim.{All, trim-none}
use service_proxy.Shared.Strings.Words.{words-word}
use service_proxy.Shared.Strings.{
  is_whitespace, trim, as_bytes, decimal, parse_uint, words, split_whitespace,
}
use service_proxy.Shared.Text.{Text, codes}
use service_proxy.Shared.{
  ℕ, ◌^◌, ◌<◌, ◌≡◌, refl, ap, ap₂, ◌∙◌, Bool, true, false, some, List, [], ◌∷◌, ◌++◌, append_assoc,
  arith, length, ◌==◌, if◌then◌else◌,
}

LineChars-if : (b : Bool) (x y : Text) → LineChars x → LineChars y → LineChars (if b then x else y)
LineChars-if true x y hx hy = hx
LineChars-if false x y hx hy = hy

reason-LineChars : (code : ℕ) → LineChars (reason_phrase code)
unfolding reason_phrase
reason-LineChars code = LineChars-if (code == 200) _ _ (omega arith) (
    LineChars-if (code == 400) _ _ (omega arith) (
      LineChars-if (code == 502) _ _ (omega arith)
        (LineChars-if (code == 500) _ _ (omega arith) (omega arith))))

Digits-LineChars : (s : Text) → Digits s → LineChars s
Digits-LineChars [] d = tt
Digits-LineChars (c ∷ s) d = (omega arith, omega arith, Digits-LineChars s d.2)

pub decimal-IsValue : (n : ℕ) → IsValue (decimal n)
decimal-IsValue n = record {
  one_line = Digits-LineChars (decimal n) (decimal-Digits n);
  trimmed = trim-none (decimal n) (decimal-All n);
}

abbrev pub content_length : Text
content_length = codes "Content-Length"

abbrev pub connection : Text
connection = codes "Connection"

pub content_length-IsName : IsName content_length
unfolding is_whitespace
content_length-IsName = record {
  some_char = refl;
  ascii = omega arith;
  solid = ground arith;
  no_colon = ground arith;
}

pub connection-IsName : IsName connection
unfolding is_whitespace
connection-IsName = record {
  some_char = refl;
  ascii = omega arith;
  solid = ground arith;
  no_colon = ground arith;
}

pub close-IsValue : IsValue (codes "close")
unfolding trim is_whitespace
close-IsValue = record { one_line = omega arith; trimmed = refl }

LineChars-Ascii-crlf : (s : Text) → LineChars s → Ascii (s ++ crlf)
LineChars-Ascii-crlf [] h = omega arith
LineChars-Ascii-crlf (c ∷ s) h = (h.0, LineChars-Ascii-crlf s h.2)

-- The status line, without its line break.
abbrev pub status_line : ℕ → Text
status_line code = codes "HTTP/1.1 " ++ decimal code ++ codes " " ++ reason_phrase code

pub status-LineChars : (code : ℕ) → LineChars (status_line code)
status-LineChars code =
    LineChars-append (codes "HTTP/1.1 " ++ decimal code ++ codes " ") (reason_phrase code)
      (LineChars-append (codes "HTTP/1.1 " ++ decimal code) (codes " ")
        (LineChars-append (codes "HTTP/1.1 ") (decimal code) (omega arith)
          (Digits-LineChars (decimal code) (decimal-Digits code)))
        (omega arith))
      (reason-LineChars code)

status_line-words :
    (code : ℕ)
    → status_line code ++ crlf
      ≡ codes "HTTP/1.1" ++ 32 ∷ (decimal code ++ 32 ∷ (reason_phrase code ++ crlf))
status_line-words code = ap (◌++◌ (codes "HTTP/1.1 ")) (simp append_assoc)

parse_status-of :
    (line a b : Text) (rest : List Text) (code : ℕ)
    → split_whitespace line ≡ a ∷ b ∷ rest
    → parse_uint (2 ^ 16) b ≡ some code
    → parse_status line ≡ ok code
unfolding parse_status
parse_status-of line a b rest code e h = ground arith

http-All : All is_whitespace false (codes "HTTP/1.1")
unfolding is_whitespace
http-All = ground arith

blank : is_whitespace 32 ≡ true
unfolding is_whitespace
blank = refl

split_whitespace-line :
    (code : ℕ)
    → split_whitespace (status_line code ++ crlf)
      ≡ codes "HTTP/1.1" ∷ decimal code ∷ words [] (reason_phrase code ++ crlf)
unfolding split_whitespace
split_whitespace-line code =
    ap (words []) (status_line-words code)
    ∙ words-word [] (codes "HTTP/1.1") 32 (decimal code ++ 32 ∷ (reason_phrase code ++ crlf))
        http-All blank refl
    ∙ ap (◌∷◌ (codes "HTTP/1.1")) (
        words-word [] (decimal code) 32 (reason_phrase code ++ crlf) (decimal-All code) blank
          (is_empty-decimal code))

pub parse_status-line :
    (code : ℕ) → code < 2 ^ 16 → parse_status (status_line code ++ crlf) ≡ ok code
parse_status-line code h =
    parse_status-of (status_line code ++ crlf) (codes "HTTP/1.1") (decimal code)
      (words [] (reason_phrase code ++ crlf)) code (split_whitespace-line code)
      (parse_uint-decimal (2 ^ 16) code h)

regroup_six :
    (a h b c d body : List ℕ)
    → a ++ h ++ (b ++ (c ++ d)) ++ body ≡ a ++ (h ++ (b ++ (c ++ (d ++ body))))
regroup_six a h b c d body = simp append_assoc

regroup_tail : (a b c : Text) → a ++ b ++ c ++ c ≡ a ++ (b ++ c ++ c)
regroup_tail a b c = simp append_assoc

status-as_bytes : (code : ℕ) → as_bytes (status_line code ++ crlf) ≡ status_line code ++ crlf
status-as_bytes code =
    as_bytes-Ascii (status_line code ++ crlf)
      (LineChars-Ascii-crlf (status_line code) (status-LineChars code))

-- The last header lines and the empty line.
tail-as_bytes :
    (n : ℕ)
    → as_bytes
        (line_of content_length (decimal n) ++ crlf ++ codes "Connection: close" ++ crlf ++ crlf)
      ≡ as_bytes (line_of content_length (decimal n) ++ crlf)
        ++ (as_bytes (line_of connection (codes "close") ++ crlf) ++ crlf)
tail-as_bytes n =
    let first : Text = line_of content_length (decimal n) ++ crlf in
    let last : Text = line_of connection (codes "close") ++ crlf in
    ap as_bytes (regroup_tail first (codes "Connection: close") crlf)
    ∙ as_bytes-append first (last ++ crlf)
    ∙ ap (◌++◌ (as_bytes first))
        (as_bytes-append last crlf ∙ ap (◌++◌ (as_bytes last)) (as_bytes-Ascii crlf (omega arith)))

-- The bytes of a response, cut where the reader cuts them.
pub response-cut :
    (resp : Response)
    → response_bytes resp
      ≡ (status_line resp.status_code ++ crlf)
        ++ (header_lines is_framing resp.headers
            ++ (as_bytes (line_of content_length (decimal (length resp.body)) ++ crlf)
                ++ (as_bytes (line_of connection (codes "close") ++ crlf) ++ (crlf ++ resp.body))))
unfolding response_bytes
response-cut resp =
    ap₂ (λ a t. a ++ header_lines is_framing resp.headers ++ t ++ resp.body)
      (status-as_bytes resp.status_code) (tail-as_bytes (length resp.body))
    ∙ regroup_six (status_line resp.status_code ++ crlf) (header_lines is_framing resp.headers)
        (as_bytes (line_of content_length (decimal (length resp.body)) ++ crlf))
        (as_bytes (line_of connection (codes "close") ++ crlf)) crlf resp.body
