-- ===== src/Tests/Net.antt =====
-- A source of numbers and a connection over lists of bytes, for concrete runs.
use service_proxy.Balancer.Rng.{Rng}
use service_proxy.Dial.Io.{Io, LineChars}
use service_proxy.Dial.Types.{IoError, ErrorKind}
use service_proxy.Shared.Result.{Result, ok, err}
use service_proxy.Shared.Text.{Text, codes}
use service_proxy.Shared.{
  false, ℕ, suc, ◌+◌, ◌%◌, ◌≤◌, ◌<◌, ◌==◌, ltb, ◌≡◌, ◌≢◌, refl, ap, List, [], ◌∷◌, ◌++◌, length,
  take, drop, if◌then◌else◌, arith,
}
use native.Mathlib.Nat.{mod-lt}

-- Numbers that count up.
abbrev pub counting_rng : Rng
counting_rng = record {
  State = ℕ;
  sample = λ g n. g % n;
  advance = suc;
  sample-lt = λ g n pos. mod-lt g pos;
}

-- What has been written, and what is still to be read.
pub record Tape : Type 0 where
  pub sent : List ℕ
  pub inbox : List ℕ

-- Up to the first newline, or all.
abbrev pub cut_line : List ℕ → List ℕ × List ℕ
cut_line [] = ([], [])
cut_line (c ∷ s) =
    let (line, rest) = cut_line s in if c == 10 then (c ∷ [], s) else (c ∷ line, rest)

cut_line-lem :
    (line rest : List ℕ) → LineChars line → cut_line (line ++ 10 ∷ rest) ≡ (line ++ 10 ∷ [], rest)
cut_line-lem [] rest h = refl
cut_line-lem (c ∷ s) rest h = ground (arith, cut_line-lem s rest h.2)

cut_line-length : (s : List ℕ) → length (cut_line s).0 + length (cut_line s).1 ≡ length s
cut_line-length [] = refl
cut_line-length (c ∷ s) = ground (arith, cut_line-length s)

take-append : (xs ys : List ℕ) → take (length xs) (xs ++ ys) ≡ xs
take-append [] [] = refl
take-append [] (y ∷ ys) = refl
take-append (x ∷ xs) ys = ap (λ zs. x ∷ zs) (take-append xs ys)

drop-append : (xs ys : List ℕ) → drop (length xs) (xs ++ ys) ≡ ys
drop-append [] [] = refl
drop-append [] (y ∷ ys) = refl
drop-append (x ∷ xs) ys = drop-append xs ys

length-append_le : (xs ys : List ℕ) → length xs ≤ length (xs ++ ys)
length-append_le [] ys = omega arith
length-append_le (x ∷ xs) ys = omega (arith, length-append_le xs ys)

abbrev pub tape_read_line : Tape → Result IoError (Text × Tape)
tape_read_line t = ok ((cut_line t.inbox).0, record t { inbox = (cut_line t.inbox).1 })

abbrev pub tape_read_exact : ℕ → Tape → Result IoError (List ℕ × Tape)
tape_read_exact n t =
    if ltb (length t.inbox) n
    then err (record { kind = ErrorKind.unexpected_eof; message = codes "early eof" })
    else ok (take n t.inbox, record t { inbox = drop n t.inbox })

pub tape_read_line-lem :
    (b : Tape) (line : Text) (rest : List ℕ)
    → LineChars line
    → b.inbox ≡ line ++ 10 ∷ rest
    → (b' : Tape) × (tape_read_line b ≡ ok (line ++ 10 ∷ [], b')) × (b'.inbox ≡ rest)
tape_read_line-lem b line rest h e =
    (record b { inbox = rest }, rw (e, cut_line-lem line rest h), refl)

nonempty : (xs : List ℕ) → xs ≢ [] → 0 < length xs
nonempty [] ne = absurd (ne refl)
nonempty (x ∷ xs) ne = omega arith

pub tape_read_line-shrinks :
    (b b' : Tape) (line : Text)
    → tape_read_line b ≡ ok (line, b')
    → line ≢ []
    → length b'.inbox < length b.inbox
tape_read_line-shrinks b b' line e ne =
    let (same, left) : ((cut_line b.inbox).0 ≡ line) × ((cut_line b.inbox).1 ≡ b'.inbox) =
      (cc, cc) in
    omega (arith, cut_line-length b.inbox, nonempty line ne, ap length same, ap length left)

pub tape_read_exact-lem :
    (b : Tape) (n : ℕ) (xs rest : List ℕ)
    → length xs ≡ n
    → b.inbox ≡ xs ++ rest
    → (b' : Tape) × (tape_read_exact n b ≡ ok (xs, b')) × (b'.inbox ≡ rest)
tape_read_exact-lem b n xs rest len e = (
  record b { inbox = rest },
  rw (← len, e)
      (ground (arith, length-append_le xs rest, take-append xs rest, drop-append xs rest)),
  refl,
)

abbrev pub tape_net : Io
tape_net = record {
  Conn = Tape;
  write_all = λ bs t. ok (record t { sent = t.sent ++ bs });
  flush = λ t. ok t;
  Reader = Tape;
  buffered = λ t. t;
  dropped = λ t. t;
  read_line = tape_read_line;
  read_exact = tape_read_exact;
  pending = λ t. t.inbox;
  waits = λ t. false;
  stalls = λ n t. false;
  waits-line = λ b line rest e. refl;
  stalls-exact = λ b xs rest e. refl;
  read_line-lem = tape_read_line-lem;
  read_line-shrinks = tape_read_line-shrinks;
  read_exact-lem = tape_read_exact-lem;
}

-- A connection on which these bytes arrive.
abbrev pub arriving : List ℕ → Tape
arriving bytes = record { sent = []; inbox = bytes }
