-- ===== src/Http/Reads.antt =====
-- The loops of `read_http11_request` of proxy_http.rs over reads that do not fail, of a client that does
-- not stall.
use service_proxy.Dial.Io.{Io}
use service_proxy.Http.Ends.{find_header_end-within, find_header_end-beyond, find_header_end-length}
use service_proxy.Http.{
  find_header_end, Head, complete, add_fields, no_fields, build_request, Stream, read_content,
  parse_request, read_head,
}
use service_proxy.Shared.Call.{yields}
use service_proxy.Shared.Result.{ok}
use service_proxy.Shared.Strings.{is_empty}
use service_proxy.Shared.Text.{Text}
use service_proxy.Shared.{
  ℕ, zero, suc, ◌-◌, ◌*◌, ◌^◌, ◌≤◌, ◌<◌, ◌≡◌, refl, sym, ap, ◌∙◌, inl, inr, ltb, leb, true, false,
  Option, none, some, List, [], ◌∷◌, ◌++◌, append-nil, append_assoc, length, length-append, take,
  drop, arith, Bool-cases,
}

pub take-append : (n : ℕ) (xs ys : List ℕ) → n ≤ length xs → take n (xs ++ ys) ≡ take n xs
take-append zero xs ys h = refl
take-append (suc n) [] ys h = absurd (omega arith)
take-append (suc n) (x ∷ xs) ys h = ap (λ zs. x ∷ zs) (take-append n xs ys (omega arith))

pub drop-append : (n : ℕ) (xs ys : List ℕ) → n ≤ length xs → drop n (xs ++ ys) ≡ drop n xs ++ ys
drop-append zero xs ys h = refl
drop-append (suc n) [] ys h = absurd (omega arith)
drop-append (suc n) (x ∷ xs) ys h = drop-append n xs ys (omega arith)

is_empty-false : (xs : List ℕ) → is_empty xs ≡ false → 0 < length xs
is_empty-false [] h = absurd cc
is_empty-false (x ∷ xs) h = omega arith

is_empty-true : (xs : List ℕ) → is_empty xs ≡ true → xs ≡ []
is_empty-true [] h = refl
is_empty-true (x ∷ xs) h = absurd cc

-- Reads that do not fail, of a client that does not stall.
module _ (net : Io) (stream : Stream net) (httparse : List ℕ → Head)
    (reads : (room : ℕ) (c : net.Conn)
      → (xs : List ℕ) × (c' : net.Conn) × (stream.read room c ≡ ok (xs, c')))
    (quiet : (c : net.Conn) → stream.waits c ≡ false) where
  open net use {Conn}
  open stream use {read, unread, read-unread, read-end}

  -- A read that gives nothing is at the end.
  nothing_left :
      (room : ℕ) (c c1 : Conn) (xs : List ℕ)
      → 0 < room
      → read room c ≡ ok (xs, c1)
      → is_empty xs ≡ true
      → unread c ≡ []
  nothing_left room c c1 xs pos e ended =
      let none_read : xs ≡ [] = is_empty-true xs ended in
      let at_end = read-end room c c1 pos (e ∙ ap (λ s. ok (s, c1)) none_read) in
      read-unread room c c1 xs e ∙ rw none_read at_end

  -- A read that gives something leaves less.
  less_left :
      (room : ℕ) (c c1 : Conn) (xs : List ℕ)
      → read room c ≡ ok (xs, c1)
      → is_empty xs ≡ false
      → length (unread c1) < length (unread c)
  less_left room c c1 xs e some_read = omega (
    arith,
    ap length (read-unread room c c1 xs e),
    length-append xs (unread c1),
    is_empty-false xs some_read,
  )

  read_content-end :
      (fuel n : ℕ) (body : List ℕ) (c c1 : Conn) (xs : List ℕ)
      → ltb (length body) n ≡ true
      → ltb (n - length body) (2 ^ 63) ≡ true
      → read (n - length body) c ≡ ok (xs, c1)
      → is_empty xs ≡ true
      → read_content net stream httparse (suc fuel) n body c ≡ yields (ok (body, c1))
  unfolding read_content
  read_content-end fuel n body c c1 xs short fits e ended =
      rw (short, fits, quiet c, e, ended, read_content)

  read_content-more :
      (fuel n : ℕ) (body : List ℕ) (c c1 : Conn) (xs : List ℕ)
      → ltb (length body) n ≡ true
      → ltb (n - length body) (2 ^ 63) ≡ true
      → read (n - length body) c ≡ ok (xs, c1)
      → is_empty xs ≡ false
      → read_content net stream httparse (suc fuel) n body c
        ≡ read_content net stream httparse fuel n (body ++ xs) c1
  unfolding read_content
  read_content-more fuel n body c c1 xs short fits e some_read =
      rw (short, fits, quiet c, e, some_read, read_content)

  read_head-found :
      (fuel k : ℕ) (buf : List ℕ) (c c1 : Conn) (xs : List ℕ)
      → read 1024 c ≡ ok (xs, c1)
      → is_empty xs ≡ false
      → find_header_end (buf ++ xs) ≡ some k
      → read_head net stream httparse (suc fuel) buf c
        ≡ parse_request net stream httparse (buf ++ xs) k c1
  unfolding read_head
  read_head-found fuel k buf c c1 xs e some_read found =
      rw (quiet c, e, some_read, found, read_head)

  read_head-more :
      (fuel : ℕ) (buf : List ℕ) (c c1 : Conn) (xs : List ℕ)
      → read 1024 c ≡ ok (xs, c1)
      → is_empty xs ≡ false
      → find_header_end (buf ++ xs) ≡ none
      → ltb (1024 * 1024) (length (buf ++ xs)) ≡ false
      → read_head net stream httparse (suc fuel) buf c
        ≡ read_head net stream httparse fuel (buf ++ xs) c1
  unfolding read_head
  read_head-more fuel buf c c1 xs e some_read missing fits =
      rw (quiet c, e, some_read, missing, fits, read_head)

  pub parse_request-step :
      (buf : List ℕ) (k : ℕ) (c c' : Conn) (method path : Option Text)
      (headers : List (Text × List ℕ)) (body : List ℕ)
      → httparse (take k buf) ≡ complete method path headers
      → read_content net stream httparse
          (suc (length (unread c)))
          (add_fields headers no_fields).content_length
          (drop k buf)
          c
        ≡ yields (ok (body, c'))
      → parse_request net stream httparse buf k c
        ≡ yields (ok (build_request method path (add_fields headers no_fields) body, c'))
  unfolding parse_request
  parse_request-step buf k c c' method path headers body parsed ends =
      rw (parsed, parse_request) (rw ends)

  -- The body that is read, cut to its length.
  pub read_content-lem :
      (fuel n : ℕ) (body : List ℕ) (c : Conn)
      → length (unread c) < fuel
      → n < 2 ^ 63
      → (body' : List ℕ) × (c' : Conn) × (read_content net stream httparse fuel n body c
          ≡ yields (ok (body', c')))
        × (take n body' ≡ take n (body ++ unread c))
  unfolding read_content
  read_content-lem zero n body c h small = elim h [ ]
  read_content-lem (suc fuel) n body c h small = elim (Bool-cases (ltb (length body) n)) [
    | inr full ↦
        (body, c, rw (full, read_content), sym (take-append n body (unread c) (ground arith)))
    | inl short ↦
        let fits : ltb (n - length body) (2 ^ 63) ≡ true = ground arith in
        let (xs, c1, e) = reads (n - length body) c in
        let left : unread c ≡ xs ++ unread c1 = read-unread (n - length body) c c1 xs e in
        elim (Bool-cases (is_empty xs)) [
          | inl ended ↦
              let done : unread c ≡ [] =
                nothing_left (n - length body) c c1 xs (ground arith) e ended in
              (
                body,
                c1,
                read_content-end fuel n body c c1 xs short fits e ended,
                ap (take n) (rw done (sym (append-nil body))),
              )
          | inr some_read ↦
              let fewer = less_left (n - length body) c c1 xs e some_read in
              let (body', c', runs, same) =
                read_content-lem fuel n (body ++ xs) c1 (omega (arith, fewer)) small in
              (
                body',
                c',
                read_content-more fuel n body c c1 xs short fits e some_read ∙ runs,
                same
                    ∙ ap (take n)
                        (append_assoc body xs (unread c1) ∙ ap (λ s. body ++ s) (sym left)),
              )
        ]
  ]

  -- The head loop goes on until it holds the end of the headers.
  pub read_head-lem :
      (fuel k : ℕ) (buf : List ℕ) (c : Conn)
      → find_header_end (buf ++ unread c) ≡ some k
      → k ≤ 1024 * 1024
      → length buf < k
      → length (unread c) < fuel
      → (buf' : List ℕ) × (c' : Conn) × (buf' ++ unread c' ≡ buf ++ unread c)
        × (k ≤ length buf')
        × (read_head net stream httparse fuel buf c ≡ parse_request net stream httparse buf' k c')
  unfolding read_head
  read_head-lem zero k buf c at_k small within h = elim h [ ]
  read_head-lem (suc fuel) k buf c at_k small within h =
      let (xs, c1, e) = reads 1024 c in
      let whole : (buf ++ xs) ++ unread c1 ≡ buf ++ unread c =
        append_assoc buf xs (unread c1) ∙ ap (λ s. buf ++ s) (sym (read-unread 1024 c c1 xs e)) in
      let at_k1 : find_header_end ((buf ++ xs) ++ unread c1) ≡ some k =
        ap find_header_end whole ∙ at_k in
      elim (Bool-cases (is_empty xs)) [
        | inl ended ↦
            let done : unread c ≡ [] = nothing_left 1024 c c1 xs (omega arith) e ended in
            let long = find_header_end-length (buf ++ unread c) k at_k in
            absurd (omega (arith, long, ap length done, length-append buf (unread c)))
        | inr some_read ↦ elim (Bool-cases (leb k (length (buf ++ xs)))) [
          | inl holds ↦
              let found = find_header_end-within (buf ++ xs) (unread c1) k at_k1 (ground arith) in
              (
                buf ++ xs,
                c1,
                whole,
                ground arith,
                read_head-found fuel k buf c c1 xs e some_read found,
              )
          | inr lacks ↦
              let missing = find_header_end-beyond (buf ++ xs) (unread c1) k at_k1 (ground arith) in
              let fits : ltb (1024 * 1024) (length (buf ++ xs)) ≡ false = ground arith in
              let fewer = less_left 1024 c c1 xs e some_read in
              let (buf', c', same, long, runs) =
                read_head-lem fuel k (buf ++ xs) c1 at_k1 small (ground arith)
                  (omega (arith, fewer)) in
              (
                buf',
                c',
                same ∙ whole,
                long,
                read_head-more fuel buf c c1 xs e some_read missing fits ∙ runs,
              )
        ]
      ]
