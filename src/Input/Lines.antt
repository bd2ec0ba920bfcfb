-- ===== src/Input/Lines.antt =====
-- The line that `readline` of control_plane/http_io.py answers, as a part of the stream.
use pepeuchiacluster.Prelude.{
  take-append-drop, length-append, Option-cases, ℕ, zero, suc, ◌+◌, ◌-◌, ◌≤◌, ◌<◌, min, ◌≡◌, refl,
  sym, ap, ◌∙◌, subst, true, false, ltb, leb, ◌==◌, List, take, [], ◌∷◌, ◌++◌, Option, none, some,
  length, arith, append_assoc, append-nil, Bool-cases, inl, inr, if◌then◌else◌,
}
use pepeuchiacluster.Input.{
  started, round, Socket, Reader, drop, line_feed, line_count, taken, remaining, receive, received,
  searched, readline,
}

-- The first line of a stream, with its line feed, and what follows: at most `limit` bytes.
abbrev pub split_line : ℕ → List ℕ → List ℕ × List ℕ
split_line zero xs = ([], xs)
split_line (suc n) [] = ([], [])
split_line (suc n) (x ∷ xs) =
    let rest = split_line n xs in if x == line_feed then (x ∷ [], xs) else (x ∷ rest.0, rest.1)

found-split :
    (n : ℕ) (buffer rest : List ℕ) (c : ℕ)
    → line_count n buffer ≡ some c
    → split_line n (buffer ++ rest) ≡ (take c buffer, drop c buffer ++ rest)
found-split zero buffer rest c e = ground arith
found-split (suc n) [] rest c e = ground arith
found-split (suc n) (x ∷ xs) rest zero e = ground arith
found-split (suc n) (x ∷ xs) rest (suc c) e = ground (arith, found-split n xs rest c)

full-split :
    (n : ℕ) (buffer rest : List ℕ)
    → line_count n buffer ≡ none
    → n ≤ length buffer
    → split_line n (buffer ++ rest) ≡ (take n buffer, drop n buffer ++ rest)
full-split zero buffer rest e le = refl
full-split (suc n) [] rest e le = ground arith
full-split (suc n) (x ∷ xs) rest e le = ground (arith, full-split n xs rest)

closed-split :
    (n : ℕ) (buffer : List ℕ)
    → line_count n buffer ≡ none
    → length buffer ≤ n
    → split_line n buffer ≡ (buffer, [])
closed-split zero [] e le = refl
closed-split zero (x ∷ xs) e le = ground arith
closed-split (suc n) [] e le = refl
closed-split (suc n) (x ∷ xs) e le = ground (arith, closed-split n xs)

take-none : (n : ℕ) (xs : List ℕ) → 1 ≤ n → take n xs ≡ [] → xs ≡ []
take-none zero xs le e = ground arith
take-none (suc n) [] le e = refl
take-none (suc n) (x ∷ xs) le e = ground arith

-- What the reader still has: its buffer, and what the peer still sends.
abbrev pub stream : Reader → List ℕ
stream r = r.buffer ++ r.pending

-- A reader is left with the stream after the line.
abbrev pub Answers : ℕ → List ℕ → List ℕ × Reader → Type 0
Answers limit xs (line, r) = (line, stream r) ≡ split_line limit xs

module _ (s : Socket) where
  remaining-stream :
      (r r' : Reader) → remaining s r ≡ some r' → (r'.buffer ≡ r.buffer) × (r'.pending ≡ r.pending)
  unfolding remaining
  remaining-stream r r' e = ground arith

  -- bytes that are received come from the front of what the peer sends
  pub receive-pending :
      (limit : ℕ) (r r' : Reader) (xs : List ℕ)
      → receive s limit r ≡ some (xs, r')
      → (r'.buffer ≡ r.buffer) × (xs ++ r'.pending ≡ r.pending)
  unfolding receive remaining
  receive-pending limit r r' xs e =
      let all = take-append-drop (min (min limit 8192) (s.arrive r.receptions + 1)) r.pending in
      ground arith

  -- at least one byte, unless the peer has closed
  pub receive-none :
      (limit : ℕ) (r r' : Reader) → 1 ≤ limit → receive s limit r ≡ some ([], r') → r.pending ≡ []
  unfolding receive remaining
  receive-none limit r r' le e =
      let k = min (min limit 8192) (s.arrive r.receptions + 1) in
      let some_bytes : 1 ≤ k = omega arith in
      let closed = take-none k r.pending some_bytes in ground arith

pub leb_le : (a b : ℕ) → leb a b ≡ true → a ≤ b
leb_le a b e = ground arith

pub leb_more : (a b : ℕ) → leb a b ≡ false → (b ≤ a) × (1 ≤ a - b)
leb_more a b e = (ground arith, ground arith)

more_fuel : (limit a fuel : ℕ) → 1 ≤ limit - a → limit < a + suc fuel → 1 ≤ fuel
more_fuel limit a fuel bytes enough = omega arith

longer_buffer : (limit a b fuel : ℕ) → a < b → limit < a + suc fuel → limit < b + fuel
longer_buffer limit a b fuel longer enough = omega arith

-- The clock stays before the deadline.
abbrev pub IsEarly : Socket → Type 0
IsEarly s = (n : ℕ) → ltb (s.clock n) s.deadline ≡ true

abbrev pub Done : ℕ → List ℕ → Option (List ℕ × Reader) → Type 0
Done limit xs m = (a : List ℕ × Reader) × (m ≡ some a) × Answers limit xs a

module _ (s : Socket) (early : IsEarly s) where
  in_time : (limit : ℕ) (r : Reader) → receive s limit r ≡ none → ⊥
  unfolding receive remaining
  in_time limit r e =
      let first = early r.readings in let second = early (r.readings + 1) in ground arith

  pub receive-early :
      (limit : ℕ) (r : Reader) → (a : List ℕ × Reader) × (receive s limit r ≡ some a)
  receive-early limit r = elim (Option-cases (receive s limit r)) [
    | inl e ↦ absurd (in_time limit r e)
    | inr found ↦ found
  ]

  module _ (limit : ℕ) (r : Reader) (again : Reader → Option (List ℕ × Reader))
      (next : (r' : Reader)
        → 1 ≤ limit - length r.buffer
        → length r.buffer < length r'.buffer
        → stream r' ≡ stream r
        → Done limit (stream r) (again r')) where
    received-Done :
        (xs : List ℕ) (r' : Reader)
        → line_count limit r.buffer ≡ none
        → length r.buffer ≤ limit
        → 1 ≤ limit - length r.buffer
        → receive s (limit - length r.buffer) r ≡ some (xs, r')
        → Done limit (stream r) (received s again (some (xs, r')))
    received-Done [] r' unfound room bytes e =
        let closed = receive-none s (limit - length r.buffer) r r' bytes e in
        let (same_buffer, same_pending) = receive-pending s (limit - length r.buffer) r r' [] e in
        (
          (r'.buffer, record r' { buffer = [] }),
          refl,
          (rw same_buffer (
              rw (same_pending ∙ closed) (
                rw closed
                  (rw (append-nil r.buffer) (sym (closed-split limit r.buffer unfound room)))))),
        )
    received-Done (x ∷ xs) r' unfound room bytes e =
        let (same_buffer, same_pending) =
          receive-pending s (limit - length r.buffer) r r' (x ∷ xs) e in
        next (record r' { buffer = r'.buffer ++ x ∷ xs }) bytes
          (let sum = length-append r.buffer (x ∷ xs) in rw same_buffer (omega arith))
          (rw same_buffer
            (append_assoc r.buffer (x ∷ xs) r'.pending ∙ ap (λ l. r.buffer ++ l) same_pending))

    searched-Done :
        (o : Option ℕ)
        → line_count limit r.buffer ≡ o
        → Done limit (stream r) (searched s limit again o r)
    searched-Done (some c) e = (taken c r, refl, sym (found-split limit r.buffer r.pending c e))
    searched-Done none e = elim (Bool-cases (leb limit (length r.buffer))) [
      | inl full ↦
          rw full
            (taken limit r, refl, sym (full-split limit r.buffer r.pending e (leb_le _ _ full)))
      | inr more ↦ rw more (
          let bounds = leb_more limit (length r.buffer) more in
          let ((xs, r'), run) = receive-early (limit - length r.buffer) r in
          subst (λ m. Done limit (stream r) (received s again m)) (sym run)
            (received-Done xs r' e bounds.0 bounds.1 run))
    ]

  pub remaining-early : (r : Reader) → remaining s r ≡ some (record r { readings = r.readings + 1 })
  unfolding remaining
  remaining-early r = rw (early r.readings) refl

  readline-Done :
      (fuel limit : ℕ) (r : Reader)
      → 1 ≤ fuel
      → limit < length r.buffer + fuel
      → Done limit (stream r) (readline s fuel limit r)
  unfolding readline
  readline-Done zero limit r some_fuel enough = ground arith
  readline-Done (suc fuel) limit r some_fuel enough =
      let r' : Reader = record r { readings = r.readings + 1 } in
      let answered =
        searched-Done limit r' (readline s fuel limit)
          (λ r'' bytes longer same_stream.
            subst (λ xs. Done limit xs (readline s fuel limit r'')) same_stream
              (readline-Done fuel limit r'' (more_fuel limit (length r.buffer) fuel bytes enough)
                (longer_buffer limit (length r.buffer) (length r''.buffer) fuel longer enough)))
          (line_count limit r.buffer) refl in
      subst (λ m. Done limit (stream r) (started s (round s (readline s fuel limit) limit) m))
        (sym (remaining-early r)) answered

-- Before the deadline, `readline` answers with the first line of the bytes that are buffered or
-- still to come, its line feed included and cut at the limit, and leaves exactly the bytes after it,
-- whatever number of bytes each reception brings. A round more than the bytes of the limit that are
-- not yet buffered, and at least one, is enough.
pub readline-split_line :
    (s : Socket) (fuel limit : ℕ) (r : Reader)
    → IsEarly s
    → 1 ≤ fuel
    → limit < length r.buffer + fuel
    → (a : List ℕ × Reader) × (readline s fuel limit r ≡ some a)
      × ((a.0, stream a.1) ≡ split_line limit (stream r))
readline-split_line s fuel limit r early some_fuel enough =
    readline-Done s early fuel limit r some_fuel enough
