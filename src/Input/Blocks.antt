-- ===== src/Input/Blocks.antt =====
-- The bytes that `read` of control_plane/http_io.py answers, as a part of the stream.
use pepeuchiacluster.Prelude.{
  take-append-drop, drop, ℕ, zero, suc, ◌+◌, ◌-◌, ◌≤◌, ◌<◌, min, ◌≡◌, refl, sym, ap, ◌∙◌, subst,
  leb, List, [], ◌∷◌, ◌++◌, Option, none, some, length, take, arith, append_assoc, append-nil,
  length-append, Bool-cases, inl, inr,
}
use pepeuchiacluster.Input.{Socket, Reader, remaining, receive, gathered, gather, finally, read}
use pepeuchiacluster.Input.Lines.{
  stream, IsEarly, receive-pending, receive-none, receive-early, remaining-early, leb_le, leb_more,
}

take-length : (n : ℕ) (xs ys : List ℕ) → length xs ≡ n → take n (xs ++ ys) ≡ xs
take-length zero [] ys e = refl
take-length zero (x ∷ xs) ys e = ground arith
take-length (suc n) [] ys e = ground arith
take-length (suc n) (x ∷ xs) ys e = ap (λ l. x ∷ l) (take-length n xs ys (omega arith))

drop-length : (n : ℕ) (xs ys : List ℕ) → length xs ≡ n → drop n (xs ++ ys) ≡ ys
drop-length zero [] ys e = refl
drop-length zero (x ∷ xs) ys e = ground arith
drop-length (suc n) [] ys e = ground arith
drop-length (suc n) (x ∷ xs) ys e = drop-length n xs ys (omega arith)

take-all : (n : ℕ) (xs : List ℕ) → length xs ≤ n → take n xs ≡ xs
take-all zero [] le = refl
take-all zero (x ∷ xs) le = ground arith
take-all (suc n) [] le = refl
take-all (suc n) (x ∷ xs) le = ap (λ l. x ∷ l) (take-all n xs (omega arith))

drop-all : (n : ℕ) (xs : List ℕ) → length xs ≤ n → drop n xs ≡ []
drop-all zero [] le = refl
drop-all zero (x ∷ xs) le = ground arith
drop-all (suc n) [] le = refl
drop-all (suc n) (x ∷ xs) le = drop-all n xs (omega arith)

length-take : (n : ℕ) (xs : List ℕ) → length (take n xs) ≤ n
length-take zero xs = omega arith
length-take (suc n) [] = omega arith
length-take (suc n) (x ∷ xs) = let rest = length-take n xs in omega arith

-- The block of the stream, and what follows it.
abbrev pub Block : ℕ → List ℕ → Option (List ℕ × Reader) → Type 0
Block size xs m =
    (a : List ℕ × Reader) × (m ≡ some a) × (a.0 ≡ take size xs) × (stream a.1 ≡ drop size xs)

receive-length :
    (s : Socket) (limit : ℕ) (r r' : Reader) (xs : List ℕ)
    → receive s limit r ≡ some (xs, r')
    → length xs ≤ limit
unfolding receive remaining
receive-length s limit r r' xs e =
    let short = length-take (min (min limit 8192) (s.arrive r.receptions + 1)) r.pending in
    let bound : min (min limit 8192) (s.arrive r.receptions + 1) ≤ limit = omega arith in
    ground arith

module _ (s : Socket) (early : IsEarly s) where
  -- the stream does not change when bytes move from the connection to the result
  moved :
      (result : List ℕ) (r r' : Reader) (xs : List ℕ)
      → r.buffer ≡ []
      → r'.buffer ≡ r.buffer
      → xs ++ r'.pending ≡ r.pending
      → (result ++ xs) ++ stream r' ≡ result ++ stream r
  moved result r r' xs empty same_buffer front =
      rw same_buffer (rw empty (append_assoc result xs r'.pending ∙ ap (λ l. result ++ l) front))

  gathered-Block :
      (again : List ℕ → Reader → Option (List ℕ × Reader)) (size : ℕ) (result : List ℕ)
      (r r' : Reader) (xs : List ℕ)
      → 1 ≤ size - length result
      → length result ≤ size
      → r.buffer ≡ []
      → receive s (size - length result) r ≡ some (xs, r')
      → ((more : List ℕ) (r'' : Reader)
          → length result < length more
          → length more ≤ size
          → r''.buffer ≡ []
          → Block size (more ++ stream r'') (again more r''))
      → Block size (result ++ stream r) (gathered s again result (some (xs, r')))
  gathered-Block again size result r r' [] bytes short empty e next =
      let closed = receive-none s (size - length result) r r' bytes e in
      let (same_buffer, front) = receive-pending s (size - length result) r r' [] e in
      (
        (result, r'),
        refl,
        rw empty (rw closed (rw (append-nil result) (sym (take-all size result short)))),
        rw same_buffer (
            rw (front ∙ closed)
              (rw empty (rw closed (rw (append-nil result) (sym (drop-all size result short)))))),
      )
  gathered-Block again size result r r' (x ∷ xs) bytes short empty e next =
      let (same_buffer, front) = receive-pending s (size - length result) r r' (x ∷ xs) e in
      let fits = receive-length s (size - length result) r r' (x ∷ xs) e in
      let sum = length-append result (x ∷ xs) in
      subst (λ l. Block size l (again (result ++ x ∷ xs) r'))
        (moved result r r' (x ∷ xs) empty same_buffer front)
        (next (result ++ x ∷ xs) r' (omega arith) (omega arith) (same_buffer ∙ empty))

  gather-Block :
      (fuel size : ℕ) (result : List ℕ) (r : Reader)
      → 1 ≤ fuel
      → size < length result + fuel
      → length result ≤ size
      → (length result < size → r.buffer ≡ [])
      → Block size (result ++ stream r) (gather s fuel size result r)
  unfolding gather
  gather-Block zero size result r some_fuel enough short empty = ground arith
  gather-Block (suc fuel) size result r some_fuel enough short empty =
      elim (Bool-cases (leb size (length result))) [
        | inl full ↦
            let le = leb_le size (length result) full in
            rw full (
              (result, r),
              refl,
              sym (take-length size result (stream r) (omega arith)),
              sym (drop-length size result (stream r) (omega arith)),
            )
        | inr more ↦
            let (_, bytes) = leb_more size (length result) more in
            let ((xs, r'), run) = receive-early s early (size - length result) r in
            rw more (
              subst
                (λ m. Block size (result ++ stream r) (gathered s (gather s fuel size) result m))
                (sym run)
                (gathered-Block (gather s fuel size) size result r r' xs bytes short
                  (empty (omega arith)) run
                  λ longer r'' grows fits none_left.
                    gather-Block fuel size longer r'' (omega arith) (omega arith) fits
                      (λ _. none_left)))
      ]

-- if the buffer has fewer bytes than are asked for, it is emptied
drained : (n : ℕ) (xs : List ℕ) → length (take n xs) < n → drop n xs ≡ []
drained zero xs lt = ground arith
drained (suc n) [] lt = refl
drained (suc n) (x ∷ xs) lt = drained n xs (omega arith)

front_of : (n : ℕ) (xs ys : List ℕ) → take n xs ++ (drop n xs ++ ys) ≡ xs ++ ys
front_of n xs ys =
    sym (append_assoc (take n xs) (drop n xs) ys) ∙ ap (λ l. l ++ ys) (take-append-drop n xs)

-- Before the deadline, `read` answers with the first `size` bytes of the stream, or with all of them
-- if there are fewer, and leaves exactly the bytes after them, however they arrive. A round more
-- than the bytes asked for is enough.
pub read-take :
    (s : Socket) (fuel size : ℕ) (r : Reader)
    → IsEarly s
    → size < fuel
    → (a : List ℕ × Reader) × (read s fuel size r ≡ some a)
      × (a.0 ≡ take size (stream r))
      × (stream a.1 ≡ drop size (stream r))
unfolding read
read-take s fuel size r early enough =
    let first : List ℕ = take size r.buffer in
    let r' : Reader = record r { buffer = drop size r.buffer } in
    let ((result, r''), run, block, rest) =
      gather-Block s early fuel size first r' (omega arith) (omega arith)
        (length-take size r.buffer) (drained size r.buffer) in
    let whole : first ++ stream r' ≡ stream r = front_of size r.buffer r.pending in
    (
      (result, record r'' { readings = r''.readings + 1 }),
      subst (λ m. finally s m ≡ some (result, record r'' { readings = r''.readings + 1 })) (sym run)
          (ap (and_then result) (remaining-early s early r'')),
      block ∙ ap (take size) whole,
      rest ∙ ap (drop size) whole,
    )
  where
    and_then : List ℕ → Option Reader → Option (List ℕ × Reader)
    and_then xs none = none
    and_then xs (some x) = some (xs, x)
