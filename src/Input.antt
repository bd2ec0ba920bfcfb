-- ===== src/Input.antt =====
-- control_plane/http_io.py: `DeadlineInput`, the reader of a socket that is bounded by a deadline.
-- Time is in whole units of the clock. The connection is outside: `pending` is what the peer still
-- sends before it closes, and the n-th `recv` finds `arrive n + 1` bytes of it there, or fewer.
pub mod Lines
pub mod Blocks
use pepeuchiacluster.Prelude.{
  ℕ, zero, suc, ◌+◌, ◌-◌, min, Bool, ◌||◌, ltb, leb, ◌==◌, List, take, drop, [], ◌∷◌, ◌++◌, Option,
  none, some, length, if◌then◌else◌,
}

pub record Socket : Type 0 where
  pub clock : ℕ → ℕ
  pub arrive : ℕ → ℕ
  pub deadline : ℕ

pub record Reader : Type 0 where
  pub buffer : List ℕ
  pub pending : List ℕ
  pub readings : ℕ
  pub receptions : ℕ

abbrev pub line_feed : ℕ
line_feed = 10

abbrev one_more : Option ℕ → Option ℕ
one_more none = none
one_more (some n) = some (suc n)

-- `buffer.find(b"\n", 0, limit) + 1`, the bytes up to the line feed, or `none` for -1
abbrev pub line_count : ℕ → List ℕ → Option ℕ
line_count zero xs = none
line_count (suc n) [] = none
line_count (suc n) (x ∷ xs) = if x == line_feed then some 1 else one_more (line_count n xs)

-- the first bytes of the buffer, which go
abbrev pub taken : ℕ → Reader → List ℕ × Reader
taken n r = (take n r.buffer, record r { buffer = drop n r.buffer })

module _ (s : Socket) where
  -- `remaining`; `none` is a `TimeoutError`
  unfoldable pub remaining : Reader → Option Reader
  remaining r =
      if ltb (s.clock r.readings) s.deadline
      then some (record r { readings = r.readings + 1 })
      else none

  -- `recv(n)`
  abbrev pub recv : ℕ → Reader → List ℕ × Reader
  recv n r =
      let k = min n (s.arrive r.receptions + 1) in
      (take k r.pending, record r { pending = drop k r.pending; receptions = r.receptions + 1 })

  abbrev pub and_remaining : List ℕ × Reader → Option (List ℕ × Reader)
  and_remaining (data_, r) = elim (remaining r) [ none ↦ none | some r' ↦ some (data_, r') ]

  -- `_receive`
  unfoldable pub receive : ℕ → Reader → Option (List ℕ × Reader)
  unfolding remaining
  receive limit r = elim (remaining r) [
    | none ↦ none
    | some r' ↦ and_remaining (recv (min limit 8192) r')
  ]

  -- one round of the loop of `readline` on what `_receive` answers, `again` being the next round
  abbrev pub received :
      (Reader → Option (List ℕ × Reader)) → Option (List ℕ × Reader) → Option (List ℕ × Reader)
  received again none = none
  received again (some ([], r)) = some (r.buffer, record r { buffer = [] })
  received again (some (x ∷ xs, r)) = again (record r { buffer = r.buffer ++ x ∷ xs })

  abbrev pub searched :
      ℕ → (Reader → Option (List ℕ × Reader)) → Option ℕ → Reader → Option (List ℕ × Reader)
  searched limit again (some count) r = some (taken count r)
  searched limit again none r =
      if leb limit (length r.buffer)
      then some (taken limit r)
      else received again (receive (limit - length r.buffer) r)

  -- what follows `remaining`
  abbrev pub started :
      (Reader → Option (List ℕ × Reader)) → Option Reader → Option (List ℕ × Reader)
  started next none = none
  started next (some r) = next r

  -- one round of the loop of `readline`
  abbrev pub round : (Reader → Option (List ℕ × Reader)) → ℕ → Reader → Option (List ℕ × Reader)
  round again limit r = searched limit again (line_count limit r.buffer) r

  -- `readline`, with fuel for its rounds; `none` is a timeout, or no fuel
  unfoldable pub readline : ℕ → ℕ → Reader → Option (List ℕ × Reader)
  unfolding receive
  readline zero limit r = none
  readline (suc fuel) limit r = started (round (readline fuel limit) limit) (remaining r)

  -- the loop of `read`: `result` is what it has so far; `none` is a timeout, or no fuel
  abbrev pub gathered :
      (List ℕ → Reader → Option (List ℕ × Reader))
      → List ℕ
      → Option (List ℕ × Reader)
      → Option (List ℕ × Reader)
  gathered again result none = none
  gathered again result (some ([], r)) = some (result, r)
  gathered again result (some (x ∷ xs, r)) = again (result ++ x ∷ xs) r

  unfoldable pub gather : ℕ → ℕ → List ℕ → Reader → Option (List ℕ × Reader)
  unfolding receive
  gather zero size result r = none
  gather (suc fuel) size result r =
      if leb size (length result)
      then some (result, r)
      else gathered (gather fuel size) result (receive (size - length result) r)

  abbrev pub finally : Option (List ℕ × Reader) → Option (List ℕ × Reader)
  finally none = none
  finally (some (result, r)) = and_remaining (result, r)

  -- `read`, of a size that is not negative
  unfoldable pub read : ℕ → ℕ → Reader → Option (List ℕ × Reader)
  unfolding gather remaining
  read fuel size r =
      finally (gather fuel size (take size r.buffer) (record r { buffer = drop size r.buffer }))
