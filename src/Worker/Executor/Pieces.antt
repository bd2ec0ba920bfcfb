-- ===== src/Worker/Executor/Pieces.antt =====
-- The loop of pepeuch_worker/executor.py over the pieces of the input.
use pepeuchiacluster.Prelude.{
  ℕ, String, zero, suc, ◌*◌, ◌≤◌, ◌≡◌, refl, ap, ◌∙◌, List, [], ◌∷◌, ◌++◌, Option, none, some,
  arith, length, take, drop, take-append-drop, length-drop,
}
use pepeuchiacluster.Contracts.Values.{Value}
use pepeuchiacluster.Worker.Executor.{
  Machinery, Limits, piece, rounds, look, Progress, hashed, go_on, hash_pieces,
}

-- so many pieces of a text of bytes, each of 512 but the last
abbrev pub pieces : ℕ → List ℕ → List (List ℕ)
pieces zero raw = []
pieces (suc n) raw = take piece raw ∷ pieces n (drop piece raw)

abbrev pub joined : List (List ℕ) → List ℕ
joined [] = []
joined (p ∷ ps) = p ++ joined ps

joined-pieces : (n : ℕ) (raw : List ℕ) → length raw ≤ n * piece → joined (pieces n raw) ≡ raw
joined-pieces zero [] short = refl
joined-pieces zero (b ∷ raw) short = absurd (omega arith)
joined-pieces (suc n) raw short =
    ap (λ r. take piece raw ++ r)
      (joined-pieces n (drop piece raw) (omega (arith, length-drop piece raw)))
    ∙ take-append-drop piece raw

pub joined-all_pieces : (raw : List ℕ) → joined (pieces (rounds raw) raw) ≡ raw
joined-all_pieces raw = joined-pieces (rounds raw) raw (omega arith)

module _ (m : Machinery) where
  abbrev pub updated : m.Hasher → List (List ℕ) → m.Hasher
  updated h [] = h
  updated h (p ∷ ps) = updated (m.update h p) ps

module _ (m : Machinery) (l : Limits) where
  -- no look from one on, so many of them, has an error
  abbrev pub Clear : Value → ℕ → ℕ → Type 0
  Clear deadline zero n = Unit
  Clear deadline (suc left) n = (look m l deadline n ≡ none) × Clear deadline left (suc n)

  go_on-hashed :
      (o : Option String) (rest : Progress m l) (h : m.Hasher)
      → go_on m l o rest ≡ hashed h
      → (o ≡ none) × (rest ≡ hashed h)
  go_on-hashed none rest h e = (refl, e)
  go_on-hashed (some code) rest h e = cc

  -- a loop that ends has hashed every piece, and no look has had an error
  pub hash_pieces-hashed :
      (deadline : Value) (left n : ℕ) (raw : List ℕ) (h h' : m.Hasher)
      → hash_pieces m l deadline left n raw h ≡ hashed h'
      → (h' ≡ updated m h (pieces left raw)) × Clear deadline left n
  unfolding hash_pieces
  hash_pieces-hashed deadline zero n raw h h' e = (ground arith, tt)
  hash_pieces-hashed deadline (suc left) n raw h h' e =
      let (clear, rest) = go_on-hashed (look m l deadline n) _ h' e in
      let (same_, more) =
        hash_pieces-hashed deadline left (suc n) (drop piece raw) (m.update h (take piece raw)) h'
          rest in
      (same_, (clear, more))

  -- it ends so where no look has an error
  pub hash_pieces-Clear :
      (deadline : Value) (left n : ℕ) (raw : List ℕ) (h : m.Hasher)
      → Clear deadline left n
      → hash_pieces m l deadline left n raw h ≡ hashed (updated m h (pieces left raw))
  unfolding hash_pieces
  hash_pieces-Clear deadline zero n raw h clear = refl
  hash_pieces-Clear deadline (suc left) n raw h clear =
      rw clear.0 (hash_pieces-Clear deadline left (suc n) (drop piece raw) _ clear.1)
