-- ===== src/Tests/Lines.antt =====
-- A line and a block that arrive in pieces.
use pepeuchiacluster.Prelude.{drop, take, ℕ, ◌≡◌, refl, arith, List, [], ◌∷◌, some}
use pepeuchiacluster.Input.{Socket, Reader, readline, read}
use pepeuchiacluster.Input.Blocks.{read-take}
use pepeuchiacluster.Input.Lines.{split_line, stream, readline-split_line}

abbrev socket : Socket
socket = record { clock = λ n. 0; arrive = λ n. 0; deadline = 5 }

-- "GE" is buffered, "T", carriage return, line feed, "x" are still to come
abbrev reader : Reader
reader = record {
  buffer = 71 ∷ 69 ∷ [];
  pending = 84 ∷ 13 ∷ 10 ∷ 120 ∷ [];
  readings = 0;
  receptions = 0;
}

readline-split_line_example :
    (a : List ℕ × Reader) × (readline socket 20 16 reader ≡ some a)
    × ((a.0, stream a.1) ≡ split_line 16 (stream reader))
readline-split_line_example =
    readline-split_line socket 20 16 reader (λ n. refl) (omega arith) (omega arith)

read-take_example :
    (a : List ℕ × Reader) × (read socket 20 4 reader ≡ some a)
    × (a.0 ≡ take 4 (stream reader))
    × (stream a.1 ≡ drop 4 (stream reader))
read-take_example = read-take socket 20 4 reader (λ n. refl) (omega arith)
