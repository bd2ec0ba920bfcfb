-- ===== src/Prelude/Lists.antt =====
-- Rows of a table: the queries and the updates that the program's statements make.
use Prim.Native.Nat.{ℕ, zero, suc, ◌+◌, ◌-◌, max}
use mathlib.Core.Path.{◌≡◌, refl, ap, subst}
use mathlib.Core.Bool.{Bool, true, false, ◌&&◌, ◌||◌}
use mathlib.Core.Option.{Option, none, some, some-injective}
use mathlib.Core.List.{List, [], ◌∷◌, ◌++◌}
use native.Mathlib.Omega.{arith}
use pepeuchiacluster.Prelude.Tests.{leb, if◌then◌else◌}

module _ {ℓ} {A : Type ℓ} where
  abbrev pub length : List A → ℕ
  length [] = 0
  length (x ∷ xs) = suc (length xs)

  -- the first row for which the test holds: `SELECT … WHERE …`, `fetchone`
  abbrev pub find : (A → Bool) → List A → Option A
  find p [] = none
  find p (x ∷ xs) = if p x then some x else find p xs

  -- all rows for which the test holds, in order: `fetchall`
  abbrev pub select : (A → Bool) → List A → List A
  select p [] = []
  select p (x ∷ xs) = let rest = select p xs in if p x then x ∷ rest else rest

  abbrev pub any : (A → Bool) → List A → Bool
  any p [] = false
  any p (x ∷ xs) = p x || any p xs

  abbrev pub all : (A → Bool) → List A → Bool
  all p [] = true
  all p (x ∷ xs) = p x && all p xs

  -- `UPDATE … SET … WHERE …`
  abbrev pub update_where : (A → Bool) → (A → A) → List A → List A
  update_where p f [] = []
  update_where p f (x ∷ xs) = (if p x then f x else x) ∷ update_where p f xs

  abbrev pub sum_of : (A → ℕ) → List A → ℕ
  sum_of f [] = 0
  sum_of f (x ∷ xs) = f x + sum_of f xs

  -- `COALESCE(MAX(…), 0)`
  abbrev pub max_of : (A → ℕ) → List A → ℕ
  max_of f [] = 0
  max_of f (x ∷ xs) = max (f x) (max_of f xs)

  insert_by : (A → A → Bool) → A → List A → List A
  insert_by le x [] = x ∷ []
  insert_by le x (y ∷ ys) = if le x y then x ∷ y ∷ ys else y ∷ insert_by le x ys

  -- `ORDER BY`, stable
  unfoldable pub order_by : (A → A → Bool) → List A → List A
  unfolding insert_by
  order_by le [] = []
  order_by le (x ∷ xs) = insert_by le x (order_by le xs)

  -- `LIMIT n`
  abbrev pub take : ℕ → List A → List A
  take zero xs = []
  take (suc n) [] = []
  take (suc n) (x ∷ xs) = x ∷ take n xs

  abbrev pub drop : ℕ → List A → List A
  drop zero xs = xs
  drop (suc n) [] = []
  drop (suc n) (x ∷ xs) = drop n xs

  abbrev pub head? : List A → Option A
  head? [] = none
  head? (x ∷ xs) = some x

  -- the last row of an ascending order: `ORDER BY … DESC LIMIT 1`
  abbrev later : (A → ℕ) → A → Option A → Option A
  later f x none = some x
  later f x (some y) = if leb (f x) (f y) then some y else some x

  abbrev pub latest : (A → ℕ) → List A → Option A
  latest f [] = none
  latest f (x ∷ xs) = later f x (latest f xs)

module _ {ℓ} {A : Type ℓ} where
  pub take-append-drop : (n : ℕ) (xs : List A) → take n xs ++ drop n xs ≡ xs
  take-append-drop zero xs = refl
  take-append-drop (suc n) [] = refl
  take-append-drop (suc n) (x ∷ xs) = ap (λ l. x ∷ l) (take-append-drop n xs)

  pub length-drop : (n : ℕ) (xs : List A) → length (drop n xs) ≡ length xs - n
  length-drop zero xs = omega arith
  length-drop (suc n) [] = omega arith
  length-drop (suc n) (x ∷ xs) = omega (arith, length-drop n xs)

  pub length-append : (xs ys : List A) → length (xs ++ ys) ≡ length xs + length ys
  length-append [] ys = omega arith
  length-append (x ∷ xs) ys = omega (arith, length-append xs ys)

  pub find-append_none :
      (p : A → Bool) (xs ys : List A) → find p xs ≡ none → find p (xs ++ ys) ≡ find p ys
  find-append_none p [] ys h = refl
  find-append_none p (x ∷ xs) ys h = ground (arith, find-append_none p xs ys)

  pub find-append_some :
      (p : A → Bool) (xs ys : List A) (r : A) → find p xs ≡ some r → find p (xs ++ ys) ≡ some r
  find-append_some p [] ys r h = cc
  find-append_some p (x ∷ xs) ys r h = ground (arith, find-append_some p xs ys r)

  pub find_holds : (p : A → Bool) (xs : List A) (r : A) → find p xs ≡ some r → p r ≡ true
  find_holds p [] r h = cc
  find_holds p (x ∷ xs) r h = ground (arith, find_holds p xs r)

  pub any-find-none : (p : A → Bool) (xs : List A) → any p xs ≡ false → find p xs ≡ none
  any-find-none p [] h = refl
  any-find-none p (x ∷ xs) h = ground (arith, any-find-none p xs)

  pub sum_of-append : (f : A → ℕ) (xs ys : List A) → sum_of f (xs ++ ys) ≡ sum_of f xs + sum_of f ys
  sum_of-append f [] ys = omega arith
  sum_of-append f (x ∷ xs) ys = omega (arith, sum_of-append f xs ys)

  pub select-append :
      (p : A → Bool) (xs ys : List A) → select p (xs ++ ys) ≡ select p xs ++ select p ys
  select-append p [] ys = refl
  select-append p (x ∷ xs) ys = ground (arith, select-append p xs ys)

abbrev pub All {ℓ κ} : {A : Type ℓ} → (A → Type κ) → List A → Type κ
All P [] = Unit
All P (x ∷ xs) = P x × All P xs

module _ {ℓ κ} {A : Type ℓ} (P : A → Type κ) (le : A → A → Bool) where
  All-insert_by : (x : A) (xs : List A) → P x → All P xs → All P (insert_by le x xs)
  unfolding insert_by
  All-insert_by x [] p h = (p, tt)
  All-insert_by x (y ∷ ys) p h =
      elim (le x y) as (λ b. All P (if b then x ∷ y ∷ ys else y ∷ insert_by le x ys)) [
        | true ↦ (p, h)
        | false ↦ (h.0, All-insert_by x ys p h.1)
      ]

  pub All-order_by : (xs : List A) → All P xs → All P (order_by le xs)
  unfolding order_by
  All-order_by [] h = tt
  All-order_by (x ∷ xs) h = All-insert_by x (order_by le xs) h.0 (All-order_by xs h.1)

module _ {ℓ} {A : Type ℓ} (le : A → A → Bool) where
  length-insert_by : (x : A) (xs : List A) → length (insert_by le x xs) ≡ suc (length xs)
  unfolding insert_by
  length-insert_by x [] = refl
  length-insert_by x (y ∷ ys) = ground (arith, length-insert_by x ys)

  pub length-order_by : (xs : List A) → length (order_by le xs) ≡ length xs
  unfolding order_by
  length-order_by [] = refl
  length-order_by (x ∷ xs) = ground (arith, length-insert_by x (order_by le xs), length-order_by xs)

module _ {ℓ} {A : Type ℓ} (p : A → Bool) (le : A → A → Bool) where
  any-insert_by : (x : A) (xs : List A) → any p (insert_by le x xs) ≡ (p x || any p xs)
  unfolding insert_by
  any-insert_by x [] = refl
  any-insert_by x (y ∷ ys) = ground (arith, any-insert_by x ys)

  -- The order of the rows does not matter to a test for some row.
  pub any-order_by : (xs : List A) → any p (order_by le xs) ≡ any p xs
  unfolding order_by
  any-order_by [] = refl
  any-order_by (x ∷ xs) = ground (arith, any-insert_by x (order_by le xs), any-order_by xs)

module _ {ℓ κ} {A : Type ℓ} (P : A → Type κ) where
  pub All-head? : (xs : List A) (x : A) → All P xs → head? xs ≡ some x → P x
  All-head? [] x h e = cc
  All-head? (y ∷ ys) x h e = subst P (some-injective y x e) h.0

  pub All-append : (xs ys : List A) → All P xs → All P ys → All P (xs ++ ys)
  All-append [] ys none_ all_ = all_
  All-append (x ∷ xs) ys here there = (here.0, All-append xs ys here.1 there)
