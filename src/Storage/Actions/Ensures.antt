-- ===== src/Storage/Actions/Ensures.antt =====
-- What holds of the tables after an action that succeeds, given what held before it: the rules for
-- the actions whose writes rest on what they have read.
use pepeuchiacluster.Prelude.{
  ◌≡◌, refl, sym, subst, ◌∙◌, Bool, true, false, String, ℕ, Option, none, some, if◌then◌else◌,
}
use pepeuchiacluster.Contracts.{Result, ok, err}
use pepeuchiacluster.Storage.Database.{Db, Statement, apply}
use pepeuchiacluster.Storage.Actions.{
  World, Action, continue, written, ◌>>=◌, pure, query, or_raise, guard, exec, transaction,
  committed,
}
use pepeuchiacluster.Storage.Actions.Keeps.{Keeps, OnOk}

abbrev pub Post : {A : Type 0} → (A → Db → Type 0) → Result A → Db → Type 0
Post Q (ok a) db = Q a db
Post Q (err p) db = Unit

pub record Ensures {A : Type 0} (P : Db → Type 0) (m : Action A) (Q : A → Db → Type 0)
    : Type 0 where
  pub at : (w : World) → P w.db → Post Q (m w).0 (m w).1.db

module _ {A : Type 0} {P : Db → Type 0} where
  pub Ensures-Keeps : (m : Action A) → Ensures P m (λ _. P) → Keeps P m
  Ensures-Keeps m e = record { at = λ w h. let (r, w') = m w in ended r w' (e.at w h) }
    where
      ended : (r : Result A) (w' : World) → Post (λ _. P) r w'.db → OnOk (P w'.db) r
      ended (ok a) w' h = h
      ended (err p) w' h = tt

  pub Keeps-Ensures : (m : Action A) → Keeps P m → Ensures P m (λ _. P)
  Keeps-Ensures m k = record { at = λ w h. let (r, w') = m w in ended r w' (k.at w h) }
    where
      ended : (r : Result A) (w' : World) → OnOk (P w'.db) r → Post (λ _. P) r w'.db
      ended (ok a) w' h = h
      ended (err p) w' h = tt

  pub Ensures-query : (f : Db → A) → Ensures P (query f) (λ a db. P db × (f db ≡ a))
  unfolding query
  Ensures-query f = record { at = λ w h. (h, refl) }

  pub Ensures-or_raise :
      (o : Option A) (c : String) (s : ℕ) → Ensures P (or_raise o c s) (λ a db. P db × (o ≡ some a))
  unfolding or_raise
  Ensures-or_raise none c s = record { at = λ w h. tt }
  Ensures-or_raise (some a) c s = record { at = λ w h. (h, refl) }

  pub Ensures-pure : (a : A) → Ensures P (pure a) (λ _. P)
  unfolding pure
  Ensures-pure a = record { at = λ w h. h }

module _ {A : Type 0} where
  pub Ensures-any : (m : Action A) → Ensures (λ _. Unit {0}) m (λ _ _. Unit {0})
  Ensures-any m = record { at = λ w _. let (r, w') = m w in ended r w' }
    where
      ended : (r : Result A) (w' : World) → Post (λ _ _. Unit {0}) r w'.db
      ended (ok a) w' = tt
      ended (err p) w' = tt

module _ {A : Type 0} {Q : A → Db → Type 0} where
  pub Ensures-return : (a : A) → Ensures (Q a) (pure a) Q
  unfolding pure
  Ensures-return a = record { at = λ w h. h }

  -- what is ensured of a run that has succeeded
  pub Ensures-ok :
      {P : Db → Type 0} (m : Action A)
      → Ensures P m Q
      → (w : World) → P w.db
      → (a : A) (w' : World) → m w ≡ (ok a, w')
      → Q a w'.db
  Ensures-ok m e w h a w' run = subst (λ x. Post Q x.0 x.1.db) run (e.at w h)

module _ {P : Db → Type 0} where
  pub Ensures-guard :
      (b : Bool) (c : String) (s : ℕ) → Ensures P (guard b c s) (λ _ db. P db × (b ≡ true))
  unfolding guard
  Ensures-guard true c s = record { at = λ w h. (h, refl) }
  Ensures-guard false c s = record { at = λ w h. tt }

  pub Ensures-exec :
      {Q : Db → Type 0} (s : Statement)
      → ((db db' : Db) → apply s db ≡ some db' → P db → Q db')
      → Ensures P (exec s) (λ _. Q)
  unfolding exec
  Ensures-exec {Q} s k = record { at = λ w h. done w (apply s w.db) (λ db' e. k w.db db' e h) }
    where
      done :
          (w : World) (o : Option Db)
          → ((db' : Db) → o ≡ some db' → Q db')
          → Post (λ _. Q) (written o w).0 (written o w).1.db
      done w none g = tt
      done w (some db') g = g db' refl

module _ {A : Type 0} {B : Type 0} {P : Db → Type 0} where
  pub Ensures-bind :
      {Q : A → Db → Type 0} {S : B → Db → Type 0} (m : Action A) (f : A → Action B)
      → Ensures P m Q
      → ((a : A) → Ensures (Q a) (f a) S)
      → Ensures P (m >>= f) S
  unfolding ◌>>=◌
  Ensures-bind {Q} {S} m f em ef = record {
    at = λ w h. let (r, w') = m w in after r w' (em.at w h);
  }
    where
      after :
          (r : Result A) (w' : World)
          → Post Q r w'.db
          → Post S (continue r f w').0 (continue r f w').1.db
      after (ok a) w' h = (ef a).at w' h
      after (err p) w' h = tt

module _ {A : Type 0} {P P' : Db → Type 0} {Q : A → Db → Type 0} where
  pub Ensures-weaken : (m : Action A) → ((db : Db) → P' db → P db) → Ensures P m Q → Ensures P' m Q
  Ensures-weaken m g e = record { at = λ w h. e.at w (g w.db h) }

-- A row that is read and must be there, with the rest of the block, which may use what was read.
module _ {A : Type 0} {B : Type 0} {P : Db → Type 0} {S : B → Db → Type 0} where
  pub Ensures-read :
      (f : Db → Option A) (c : String) (s : ℕ) (k : A → Action B)
      → ((a : A) → Ensures (λ db. P db × (f db ≡ some a)) (k a) S)
      → Ensures P (query f >>= λ q. or_raise q c s >>= k) S
  Ensures-read f c s k e =
      Ensures-bind (query f) (λ q. or_raise q c s >>= k) (Ensures-query f)
        λ q.
          Ensures-bind (or_raise q c s) k (Ensures-or_raise q c s)
            λ a. Ensures-weaken (k a) (λ db h. (h.0.0, h.0.1 ∙ h.1)) (e a)

module _ {B : Type 0} {P : Db → Type 0} {S : B → Db → Type 0} where
  pub Ensures-test :
      (b : Bool) (c : String) (s : ℕ) (k : Unit {0} → Action B)
      → (b ≡ true → Ensures P (k tt) S)
      → Ensures P (guard b c s >>= k) S
  unfolding guard ◌>>=◌
  Ensures-test true c s k e = record { at = λ w h. (e refl).at w h }
  Ensures-test false c s k e = record { at = λ w h. tt }

module _ {A : Type 0} {P : Db → Type 0} {Q R : A → Db → Type 0} where
  pub Ensures-then :
      (m : Action A) → Ensures P m Q → ((a : A) (db : Db) → Q a db → R a db) → Ensures P m R
  Ensures-then m e g = record { at = λ w h. let (r, w') = m w in ended r w' (e.at w h) }
    where
      ended : (r : Result A) (w' : World) → Post Q r w'.db → Post R r w'.db
      ended (ok a) w' h = g a w'.db h
      ended (err p) w' h = tt

-- A row that is read last.
module _ {A : Type 0} {P : Db → Type 0} {S : A → Db → Type 0} where
  pub Ensures-fetch :
      (f : Db → Option A) (c : String) (s : ℕ)
      → ((a : A) (db : Db) → P db → f db ≡ some a → S a db)
      → Ensures P (query f >>= λ q. or_raise q c s) S
  Ensures-fetch f c s g =
      Ensures-bind (query f) (λ q. or_raise q c s) (Ensures-query f)
        λ q.
          Ensures-then (or_raise q c s) (Ensures-or_raise q c s)
            λ a db h. g a db h.0.0 (h.0.1 ∙ h.1)

module _ {A : Type 0} {P : Db → Type 0} {Q : A → Db → Type 0} where
  pub Ensures-if :
      (b : Bool) (m n : Action A) → Ensures P m Q → Ensures P n Q → Ensures P (if b then m else n) Q
  Ensures-if true m n em en = em
  Ensures-if false m n em en = en

module _ {A : Type 0} {P : Db → Type 0} {Q : A → Db → Type 0} where
  pub Ensures-transaction : (m : Action A) → Ensures P m Q → Ensures P (transaction m) Q
  unfolding transaction
  Ensures-transaction m e = record { at = λ w h. let (r, w') = m w in ended r w w' (e.at w h) }
    where
      ended : (r : Result A) (w w' : World) → Post Q r w'.db → Post Q r (committed r w w').db
      ended (ok a) w w' h = h
      ended (err p) w w' h = tt

module _ {A B : Type 0} {P : Db → Type 0} {Q : B → Db → Type 0} where
  -- a step that keeps what is known
  pub Ensures-keep :
      (m : Action A) (f : A → Action B)
      → Keeps P m
      → ((a : A) → Ensures P (f a) Q)
      → Ensures P (m >>= f) Q
  Ensures-keep m f k e = Ensures-bind m f (Keeps-Ensures m k) e

-- A query of tables that are known.
module _ {A B : Type 0} {db0 : Db} {Q : B → Db → Type 0} where
  pub Ensures-at :
      (g : Db → A) (f : A → Action B)
      → Ensures (λ db. db ≡ db0) (f (g db0)) Q
      → Ensures (λ db. db ≡ db0) (query g >>= f) Q
  unfolding query ◌>>=◌
  Ensures-at g f e = record {
    at = λ w h. subst (λ x. Post Q (f (g x) w).0 (f (g x) w).1.db) (sym h) (e.at w h);
  }

module _ {A B : Type 0} {P : Db → Type 0} {Q : B → Db → Type 0} where
  -- a row that must be there, whatever it was read from
  pub Ensures-found :
      (o : Option A) (c : String) (s : ℕ) (f : A → Action B)
      → ((a : A) → o ≡ some a → Ensures P (f a) Q)
      → Ensures P (or_raise o c s >>= f) Q
  unfolding or_raise ◌>>=◌
  Ensures-found none c s f e = record { at = λ w h. tt }
  Ensures-found (some a) c s f e = record { at = λ w h. (e a refl).at w h }

module _ {A : Type 0} {P : Db → Type 0} {Q : A → Db → Type 0} {X : Type 0} where
  -- what was found out of what was read
  pub Ensures-given : (m : Action A) → (X → Ensures P m Q) → Ensures (λ db. P db × X) m Q
  Ensures-given m e = record { at = λ w h. (e h.1).at w h.0 }
