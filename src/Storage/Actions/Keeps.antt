-- ===== src/Storage/Actions/Keeps.antt =====
-- Invariants of the tables under actions, a rule for each way to build an action. `Keeps` speaks of
-- the actions that succeed, which is enough inside a transaction; `Stays` speaks of all.
use pepeuchiacluster.Prelude.{
  ℕ, ◌≡◌, refl, sym, subst, Bool, true, false, String, List, [], ◌∷◌, Option, none, some,
  if◌then◌else◌,
}
use pepeuchiacluster.Contracts.{Result, ok, err}
use pepeuchiacluster.Storage.Database.{Db, Statement, apply}
use pepeuchiacluster.Storage.Actions.{
  World, Action, committed, continue, written, Env, ◌>>=◌, ◌>>◌, pure, raise, lift, query, or_raise,
  guard, exec, each, now, new_id, transaction,
}

abbrev pub OnOk {ℓ κ} : {A : Type ℓ} → Type κ → Result A → Type κ
OnOk P (ok a) = P
OnOk P (err p) = Unit

pub record Keeps {ℓ} {A : Type ℓ} (P : Db → Type 0) (m : Action A) : Type 0 where
  pub at : (w : World) → P w.db → OnOk (P (m w).1.db) (m w).0

pub record Stays {ℓ} {A : Type ℓ} (P : Db → Type 0) (m : Action A) : Type 0 where
  pub at : (w : World) → P w.db → P (m w).1.db

module _ {ℓ} {A : Type ℓ} {P : Db → Type 0} where
  pub Keeps-pure : (a : A) → Keeps P (pure a)
  unfolding pure
  Keeps-pure a = record { at = λ w h. h }

  pub Keeps-raise : (c : String) (s : ℕ) → Keeps P (raise {A = A} c s)
  unfolding raise
  Keeps-raise c s = record { at = λ w h. tt }

  pub Keeps-lift : (r : Result A) → Keeps P (lift r)
  unfolding lift
  Keeps-lift (ok a) = record { at = λ w h. h }
  Keeps-lift (err p) = record { at = λ w h. tt }

  pub Keeps-query : (f : Db → A) → Keeps P (query f)
  unfolding query
  Keeps-query f = record { at = λ w h. h }

  pub Keeps-or_raise : (o : Option A) (c : String) (s : ℕ) → Keeps P (or_raise o c s)
  unfolding or_raise
  Keeps-or_raise none c s = record { at = λ w h. tt }
  Keeps-or_raise (some a) c s = record { at = λ w h. h }

  pub Keeps-if : (b : Bool) (m n : Action A) → Keeps P m → Keeps P n → Keeps P (if b then m else n)
  Keeps-if true m n km kn = km
  Keeps-if false m n km kn = kn

  -- An action that never touches the tables keeps whatever holds of them.
  pub Keeps-untouched : (m : Action A) → ((w : World) → (m w).1.db ≡ w.db) → Keeps P m
  Keeps-untouched m same_db = record {
    at = λ w h. let (r, w') = m w in ended r (subst P (sym (same_db w)) h);
  }
    where
      ended : {T : Type 0} (r : Result A) → T → OnOk T r
      ended (ok a) h = h
      ended (err p) h = tt

  -- A raise inside a transaction restores the tables, so success is all that is asked.
  pub Stays-transaction : (m : Action A) → Keeps P m → Stays P (transaction m)
  unfolding transaction
  Stays-transaction m k = record { at = λ w h. let (r, w') = m w in ended r w w' h (k.at w h) }
    where
      ended : (r : Result A) (w w' : World) → P w.db → OnOk (P w'.db) r → P (committed r w w').db
      ended (ok a) w w' h h' = h'
      ended (err p) w w' h h' = h

  pub Stays-pure : (a : A) → Stays P (pure a)
  unfolding pure
  Stays-pure a = record { at = λ w h. h }

  pub Stays-raise : (c : String) (s : ℕ) → Stays P (raise {A = A} c s)
  unfolding raise
  Stays-raise c s = record { at = λ w h. h }

  pub Stays-if : (b : Bool) (m n : Action A) → Stays P m → Stays P n → Stays P (if b then m else n)
  Stays-if true m n sm sn = sm
  Stays-if false m n sm sn = sn

  pub Stays-lift : (r : Result A) → Stays P (lift r)
  unfolding lift
  Stays-lift r = record { at = λ w h. h }

module _ {ℓ κ} {A : Type ℓ} {B : Type κ} {P : Db → Type 0} where
  pub Keeps-bind :
      (m : Action A) (f : A → Action B) → Keeps P m → ((a : A) → Keeps P (f a)) → Keeps P (m >>= f)
  unfolding ◌>>=◌
  Keeps-bind m f km kf = record { at = λ w h. let (r, w') = m w in after r w' (km.at w h) }
    where
      after :
          (r : Result A) (w' : World)
          → OnOk (P w'.db) r
          → OnOk (P (continue r f w').1.db) (continue r f w').0
      after (ok a) w' h = (kf a).at w' h
      after (err p) w' h = tt

-- a step whose success says something that the rest rests on
module _ {A B : Type 0} {P : Db → Type 0} {C : Type 0} where
  pub Keeps-knowing :
      (m : Action A) (f : A → Action B)
      → Keeps P m
      → ((w : World) (a : A) → (m w).0 ≡ ok a → C)
      → (C → (a : A) → Keeps P (f a))
      → Keeps P (m >>= f)
  unfolding ◌>>=◌
  Keeps-knowing m f km known kf = record {
    at = λ w h. let (r, w') = m w in after r w' (known w) (km.at w h);
  }
    where
      after :
          (r : Result A) (w' : World)
          → ((a : A) → r ≡ ok a → C)
          → OnOk (P w'.db) r
          → OnOk (P (continue r f w').1.db) (continue r f w').0
      after (ok a) w' g h = (kf (g a refl) a).at w' h
      after (err p) w' g h = tt

module _ {ℓ κ} {A : Type ℓ} {B : Type κ} {P : Db → Type 0} where
  pub Keeps-seq : (m : Action A) (k : Action B) → Keeps P m → Keeps P k → Keeps P (m >> k)
  Keeps-seq m k km kk = Keeps-bind m (λ _. k) km (λ _. kk)

module _ {P : Db → Type 0} where
  pub Keeps-guard : (b : Bool) (c : String) (s : ℕ) → Keeps P (guard b c s)
  unfolding guard
  Keeps-guard true c s = record { at = λ w h. h }
  Keeps-guard false c s = record { at = λ w h. tt }

  pub Keeps-now : (env : Env) → Keeps P (now env)
  unfolding now
  Keeps-now env = record { at = λ w h. h }

  pub Keeps-new_id : (env : Env) (prefix : String) → Keeps P (new_id env prefix)
  unfolding new_id
  Keeps-new_id env prefix = record { at = λ w h. h }

  pub Keeps-exec :
      (s : Statement) → ((db db' : Db) → apply s db ≡ some db' → P db → P db') → Keeps P (exec s)
  unfolding exec
  Keeps-exec s k = record { at = λ w h. done w (apply s w.db) (λ db' e. k w.db db' e h) }
    where
      done :
          (w : World) (o : Option Db)
          → ((db' : Db) → o ≡ some db' → P db')
          → OnOk (P (written o w).1.db) (written o w).0
      done w none g = tt
      done w (some db') g = g db' refl

  pub Keeps-each {ℓ} :
      {A : Type ℓ} (xs : List A) (f : A → Action (Unit {0}))
      → ((a : A) → Keeps P (f a))
      → Keeps P (each xs f)
  unfolding each
  Keeps-each [] f k = Keeps-pure tt
  Keeps-each (x ∷ xs) f k = Keeps-bind (f x) (λ _. each xs f) (k x) (λ _. Keeps-each xs f k)

module _ {P : Db → Type 0} where
  pub Stays-guard : (b : Bool) (c : String) (s : ℕ) → Stays P (guard b c s)
  unfolding guard
  Stays-guard true c s = record { at = λ w h. h }
  Stays-guard false c s = record { at = λ w h. h }

  pub Stays-new_id : (env : Env) (prefix : String) → Stays P (new_id env prefix)
  unfolding new_id
  Stays-new_id env prefix = record { at = λ w h. h }

module _ {ℓ κ} {A : Type ℓ} {B : Type κ} {P : Db → Type 0} where
  pub Stays-bind :
      (m : Action A) (f : A → Action B) → Stays P m → ((a : A) → Stays P (f a)) → Stays P (m >>= f)
  unfolding ◌>>=◌
  Stays-bind m f km kf = record { at = λ w h. let (r, w') = m w in after r w' (km.at w h) }
    where
      after : (r : Result A) (w' : World) → P w'.db → P (continue r f w').1.db
      after (ok a) w' h = (kf a).at w' h
      after (err p) w' h = h

pub ruleset keeps_rules = (
  Keeps-pure, Keeps-raise, Keeps-lift, Keeps-query, Keeps-or_raise, Keeps-if, Keeps-seq, Keeps-bind,
  Keeps-seq, Keeps-guard, Keeps-now, Keeps-new_id, Keeps-each,
)

pub ruleset stays_rules = (
  Stays-pure, Stays-raise, Stays-lift, Stays-guard, Stays-if, Stays-new_id, Stays-bind,
  Stays-transaction,
)
