-- ===== src/Storage/Actions/Runs.antt =====
-- The runs of the actions of control_plane/storage.py that succeed, step by step.
use pepeuchiacluster.Prelude.{
  ℕ, ◌≡◌, refl, sym, ap, Bool, true, false, String, Option, none, some, arith,
}
use pepeuchiacluster.Contracts.{Result, ok, err}
use pepeuchiacluster.Storage.Database.{Statement, apply, Db}
use pepeuchiacluster.Storage.Actions.{
  World, Action, ◌>>=◌, guard, or_raise, exec, written, continue,
}

module _ {A B : Type 0} where
  pub run-bind :
      (m : Action A) (f : A → Action B) (w : World) (b : B) (w' : World)
      → (m >>= f) w ≡ (ok b, w')
      → (a : A) × (w1 : World) × (m w ≡ (ok a, w1)) × (f a w1 ≡ (ok b, w'))
  unfolding ◌>>=◌
  run-bind m f w b w' e = continued (m w) refl e
    where
      continued :
          (x : Result A × World)
          → m w ≡ x
          → (let (r, w1) = x in continue r f w1) ≡ (ok b, w')
          → (a : A) × (w1 : World) × (m w ≡ (ok a, w1)) × (f a w1 ≡ (ok b, w'))
      continued (ok a, w1) same run = (a, w1, same, run)
      continued (err p, w1) same run = ground arith

  pub run-or_raise :
      (o : Option A) (c : String) (s : ℕ) (f : A → Action B) (w : World) (b : B) (w' : World)
      → (or_raise o c s >>= f) w ≡ (ok b, w')
      → (a : A) × (o ≡ some a) × (f a w ≡ (ok b, w'))
  unfolding ◌>>=◌ or_raise
  run-or_raise none c s f w b w' e = ground arith
  run-or_raise (some a) c s f w b w' e = (a, refl, e)

module _ {B : Type 0} where
  pub run-guard :
      (t : Bool) (c : String) (s : ℕ) (f : Unit {0} → Action B) (w : World) (b : B) (w' : World)
      → (guard t c s >>= f) w ≡ (ok b, w')
      → (t ≡ true) × (f tt w ≡ (ok b, w'))
  unfolding ◌>>=◌ guard
  run-guard true c s f w b w' e = (refl, e)
  run-guard false c s f w b w' e = ground arith

  -- a statement reads no clock
  pub run-exec :
      (q : Statement) (f : Unit {0} → Action B) (w : World) (b : B) (w' : World)
      → (exec q >>= f) w ≡ (ok b, w')
      → (w1 : World) × (w1.readings ≡ w.readings) × (f tt w1 ≡ (ok b, w'))
  unfolding ◌>>=◌ exec
  run-exec q f w b w' e = after (apply q w.db) e
    where
      after :
          (o : Option Db)
          → (let (r, w1) = written o w in continue r f w1) ≡ (ok b, w')
          → (w1 : World) × (w1.readings ≡ w.readings) × (f tt w1 ≡ (ok b, w'))
      after none run = ground arith
      after (some db) run = (record w { db = db }, refl, run)

pub run-or_raise_last :
    {A : Type 0} (o : Option A) (c : String) (s : ℕ) (w : World) (a : A) (w' : World)
    → or_raise o c s w ≡ (ok a, w')
    → w ≡ w'
unfolding or_raise
run-or_raise_last none c s w a w' e = ground arith
run-or_raise_last (some b) c s w a w' e = ap (λ x. x.1) e

pub run-exec_last :
    (q : Statement) (w : World) (u : Unit {0}) (w' : World)
    → exec q w ≡ (ok u, w')
    → w'.readings ≡ w.readings
unfolding exec
run-exec_last q w u w' e = ended (apply q w.db) e
  where
    ended : (o : Option Db) → written o w ≡ (ok u, w') → w'.readings ≡ w.readings
    ended none run = ground arith
    ended (some db) run = sym (ap (λ x. x.1.readings) run)
