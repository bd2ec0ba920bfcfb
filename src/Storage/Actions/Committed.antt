-- ===== src/Storage/Actions/Committed.antt =====
-- The transactions of control_plane/storage.py that succeed, and those that change nothing.
use pepeuchiacluster.Prelude.{◌≡◌, refl, arith}
use pepeuchiacluster.Contracts.{Result, ok, err}
use pepeuchiacluster.Storage.Actions.{World, Action, transaction, committed}

module _ {A : Type 0} where
  committed_ok :
      (x : Result A) (w w0 : World) (r : A) (w' : World)
      → ◌≡◌ {A = Result A × World} (x, committed x w w0) (ok r, w')
      → ◌≡◌ {A = Result A × World} (x, w0) (ok r, w')
  committed_ok (ok a) w w0 r w' e = e
  committed_ok (err p) w w0 r w' e = ground arith

  committed_same :
      (x : Result A) (w : World) → ◌≡◌ {A = Result A × World} (x, committed x w w) (x, w)
  committed_same (ok a) w = refl
  committed_same (err p) w = refl

  pub committed_run :
      (m : Action A) (w : World) (r : A) (w' : World)
      → transaction m w ≡ (ok r, w')
      → m w ≡ (ok r, w')
  unfolding transaction
  committed_run m w r w' e = committed_ok (m w).0 w (m w).1 r w' e

  pub committed_back :
      (m : Action A) (w : World) (x : Result A) → m w ≡ (x, w) → transaction m w ≡ (x, w)
  unfolding transaction
  committed_back m w x e = rw e (committed_same x w)
