-- ===== src/Storage/Actions.antt =====
-- The transactions of control_plane/storage.py: what a handler reads, writes and raises, and what
-- it asks of its environment. A transaction that raises restores the tables; the readings of the
-- clock, the identities drawn and the stored objects stay.
pub mod Keeps
pub mod Ensures
pub mod Committed
pub mod Runs
use Prim.Native.String.{◌++◌ as concat}
use pepeuchiacluster.Prelude.{ℕ, ◌+◌, Bool, true, false, String, List, [], ◌∷◌, Option, none, some}
use pepeuchiacluster.Contracts.{Problem, Result, ok, err, problem}
use pepeuchiacluster.Contracts.Values.{Value}
use pepeuchiacluster.Storage.Database.{Db, Statement, apply}

-- `Settings` of control_plane/storage.py
pub record Settings : Type 0 where
  pub max_file_bytes : ℕ
  pub quota_bytes : ℕ
  pub attempt_seconds : ℕ

-- What the program takes from outside: the n-th reading of the clock, the n-th identity of
-- `uuid4().hex`, the digest of `hashlib`, the canonical bytes of `json.dumps`, the test
-- `str(UUID(s)) == s`, and the strict decoding of base64.
pub record Env : Type 0 where
  pub clock : ℕ → ℕ
  pub uuid : ℕ → String
  pub sha256 : List ℕ → String
  pub canonical : Value → List ℕ
  pub is_uuid : String → Bool
  pub decode_base64 : String → Option (List ℕ)
  pub settings : Settings

pub record World : Type 0 where
  pub db : Db
  pub readings : ℕ
  pub draws : ℕ
  pub objects : List (String × List ℕ)

abbrev pub Action {ℓ} : Type ℓ → Type ℓ
Action A = World → Result A × World

abbrev pub continue {ℓ κ} :
    {A : Type ℓ} {B : Type κ} → Result A → (A → Action B) → World → Result B × World
continue (ok a) f w = f a w
continue (err p) f w = (err p, w)

infixl 5 ◌>>=◌ ◌>>◌
unfoldable pub ◌>>=◌ {ℓ κ} : {A : Type ℓ} {B : Type κ} → Action A → (A → Action B) → Action B
◌>>=◌ m f w = let (r, w') = m w in continue r f w'

abbrev pub ◌>>◌ {ℓ κ} : {A : Type ℓ} {B : Type κ} → Action A → Action B → Action B
m >> k = m >>= λ _. k

module _ {ℓ} {A : Type ℓ} where
  unfoldable pub pure : A → Action A
  pure a w = (ok a, w)

  unfoldable pub raise : String → ℕ → Action A
  raise c s w = (err (problem c s), w)

  unfoldable pub lift : Result A → Action A
  lift r w = (r, w)

  -- a `SELECT`
  unfoldable pub query : (Db → A) → Action A
  query f w = (ok (f w.db), w)

  -- `if row is None: raise Problem(code, status)`
  unfoldable pub or_raise : Option A → String → ℕ → Action A
  or_raise none c s w = (err (problem c s), w)
  or_raise (some a) c s w = (ok a, w)

  abbrev pub committed : Result A → World → World → World
  committed (ok a) w w' = w'
  committed (err p) w w' = record w' { db = w.db }

  -- `with store.transaction()`: commit, or roll back and raise again
  unfoldable pub transaction : Action A → Action A
  transaction m w = let (r, w') = m w in (r, committed r w w')

-- `if not test: raise Problem(code, status)`
unfoldable pub guard : Bool → String → ℕ → Action (Unit {0})
guard true c s w = (ok tt, w)
guard false c s w = (err (problem c s), w)

abbrev pub written : Option Db → World → Result (Unit {0}) × World
written none w = (err (problem "operation_failed" 500), w)
written (some db) w = (ok tt, record w { db = db })

-- A statement; a broken constraint is no `Problem`, and is answered as `operation_failed`.
unfoldable pub exec : Statement → Action (Unit {0})
exec s w = written (apply s w.db) w

-- a `for` loop
unfoldable pub each {ℓ} : {A : Type ℓ} → List A → (A → Action (Unit {0})) → Action (Unit {0})
unfolding pure
each [] f = pure tt
each (x ∷ xs) f = f x >> each xs f

module _ (env : Env) where
  unfoldable pub now : Action ℕ
  now w = (ok (env.clock w.readings), record w { readings = w.readings + 1 })

  unfoldable pub new_id : String → Action String
  new_id prefix w =
      (ok (concat prefix (concat "_" (env.uuid w.draws))), record w { draws = w.draws + 1 })
