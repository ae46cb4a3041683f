-- ===== src/Reconciler/Monad.antt =====
-- A pass of the reconciler of control-plane/rlservice/reconciler.go: the run that it holds a pointer
-- to, the database, and the world outside, which is the Kubernetes API and the weight service. What
-- was changed stays changed when an error is returned, the run in memory included.
use skyscale.Prelude.{String, Bool, true, false, List, [], ◌∷◌, Result, ok, err}
use skyscale.Reconciler.Types.{RlRun, Gvr, Object, ApiError, ReconcileError, store_failed}
use skyscale.Reconciler.Store.{Database, save_rl_run}

-- The calls of the world outside, the answer with those that read an object.
pub data Call : Type 0 where
  saw : Gvr → String → String → Result ApiError Object → Call
  applies : Gvr → Object → Call
  deletes : Gvr → String → String → Call
  marks_good : String → String → Call
  rolls_back : String → String → Call

-- `faults` says of each call of the database in turn whether it fails; after its end none does.
-- `trace` is a record of the calls made, the last one first, which no code reads.
pub record Pass (K : Type 0) : Type 0 where
  pub run : RlRun
  pub db : Database
  pub faults : List Bool
  pub world : K
  pub trace : List Call

abbrev pub Action : Type 0 → Type 0 → Type 0
Action K A = Pass K → Pass K × Result ReconcileError A

module _ {K : Type 0} where
  module _ {A : Type 0} where
    unfoldable pub pure : A → Action K A
    pure a s = (s, ok a)

    unfoldable pub fail : ReconcileError → Action K A
    fail e s = (s, err e)

    unfoldable pub of_result : Result ReconcileError A → Action K A
    of_result r s = (s, r)

    abbrev pub resume :
        {B : Type 0}
        → Pass K × Result ReconcileError A
        → (A → Action K B)
        → Pass K × Result ReconcileError B
    resume (s, ok a) f = f a s
    resume (s, err e) f = (s, err e)

  infixl 5 ◌>>=◌ ◌>>◌
  unfoldable pub ◌>>=◌ : {A B : Type 0} → Action K A → (A → Action K B) → Action K B
  ◌>>=◌ m f s = resume (m s) f

  unfoldable pub ◌>>◌ : {A B : Type 0} → Action K A → Action K B → Action K B
  ◌>>◌ m k s = resume (m s) (λ _. k)

  unfoldable pub the_run : Action K RlRun
  the_run s = (s, ok s.run)

  -- An assignment to fields of `*run`.
  unfoldable pub set_run : (RlRun → RlRun) → Action K (Unit {0})
  set_run f s = (record s { run = f s.run }, ok tt)

  -- Whether the next call of the database goes through.
  unfoldable pub connected : List Bool → Action K (Unit {0})
  connected [] s = (s, ok tt)
  connected (true ∷ rest) s = (record s { faults = rest }, err store_failed)
  connected (false ∷ rest) s = (record s { faults = rest }, ok tt)

  unfoldable pub connect : Action K (Unit {0})
  connect s = connected s.faults s

  unfoldable pub reads : {A : Type 0} → (Database → Result ReconcileError A) → Action K A
  reads query = do connect; (λ s. (s, query s.db))

  unfoldable pub writes : (Database → Database) → Action K (Unit {0})
  writes change = do connect; (λ s. (record s { db = change s.db }, ok tt))

  -- fmt.Errorf around the error of a call.
  unfoldable pub reworded :
      {A : Type 0}
      → (ReconcileError → ReconcileError)
      → Pass K × Result ReconcileError A
      → Pass K × Result ReconcileError A
  reworded wrap (s, ok a) = (s, ok a)
  reworded wrap (s, err e) = (s, err (wrap e))

  unfoldable pub wrapped :
      {A : Type 0} → (ReconcileError → ReconcileError) → Action K A → Action K A
  wrapped wrap m s = reworded wrap (m s)

  -- r.state.SaveRLRun(run)
  unfoldable pub save_run : Action K (Unit {0})
  save_run = do connect; (λ s. (record s { db = save_rl_run s.run s.db }, ok tt))

  -- for _, x := range xs, where an error ends the loop.
  unfoldable pub for_each : {A : Type 0} → (A → Action K (Unit {0})) → List A → Action K (Unit {0})
  for_each body [] = pure tt
  for_each body (x ∷ xs) = do body x; for_each body xs
