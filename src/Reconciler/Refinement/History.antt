-- ===== src/Reconciler/Refinement/History.antt =====
-- Any number of calls of `ReconcileAll` of control-plane/rlservice/reconciler.go, one after the
-- other, with requests of `setSlimeDesiredState` of control-plane/api/rl_slime.go in between.
use skyscale.Prelude.{
  ℕ, ◌≢◌, Bool, Option-cases, ◌||◌, ◌==◌, ◌≡◌, ◌⊎◌, refl, sym, subst, ◌∙◌, inl, inr, String, true,
  false, Option, some, lookup, Result, ok, arith, Bool-cases, List, [], ◌∷◌, Dict, insert,
  lookup-insert, eq_iff, Text-cases,
}
use skyscale.Reconciler.Types.{RlRun, ReconcileError}
use skyscale.Reconciler.Store.{Database, list_rl_runs, save_rl_run}
use skyscale.Reconciler.Monad.{Pass, pure, ◌>>=◌, ◌>>◌, reads}
use skyscale.Reconciler.Environment.{Environment}
use skyscale.Reconciler.Passes.{terminal, skips, reconcile_run, reconcile_runs, reconcile_all}
use skyscale.Reconciler.Machine.{
  Moves, stays, cancels, ends, suspends, judges, trains, MovesRun, RowSteps, untouched, moved,
}
use skyscale.Reconciler.Logic.{Same, resume_into, reads-After}
use skyscale.Reconciler.Requests.{desired_run, set_desired_of, set_slime_desired_state}
use skyscale.Reconciler.Refinement.{IsKeyed, IsTable, insert-IsTable}
use skyscale.Reconciler.Refinement.Rounds.{reconcile_run-J}
use skyscale.Reconciler.Refinement.Rows.{resume_either, reconcile_all-RowSteps}

module _ {K : Type 0} (env : Environment K) where
  reconcile_runs-IsTable :
      (rs : List RlRun) (s : Pass K)
      → IsTable s.db.runs
      → IsTable (reconcile_runs env rs s).0.db.runs
  unfolding reconcile_runs pure ◌>>◌
  reconcile_runs-IsTable [] s table = table
  reconcile_runs-IsTable (r ∷ rs) s table = elim (Bool-cases (skips r)) [
    | inl skip ↦ rw skip (reconcile_runs-IsTable rs s table)
    | inr go ↦
        let j = reconcile_run-J env s.db.runs r table s refl in
        rw go (
          resume_either env (λ u. IsTable u.db.runs) (reconcile_run env r s)
            (λ _. reconcile_runs env rs) j.table
            (reconcile_runs-IsTable rs (reconcile_run env r s).0 j.table))
  ]

  reconcile_all-IsTable : (s : Pass K) → IsTable s.db.runs → IsTable (reconcile_all env s).0.db.runs
  unfolding reconcile_all ◌>>=◌
  reconcile_all-IsTable s table =
      resume_into
        (λ rs t.
          Same s t × ◌≡◌ {A = Result ReconcileError (List RlRun)} (ok (list_rl_runs s.db)) (ok rs))
        (Same s) (λ t. IsTable t.db.runs) (reads (λ db. ok (list_rl_runs db)) s)
        (reconcile_runs env) (reads-After (λ db. ok (list_rl_runs db)) s)
        (λ t same. subst (λ db. IsTable db.runs) (sym same.db) table)
        (λ rs t h. reconcile_runs-IsTable rs t (subst (λ db. IsTable db.runs) (sym h.0.db) table))

-- The databases that follow one another: a call of ReconcileAll in any pass over the database, with
-- any environment, faults and answers, or a request for a desired state that `Allowed` allows, which
-- is granted. One that is refused changes nothing.
pub data Follows (Allowed : String → Type 0) (db : Database) : Database → Type 1 where
  here : Follows Allowed db db
  round :
      {K : Type 0} (env : Environment K) (s : Pass K)
      → Follows Allowed db s.db
      → Follows Allowed db (reconcile_all env s).0.db
  asks :
      {d : Database} (id desired : String) (now : ℕ) (fails : Bool) (d' : Database)
      → Allowed desired
      → Follows Allowed db d
      → set_slime_desired_state id desired now fails d ≡ ok d'
      → Follows Allowed db d'

-- What a request that is granted has found and saved.
record Granted (id desired : String) (now : ℕ) (d d' : Database) : Type 0 where
  run : RlRun
  found : lookup id d.runs ≡ some run
  open_run : skips run ≡ false
  saved : save_rl_run (desired_run desired now run) d ≡ d'

set_desired_of-Granted :
    (id desired : String) (now : ℕ) (fails : Bool) (d d' : Database) (r : RlRun)
    → lookup id d.runs ≡ some r
    → set_desired_of desired now fails d (some r) ≡ ok d'
    → Granted id desired now d d'
unfolding set_desired_of skips terminal
set_desired_of-Granted id desired now fails d d' r e h = elim (Bool-cases (r.backend == "slime")) [
  | inr other ↦ absurd (let bad = rw (set_desired_of, other) at h in cc)
  | inl slime ↦
      elim (Bool-cases
        (r.status == "completed" || r.status == "cancelled" || r.status == "failed")) [
          | inl ended ↦ absurd (let bad = rw (set_desired_of, slime, ended) at h in cc)
          | inr going ↦ elim (Bool-cases fails) [
            | inl f ↦ absurd (let bad = rw (set_desired_of, slime, going, f) at h in cc)
            | inr f ↦
                let done = rw (set_desired_of, slime, going, f) at h in
                record {
                  run = r;
                  found = e;
                  open_run = rw (skips, terminal, slime, going) refl;
                  saved = cc (done);
                }
          ]
        ]
]

set_slime_desired_state-Granted :
    (id desired : String) (now : ℕ) (fails : Bool) (d d' : Database)
    → set_slime_desired_state id desired now fails d ≡ ok d'
    → Granted id desired now d d'
unfolding set_slime_desired_state set_desired_of
set_slime_desired_state-Granted id desired now fails d d' h =
    elim (Option-cases (lookup id d.runs)) [
      | inl e ↦ absurd (let bad = rw (e, set_slime_desired_state, set_desired_of) at h in cc)
      | inr (r, e) ↦
          set_desired_of-Granted id desired now fails d d' r e
            (rw (e, set_slime_desired_state) at h)
    ]

pub Follows-IsTable :
    {Allowed : String → Type 0} {db d : Database}
    → Follows Allowed db d
    → IsTable db.runs
    → IsTable d.runs
unfolding save_rl_run
Follows-IsTable here table = table
Follows-IsTable (round env s f) table = reconcile_all-IsTable env s (Follows-IsTable f table)
Follows-IsTable (asks id desired now fails d' a f h) table =
    let g = set_slime_desired_state-Granted id desired now fails _ d' h in
    subst (λ x. IsTable x.runs) g.saved
      (insert-IsTable (desired_run desired now g.run) _ (Follows-IsTable f table))

keyed_as : (id : String) (r : RlRun) (m : Dict RlRun) → IsKeyed m → lookup id m ≡ some r → r.id ≡ id
unfolding lookup
keyed_as id r [] y e = absurd (cc)
keyed_as id r ((k, q) ∷ m) (own, y) e = elim (Bool-cases (k == id)) [
  | inl same ↦
      let here : some q ≡ some r = rw (lookup, same) at e in
      let one : q ≡ r = cc in subst (λ x. x.id ≡ id) one (own ∙ (eq_iff k id).0 same)
  | inr other ↦ keyed_as id r m y (rw (lookup, other) at e)
]

-- What the rows keep: `P` of the run, where a move keeps it, and a request that is granted.
module _ (Allowed : String → Type 0) (P : RlRun → Type 0)
    (step : (was now : RlRun) → skips was ≡ false → MovesRun was now → P was → P now)
    (asked : (r : RlRun) (desired : String) (now : ℕ)
      → Allowed desired
      → skips r ≡ false
      → P r
      → P (desired_run desired now r)) where
  row_keeps :
      (o o' : Option RlRun) (r : RlRun)
      → RowSteps o o'
      → o ≡ some r
      → P r
      → (q : RlRun) × (o' ≡ some q) × P q
  row_keeps o o' r (untouched same) e p = (r, same ∙ e, p)
  row_keeps o o' r (moved was now b a go m) e p =
      let one : some was ≡ some r = sym b ∙ e in
      let own : r ≡ was = cc in (now, a, step was now go m (subst P own p))

  asked_keeps :
      (k id desired : String) (now : ℕ) (m : Dict RlRun) (r : RlRun)
      → Allowed desired
      → r.id ≡ id
      → lookup id m ≡ some r
      → skips r ≡ false
      → ((q : RlRun) × (lookup k m ≡ some q) × P q)
      → (q : RlRun) × (lookup k (insert r.id (desired_run desired now r) m) ≡ some q) × P q
  asked_keeps k id desired now m r a own e going (q, found, p) = elim (Text-cases r.id k) [
    | inl same_key ↦
        let there : lookup k m ≡ some r = subst (λ i. lookup i m ≡ some r) (sym own ∙ same_key) e in
        let one : some q ≡ some r = sym found ∙ there in
        let same : q ≡ r = cc in
        (
          desired_run desired now r,
          ground (arith, lookup-insert r.id k (desired_run desired now r) m, eq_iff r.id k),
          asked r desired now a going (subst P same p),
        )
    | inr other ↦
        (q, ground (arith, lookup-insert r.id k (desired_run desired now r) m, eq_iff r.id k), p)
  ]

  pub Follows-keeps :
      {db d : Database}
      → Follows Allowed db d
      → (k : String) (r : RlRun) → IsTable db.runs
      → lookup k db.runs ≡ some r
      → P r
      → (q : RlRun) × (lookup k d.runs ≡ some q) × P q
  unfolding save_rl_run desired_run
  Follows-keeps here k r table e p = (r, e, p)
  Follows-keeps (round env s f) k r table e p =
      let (q, found, kept) = Follows-keeps f k r table e p in
      row_keeps (lookup k s.db.runs) (lookup k (reconcile_all env s).0.db.runs) q
        (reconcile_all-RowSteps env s k (Follows-IsTable f table)) found kept
  Follows-keeps (asks {d = d} id desired now fails d' a f h) k r table e p =
      let g = set_slime_desired_state-Granted id desired now fails d d' h in
      subst (λ x. (q : RlRun) × (lookup k x.runs ≡ some q) × P q) g.saved
        (asked_keeps k id desired now d.runs g.run a
          (keyed_as id g.run d.runs (Follows-IsTable f table).1 g.found) g.found g.open_run
          (Follows-keeps f k r table e p))

abbrev pub IsEnding : RlRun → Type 0
IsEnding r = (r.status ≡ "cancelling") ⊎ (r.status ≡ "cancelled")

-- A cancelled run is skipped.
skips_cancelled : (r : RlRun) → r.status ≡ "cancelled" → skips r ≡ true
unfolding skips terminal
skips_cancelled r e = rw (skips, terminal, e) (ground arith)

from_cancelling :
    (d s t : String) → Moves d s t → s ≡ "cancelling" → (t ≡ "cancelling") ⊎ (t ≡ "cancelled")
from_cancelling d s t (stays e) c = inl (e ∙ c)
from_cancelling d s t (cancels _ e) c = inl e
from_cancelling d s t (ends _ e) c = inr e
from_cancelling d s t (suspends _ kept _) c = absurd (kept c)
from_cancelling d s t (judges kept _ _) c = absurd (kept c)
from_cancelling d s t (trains may _) c = absurd (may.kept c)

IsEnding-step :
    (was now : RlRun) → skips was ≡ false → MovesRun was now → IsEnding was → IsEnding now
IsEnding-step was now go m (inl c) = from_cancelling _ _ _ m.status c
IsEnding-step was now go m (inr c) =
    absurd (let no : true ≡ false = sym (skips_cancelled was c) ∙ go in cc)

-- A suspension leaves the status alone.
desired_run-status :
    (r : RlRun) (desired : String) (now : ℕ)
    → desired ≢ "running"
    → (desired_run desired now r).status ≡ r.status
unfolding desired_run
desired_run-status r desired now other =
    let no : (desired == "running") ≡ false = ground (arith, eq_iff desired "running") in
    rw (desired_run, no) refl

-- A run that is being cancelled goes on to be: after any calls of `ReconcileAll`, with any
-- environments, faults and answers, and any requests of its owner or others for a desired state
-- that is not running (a suspension, say), its row is there, and its status is still cancelling, or
-- cancelled. Nothing is said where a request to resume is granted, which does revive the run, or
-- where other handlers write the row.
pub cancelling_is_final :
    {db d : Database}
    → Follows (λ desired. desired ≢ "running") db d
    → (id : String) (r : RlRun) → IsTable db.runs
    → lookup id db.runs ≡ some r
    → r.status ≡ "cancelling"
    → (q : RlRun) × (lookup id d.runs ≡ some q)
      × ((q.status ≡ "cancelling") ⊎ (q.status ≡ "cancelled"))
cancelling_is_final f id r table e c =
    Follows-keeps (λ desired. desired ≢ "running") IsEnding IsEnding-step
      (λ q desired now a going p.
        subst (λ s. (s ≡ "cancelling") ⊎ (s ≡ "cancelled"))
          (sym (desired_run-status q desired now a)) p)
      f id r table e (inl c)

-- A run that has ended, or that another backend runs, keeps its status: after any calls of
-- `ReconcileAll`, with any environments, faults and answers, and any requests to suspend or to resume
-- a run, its row has the status that it had, and is skipped as before. Nothing is said where other
-- handlers write the row, as that of a stop.
pub ended_run_rests :
    {db d : Database}
    → Follows (λ desired. Unit {0}) db d
    → (id : String) (r : RlRun) → IsTable db.runs
    → lookup id db.runs ≡ some r
    → skips r ≡ true
    → (q : RlRun) × (lookup id d.runs ≡ some q) × (q.status ≡ r.status) × (skips q ≡ true)
ended_run_rests f id r table e skip =
    let (q, found, p) =
      Follows-keeps (λ desired. Unit {0}) (λ q. (q.status ≡ r.status) × (skips q ≡ true))
        (λ was now go m p. absurd (let no : true ≡ false = sym p.1 ∙ go in cc))
        (λ q desired now a going p. absurd (let no : true ≡ false = sym p.1 ∙ going in cc)) f id r
        table e (refl, skip) in
    (q, found, p.0, p.1)
