-- ===== src/Reconciler/Refinement/Rows.antt =====
-- `ReconcileAll` over the runs of the database, of control-plane/rlservice/reconciler.go, as steps
-- of the abstract machine.
use skyscale.Prelude.{
  ◌≡◌, ◌≢◌, refl, sym, subst, ap, ◌∙◌, inl, inr, String, Bool, false, List, [], ◌∷◌, Option, none,
  some, Dict, lookup, Result, ok, err, arith, Bool-cases, Text-cases, eq_iff, Distinct, All,
}
use skyscale.Reconciler.Types.{RlRun, ReconcileError}
use skyscale.Reconciler.Store.{Database, values_of, order_by, insert_by, list_rl_runs, newer}
use skyscale.Reconciler.Monad.{Pass, Action, pure, ◌>>=◌, ◌>>◌, resume, reads}
use skyscale.Reconciler.Environment.{Environment}
use skyscale.Reconciler.Passes.{skips, reconcile_run, reconcile_runs, reconcile_all}
use skyscale.Reconciler.Machine.{RowSteps, untouched, moved}
use skyscale.Reconciler.Logic.{Same, resume_into, reads-After}
use skyscale.Reconciler.Refinement.{IsKeyed, IsTable}
use skyscale.Reconciler.Refinement.Rounds.{reconcile_run-J}

-- The runs of a list have different ids.
abbrev pub DistinctIds : List RlRun → Type 0
DistinctIds [] = Unit
DistinctIds (r ∷ rs) = All (λ q. q.id ≢ r.id) rs × DistinctIds rs

module _ {K : Type 0} (env : Environment K) where
  -- What a loop body leads to, whether it goes on or not.
  pub resume_either :
      (P : Pass K → Type 0) (r : Pass K × Result ReconcileError (Unit {0}))
      (f : Unit {0} → Action K (Unit {0}))
      → P r.0
      → P (f tt r.0).0
      → P (resume r f).0
  resume_either P (s, ok tt) f h k = k
  resume_either P (s, err e) f h k = h

  pub unlisted_row :
      (rs : List RlRun) (s : Pass K) (k : String)
      → IsTable s.db.runs
      → All (λ r. r.id ≢ k) rs
      → lookup k (reconcile_runs env rs s).0.db.runs ≡ lookup k s.db.runs
  unfolding reconcile_runs pure ◌>>◌
  unlisted_row [] s k table h = refl
  unlisted_row (r ∷ rs) s k table (ne, h) = elim (Bool-cases (skips r)) [
    | inl skip ↦ rw skip (unlisted_row rs s k table h)
    | inr go ↦
        let j = reconcile_run-J env s.db.runs r table s refl in
        let t : Pass K = (reconcile_run env r s).0 in
        rw go (
          resume_either (λ u. lookup k u.db.runs ≡ lookup k s.db.runs) (reconcile_run env r s)
            (λ _. reconcile_runs env rs) (j.others k ne)
            (unlisted_row rs t k j.table h ∙ j.others k ne))
  ]

  Stored : Database → RlRun → Type 0
  Stored db r = lookup r.id db.runs ≡ some r

  -- A pass over a run leaves the rows of the others as they are.
  Stored-after :
      (r : RlRun) (s : Pass K) (rs : List RlRun)
      → IsTable s.db.runs
      → All (λ q. q.id ≢ r.id) rs
      → All (Stored s.db) rs
      → All (Stored (reconcile_run env r s).0.db) rs
  unfolding Stored
  Stored-after r s [] table ne h = tt
  Stored-after r s (q ∷ qs) table (n, ne) (e, h) = (
    (reconcile_run-J env s.db.runs r table s refl).others q.id (λ i. n (sym i)) ∙ e,
    Stored-after r s qs table ne h,
  )

  row_of_pass :
      (r : RlRun) (s : Pass K) (o : Option RlRun)
      → IsTable s.db.runs
      → skips r ≡ false
      → lookup r.id s.db.runs ≡ some r
      → o ≡ lookup r.id (reconcile_run env r s).0.db.runs
      → RowSteps (lookup r.id s.db.runs) o
  row_of_pass r s o table go e same = elim (reconcile_run-J env s.db.runs r table s refl).stored [
    | inl kept ↦ untouched (same ∙ kept)
    | inr (now, found, _, m) ↦ moved r now e (same ∙ found) go m
  ]

  listed_rows :
      (rs : List RlRun) (s : Pass K) (k : String)
      → IsTable s.db.runs
      → DistinctIds rs
      → All (Stored s.db) rs
      → RowSteps (lookup k s.db.runs) (lookup k (reconcile_runs env rs s).0.db.runs)
  unfolding reconcile_runs pure ◌>>◌ Stored
  listed_rows [] s k table d h = untouched refl
  listed_rows (r ∷ rs) s k table (ne, d) (e, h) = elim (Bool-cases (skips r)) [
    | inl skip ↦ rw skip (listed_rows rs s k table d h)
    | inr go ↦
        let j = reconcile_run-J env s.db.runs r table s refl in
        let t : Pass K = (reconcile_run env r s).0 in
        rw go (elim (Text-cases r.id k) [
          | inl own ↦
              subst
                (λ i. RowSteps (lookup i s.db.runs) (
                  lookup i (resume (reconcile_run env r s) (λ _. reconcile_runs env rs)).0.db.runs))
                own
                (row_of_pass r s _ table go e (
                  resume_either (λ u. lookup r.id u.db.runs ≡ lookup r.id t.db.runs)
                    (reconcile_run env r s) (λ _. reconcile_runs env rs) refl
                    (unlisted_row rs t r.id j.table ne)))
          | inr other ↦
              resume_either (λ u. RowSteps (lookup k s.db.runs) (lookup k u.db.runs))
                (reconcile_run env r s) (λ _. reconcile_runs env rs) (untouched (j.others k other))
                (subst (λ o. RowSteps o (lookup k (reconcile_runs env rs t).0.db.runs))
                  (j.others k other)
                  (listed_rows rs t k j.table d (Stored-after r s rs table ne h)))
        ])
  ]

module _ {A : Type 0} (P : A → Type 0) (before : A → A → Bool) where
  All-insert_by : (x : A) (ys : List A) → P x → All P ys → All P (insert_by before x ys)
  unfolding insert_by
  All-insert_by x [] p h = (p, tt)
  All-insert_by x (y ∷ ys) p (q, h) = elim (Bool-cases (before x y)) [
    | inl e ↦ rw e (p, (q, h))
    | inr e ↦ rw e (q, All-insert_by x ys p h)
  ]

  pub All-order_by : (xs : List A) → All P xs → All P (order_by before xs)
  unfolding order_by
  All-order_by [] h = tt
  All-order_by (x ∷ xs) (p, h) = All-insert_by x (order_by before xs) p (All-order_by xs h)

insert_by-DistinctIds :
    (x : RlRun) (ys : List RlRun)
    → All (λ q. q.id ≢ x.id) ys
    → DistinctIds ys
    → DistinctIds (insert_by newer x ys)
unfolding insert_by
insert_by-DistinctIds x [] n d = (tt, tt)
insert_by-DistinctIds x (y ∷ ys) (n, ne) (m, d) = elim (Bool-cases (newer x y)) [
  | inl e ↦ rw e ((n, ne), (m, d))
  | inr e ↦ rw e (
    All-insert_by (λ q. q.id ≢ y.id) newer x ys (λ i. n (sym i)) m,
    insert_by-DistinctIds x ys ne d,
  )
]

order_by-DistinctIds : (rs : List RlRun) → DistinctIds rs → DistinctIds (order_by newer rs)
unfolding order_by
order_by-DistinctIds [] d = tt
order_by-DistinctIds (r ∷ rs) (n, d) =
    insert_by-DistinctIds r (order_by newer rs) (All-order_by (λ q. q.id ≢ r.id) newer rs n)
      (order_by-DistinctIds rs d)

absent_id :
    (k : String) (m : Dict RlRun)
    → lookup k m ≡ none
    → IsKeyed m
    → All (λ q. q.id ≢ k) (values_of m)
unfolding lookup values_of
absent_id k [] n y = tt
absent_id k ((i, r) ∷ m) n (e, y) =
    (ground (arith, eq_iff i k), absent_id k m (ground (arith, eq_iff i k)) y)

values-DistinctIds : (m : Dict RlRun) → Distinct m → IsKeyed m → DistinctIds (values_of m)
unfolding values_of
values-DistinctIds [] d y = tt
values-DistinctIds ((k, r) ∷ m) (n, d) (e, y) = (
  subst (λ i. All (λ q. q.id ≢ i) (values_of m)) (sym e) (absent_id k m n y),
  values-DistinctIds m d y,
)

-- In a larger table the rows under other keys are found as before.
found_below :
    (k : String) (r : RlRun) (m : Dict RlRun) (rs : List RlRun)
    → All (λ q. q.id ≢ k) rs
    → All (λ q. lookup q.id m ≡ some q) rs
    → All (λ q. lookup q.id ((k, r) ∷ m) ≡ some q) rs
unfolding lookup
found_below k r m [] n h = tt
found_below k r m (q ∷ qs) (n, ne) (e, h) =
    (ground (arith, eq_iff k q.id), found_below k r m qs ne h)

values-found :
    (m : Dict RlRun) → Distinct m → IsKeyed m → All (λ q. lookup q.id m ≡ some q) (values_of m)
unfolding values_of lookup
values-found [] d y = tt
values-found ((k, r) ∷ m) (n, d) (e, y) = (
  ground (arith, eq_iff k r.id),
  found_below k r m (values_of m) (absent_id k m n y) (values-found m d y),
)

ok_injective :
    (rs qs : List RlRun) → ◌≡◌ {A = Result ReconcileError (List RlRun)} (ok rs) (ok qs) → rs ≡ qs
ok_injective rs qs h = cc

module _ {K : Type 0} (env : Environment K) (s : Pass K) where
  listed_table :
      (k : String) (rs : List RlRun) (t : Pass K)
      → IsTable s.db.runs
      → t.db ≡ s.db
      → list_rl_runs s.db ≡ rs
      → RowSteps (lookup k s.db.runs) (lookup k (reconcile_runs env rs t).0.db.runs)
  unfolding list_rl_runs Stored
  listed_table k rs t (d, y) same listed =
      let m = s.db.runs in
      let all : All (Stored env s.db) (order_by newer (values_of m)) =
        All-order_by (Stored env s.db) newer (values_of m) (values-found m d y) in
      subst (λ db. RowSteps (lookup k db.runs) (lookup k (reconcile_runs env rs t).0.db.runs)) same
        (listed_rows env rs t k (subst (λ db. IsTable db.runs) (sym same) (d, y))
          (subst DistinctIds listed (order_by-DistinctIds (values_of m) (values-DistinctIds m d y)))
          (subst (λ db. All (Stored env db) rs) (sym same)
            (subst (All (Stored env s.db)) listed all)))

  -- In a table with each run once, under its own id, ReconcileAll leaves the row of a run as it is
  -- or makes one move of the abstract machine with it, on a run that it does not skip: whatever the
  -- Kubernetes API, the renderers and the promotion controller answer, and whichever calls of the
  -- database fail.
  pub reconcile_all-RowSteps :
      (k : String)
      → IsTable s.db.runs
      → RowSteps (lookup k s.db.runs) (lookup k (reconcile_all env s).0.db.runs)
  unfolding reconcile_all ◌>>=◌
  reconcile_all-RowSteps k table =
      resume_into (λ rs t. Same s t × (ok (list_rl_runs s.db) ≡ ok rs)) (Same s)
        (λ t. RowSteps (lookup k s.db.runs) (lookup k t.db.runs))
        (reads (λ db. ok (list_rl_runs db)) s) (reconcile_runs env)
        (reads-After (λ db. ok (list_rl_runs db)) s)
        (λ t same. untouched (ap (λ db. lookup k db.runs) same.db))
        (λ rs t h. listed_table k rs t table h.0.db (ok_injective _ _ h.1))
