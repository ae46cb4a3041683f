-- ===== src/Reconciler/Store.antt =====
-- control-plane/state/state.go: the tables of runs, attempts, resources, checkpoints and
-- evaluations, and the queries on them. The table of runs is keyed by the id. That the database may
-- fail on any call is added where the reconciler calls it.
use skyscale.Prelude.{
  ℕ, suc, ◌+◌, String, Bool, true, false, not, ◌&&◌, ◌||◌, ◌==◌, List, [], ◌∷◌, Dict, insert, leb,
  eqb, if◌then◌else◌, Result, ok, err, contains, text_leb,
}
use skyscale.Prelude.Int.{ltb_ℤ}
use skyscale.Reconciler.Types.{
  RlRun, RlAttempt, BackendResource, CheckpointRecord, EvaluationRecord, ReconcileError,
  record_not_found, store_failed,
}

pub record Database : Type 0 where
  pub runs : Dict RlRun
  pub attempts : List RlAttempt
  pub resources : List BackendResource
  pub next_resource : ℕ
  pub checkpoints : List CheckpointRecord
  pub evaluations : List EvaluationRecord

module _ {A : Type 0} where
  unfoldable pub where_rows : (A → Bool) → List A → List A
  where_rows test [] = []
  where_rows test (x ∷ xs) = let rest = where_rows test xs in if test x then x ∷ rest else rest

  unfoldable pub first_row : (A → Bool) → List A → Result ReconcileError A
  first_row test [] = err record_not_found
  first_row test (x ∷ xs) = let rest = first_row test xs in if test x then ok x else rest

  unfoldable pub insert_by : (A → A → Bool) → A → List A → List A
  insert_by before x [] = x ∷ []
  insert_by before x (y ∷ ys) =
      let rest = insert_by before x ys in if before x y then x ∷ y ∷ ys else y ∷ rest

  -- ORDER BY, where `before` compares the columns.
  unfoldable pub order_by : (A → A → Bool) → List A → List A
  order_by before [] = []
  order_by before (x ∷ xs) = insert_by before x (order_by before xs)

  -- INSERT, or an update of the rows that have the same key.
  unfoldable pub upsert : (A → Bool) → (A → A) → A → List A → List A
  upsert same update new [] = new ∷ []
  upsert same update new (x ∷ xs) =
      let rest = upsert same update new xs in if same x then update x ∷ xs else x ∷ rest

unfoldable pub values_of : Dict RlRun → List RlRun
values_of [] = []
values_of ((_, r) ∷ m) = r ∷ values_of m

abbrev pub newer : RlRun → RlRun → Bool
newer r s = leb s.created_at r.created_at

unfoldable pub list_rl_runs : Database → List RlRun
list_rl_runs db = order_by newer (values_of db.runs)

unfoldable pub save_rl_run : RlRun → Database → Database
save_rl_run run db = record db { runs = insert run.id run db.runs }

active_statuses : List String
active_statuses = "starting" ∷ "running" ∷ "suspended" ∷ "cancelling" ∷ []

unfoldable pub count_rows : {A : Type 0} → List A → ℕ
count_rows [] = 0
count_rows (_ ∷ xs) = suc (count_rows xs)

unfoldable pub count_active_tenant_rl_runs : String → Database → ℕ
unfolding active_statuses
count_active_tenant_rl_runs tenant_id db = count_rows (
    where_rows (λ r. r.tenant_id == tenant_id && contains r.status active_statuses)
      (values_of db.runs))

unfoldable pub save_rl_attempt : RlAttempt → Database → Database
save_rl_attempt attempt db = record db {
  attempts = upsert (λ a. a.id == attempt.id) (λ a. attempt) attempt db.attempts;
}

unfoldable pub get_rl_attempt : String → Database → Result ReconcileError RlAttempt
get_rl_attempt id db = first_row (λ a. a.id == id) db.attempts

unfoldable pub list_rl_attempts : String → Database → List RlAttempt
list_rl_attempts run_id db =
    order_by (λ a b. leb a.number b.number) (where_rows (λ a. a.run_id == run_id) db.attempts)

abbrev pub same_resource : BackendResource → BackendResource → Bool
same_resource r s =
    s.run_id == r.run_id && s.kind == r.kind && s.namespace == r.namespace && s.name == r.name

-- DoUpdates: the columns that a conflict overwrites.
abbrev pub overwrite : BackendResource → BackendResource → BackendResource
overwrite r s = record s {
  attempt_id = r.attempt_id;
  api_version = r.api_version;
  uid = r.uid;
  generation = r.generation;
  resource_version = r.resource_version;
  desired_state = r.desired_state;
  observed_state = r.observed_state;
  failure_reason = r.failure_reason;
  deletion_pending = r.deletion_pending;
  updated_at = r.updated_at;
}

-- The id that the row gets when it is created.
abbrev pub created : ℕ → BackendResource → BackendResource
created next r = if eqb r.id 0 then record r { id = next } else r

unfoldable pub save_backend_resource : BackendResource → Database → Database
save_backend_resource r db = record db {
  resources = upsert (same_resource r) (overwrite r) (created db.next_resource r) db.resources;
  next_resource = db.next_resource + 1;
}

abbrev pub by_kind_and_name : BackendResource → BackendResource → Bool
by_kind_and_name r s = not (text_leb s.kind r.kind) || (r.kind == s.kind && text_leb r.name s.name)

unfoldable pub list_backend_resources : String → Database → List BackendResource
list_backend_resources run_id db =
    order_by by_kind_and_name (where_rows (λ r. r.run_id == run_id) db.resources)

unfoldable pub delete_backend_resource : ℕ → Database → Database
delete_backend_resource id db = record db {
  resources = where_rows (λ r. not (eqb r.id id)) db.resources;
}

unfoldable pub get_rl_checkpoint : String → Database → Result ReconcileError CheckpointRecord
get_rl_checkpoint id db = first_row (λ c. c.id == id) db.checkpoints

unfoldable pub latest_rl_checkpoint : String → Database → Result ReconcileError CheckpointRecord
latest_rl_checkpoint run_id db =
    first_row (λ c. true)
      (order_by (λ c d. ltb_ℤ d.optimizer_step c.optimizer_step)
        (where_rows (λ c. c.run_id == run_id && c.status == "committed") db.checkpoints))

unfoldable pub get_rl_evaluation :
    String → String → Database → Result ReconcileError EvaluationRecord
get_rl_evaluation run_id version db =
    first_row (λ e. e.run_id == run_id && e.policy_version == version) db.evaluations

unfoldable pub exists_row : {A : Type 0} → (A → Bool) → List A → Bool
exists_row test [] = false
exists_row test (x ∷ xs) = test x || exists_row test xs

-- A row of another id with the same run and version breaks the unique index.
unfoldable pub save_rl_evaluation : EvaluationRecord → Database → Result ReconcileError Database
save_rl_evaluation e db =
    if exists_row
      (λ f. f.run_id == e.run_id && f.policy_version == e.policy_version && not (f.id == e.id))
      db.evaluations
    then err store_failed
    else ok (record db { evaluations = upsert (λ f. f.id == e.id) (λ f. e) e db.evaluations })
