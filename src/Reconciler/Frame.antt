-- ===== src/Reconciler/Frame.antt =====
-- The operations of control-plane/rlservice/reconciler.go that leave the run and the table of runs
-- alone: tracking, discovery, suspension and deletion of resources, and the tenant's objects.
use skyscale.Prelude.{
  ◌≡◌, refl, String, Bool, true, false, ◌&&◌, ◌==◌, List, [], ◌∷◌, Option, none, some, Result, ok,
  err, eqb, length, Result-cases, inl, inr, arith,
}
use skyscale.Contracts.{RlRunSpec}
use skyscale.Reconciler.Types.{
  RlAttempt, BackendResource, EvaluationRecord, Gvr, Object, ApiError, not_found, refused,
}
use skyscale.Reconciler.Store.{
  Database, save_backend_resource, delete_backend_resource, save_rl_evaluation, save_rl_attempt,
}
use skyscale.Reconciler.Monad.{Pass, ◌>>=◌, ◌>>◌, writes}
use skyscale.Reconciler.Environment.{Environment, get_object}
use skyscale.Reconciler.Ownership.{
  adopt, discover_type, discover_owned, suspend_as, suspend_at, suspend_found, suspend_one,
  suspend_owned, mark_suspended, drop_finalizer, prepare_delete, delete_answer, confirm_delete,
  delete_and_confirm, delete_object_of, delete_at, delete_one, delete_each, delete_owned,
  gvr_for_kind, is_owned, is_replaced, without_finalizer,
}
use skyscale.Reconciler.Attempts.{
  apply_tenant, ensure_tenant_infrastructure, apply_and_track, save_evaluation,
}
use skyscale.Reconciler.Evaluation.{keep_stable, run_evaluator}
use skyscale.Reconciler.Logic.{
  Keeps, bind-Keeps, for_each-Keeps, or_fail-Keeps, if-Keeps, then-Keeps, pure-Keeps, fail-Keeps,
  the_run-Keeps, IsQuiet, connect-Keeps, reads-Keeps, writes-Keeps, get_object-Keeps,
  list_objects-Keeps, apply_object-Keeps, AllowsDelete,
}

module _ {K : Type 0} {I : Pass K → Type 0} (quiet : IsQuiet I) (env : Environment K) where
  save_resource-Keeps : (r : BackendResource) → Keeps I (writes (save_backend_resource r))
  unfolding save_backend_resource
  save_resource-Keeps r = writes-Keeps quiet (save_backend_resource r) (λ db. refl)

  adopt-Keeps : (id ns kind : String) (o : Object) → Keeps I (adopt env id ns kind o)
  unfolding adopt
  adopt-Keeps id ns kind o =
      if-Keeps (is_owned id o) (λ _. save_resource-Keeps _) (λ _. pure-Keeps tt)

  discover_type-Keeps : (id ns : String) (t : Gvr × String) → Keeps I (discover_type env id ns t)
  unfolding discover_type
  discover_type-Keeps id ns t =
      bind-Keeps (list_objects-Keeps quiet env t.0 ns _)
        (λ answer. bind-Keeps (or_fail-Keeps _ answer) (for_each-Keeps (adopt-Keeps id ns t.1)))

  pub discover_owned-Keeps : (spec : RlRunSpec) → Keeps I (discover_owned env spec)
  unfolding discover_owned
  discover_owned-Keeps spec =
      bind-Keeps the_run-Keeps (λ run. for_each-Keeps (discover_type-Keeps run.id _) _)

  suspend_as-Keeps :
      (gvr : Gvr) (r : BackendResource) (o : Option (Result String Object))
      → Keeps I (suspend_as env gvr r o)
  unfolding suspend_as mark_suspended
  suspend_as-Keeps gvr r none = pure-Keeps tt
  suspend_as-Keeps gvr r (some changed) = bind-Keeps (or_fail-Keeps _ changed) (λ target.
      bind-Keeps (apply_object-Keeps quiet env gvr target)
        (λ answer. bind-Keeps (or_fail-Keeps _ answer) (λ _. save_resource-Keeps _)))

  suspend_found-Keeps :
      (gvr : Gvr) (r : BackendResource) (found : Result ApiError Object)
      → Keeps I (suspend_found env gvr r found)
  unfolding suspend_found
  suspend_found-Keeps gvr r (err not_found) = pure-Keeps tt
  suspend_found-Keeps gvr r (err (refused e)) = fail-Keeps _
  suspend_found-Keeps gvr r (ok o) = suspend_as-Keeps gvr r _

  suspend_at-Keeps : (r : BackendResource) (at : Option Gvr) → Keeps I (suspend_at env r at)
  unfolding suspend_at
  suspend_at-Keeps r none = pure-Keeps tt
  suspend_at-Keeps r (some gvr) =
      bind-Keeps (get_object-Keeps quiet env gvr r.namespace r.name) (suspend_found-Keeps gvr r)

  suspend_one-Keeps : (r : BackendResource) → Keeps I (suspend_one env r)
  unfolding suspend_one
  suspend_one-Keeps r = suspend_at-Keeps r (gvr_for_kind r.kind)

  pub suspend_owned-Keeps : Keeps I (suspend_owned env)
  unfolding suspend_owned
  suspend_owned-Keeps =
      bind-Keeps the_run-Keeps
        (λ run. bind-Keeps (reads-Keeps quiet _) (for_each-Keeps suspend_one-Keeps))

  drop_finalizer-Keeps :
      (gvr : Gvr) (r : BackendResource) (o : Object) → Keeps I (drop_finalizer env gvr r o)
  unfolding drop_finalizer
  drop_finalizer-Keeps gvr r o =
      if-Keeps (eqb (length (without_finalizer o.finalizers)) (length o.finalizers))
        (λ _. pure-Keeps tt)
        (λ _.
          bind-Keeps (apply_object-Keeps quiet env gvr _)
            (λ answer. bind-Keeps (or_fail-Keeps _ answer) (λ _. pure-Keeps tt)))

  prepare_delete-Keeps :
      (id : String) (gvr : Gvr) (r : BackendResource) (found : Result ApiError Object)
      → Keeps I (prepare_delete env id gvr r found)
  unfolding prepare_delete
  prepare_delete-Keeps id gvr r (err not_found) = pure-Keeps tt
  prepare_delete-Keeps id gvr r (err (refused e)) = fail-Keeps _
  prepare_delete-Keeps id gvr r (ok o) =
      if-Keeps (is_replaced r o) (λ _. fail-Keeps _)
        (λ _. if-Keeps (is_owned id o) (λ _. drop_finalizer-Keeps gvr r o) (λ _. fail-Keeps _))

  delete_answer-Keeps :
      (r : BackendResource) (answer : Result ApiError (Unit {0}))
      → Keeps I (delete_answer env r answer)
  delete_answer-Keeps r (ok _) = pure-Keeps tt
  delete_answer-Keeps r (err not_found) = pure-Keeps tt
  delete_answer-Keeps r (err (refused e)) = fail-Keeps _

  confirm_delete-Keeps :
      (r : BackendResource) (left : Result ApiError Object) → Keeps I (confirm_delete env r left)
  unfolding confirm_delete delete_backend_resource
  confirm_delete-Keeps r (ok o) = then-Keeps (save_resource-Keeps _) (pure-Keeps false)
  confirm_delete-Keeps r (err not_found) =
      then-Keeps (writes-Keeps quiet (delete_backend_resource r.id) (λ db. refl)) (pure-Keeps true)
  confirm_delete-Keeps r (err (refused e)) = fail-Keeps _

  pub confirmation-Keeps :
      (gvr : Gvr) (r : BackendResource) (answer : Result ApiError (Unit {0}))
      → Keeps I (
          delete_answer env r answer
          >> (get_object env gvr r.namespace r.name >>= confirm_delete env r))
  confirmation-Keeps gvr r answer =
      then-Keeps (delete_answer-Keeps r answer)
        (bind-Keeps (get_object-Keeps quiet env gvr r.namespace r.name) (confirm_delete-Keeps r))

  apply_tenant-Keeps : (r : Gvr × Object) → Keeps I (apply_tenant env r)
  unfolding apply_tenant
  apply_tenant-Keeps r =
      bind-Keeps (apply_object-Keeps quiet env r.0 r.1)
        (λ answer. bind-Keeps (or_fail-Keeps _ answer) (λ _. pure-Keeps tt))

  pub ensure_tenant_infrastructure-Keeps :
      (spec : RlRunSpec) → Keeps I (ensure_tenant_infrastructure env spec)
  unfolding ensure_tenant_infrastructure
  ensure_tenant_infrastructure-Keeps spec = for_each-Keeps apply_tenant-Keeps _

  pub apply_and_track-Keeps :
      (attempt : RlAttempt) (gvr : Gvr) (o : Object) → Keeps I (apply_and_track env attempt gvr o)
  unfolding apply_and_track
  apply_and_track-Keeps attempt gvr o = bind-Keeps the_run-Keeps (λ run.
      bind-Keeps (apply_object-Keeps quiet env gvr o)
        (λ answer. bind-Keeps (or_fail-Keeps _ answer) (λ applied. save_resource-Keeps _)))

  pub save_attempt-Keeps : (a : RlAttempt) → Keeps I (writes (save_rl_attempt a))
  unfolding save_rl_attempt
  save_attempt-Keeps a = writes-Keeps quiet (save_rl_attempt a) (λ db. refl)

  save_evaluation-runs :
      (e : EvaluationRecord) (db : Database) (db' : Database)
      → save_rl_evaluation e db ≡ ok db'
      → db'.runs ≡ db.runs
  unfolding save_rl_evaluation
  save_evaluation-runs e db db' h = ground arith

  pub save_evaluation-Keeps : (e : EvaluationRecord) → Keeps I (save_evaluation {K = K} e)
  unfolding save_evaluation
  save_evaluation-Keeps e = then-Keeps (connect-Keeps quiet) (record {
    after = λ s p. elim (Result-cases (save_rl_evaluation e s.db)) [
      | inl (x, h) ↦ rw h p
      | inr (db, h) ↦ rw h (
          quiet.kept s (record s { db = db })
            (record { run = refl; runs = save_evaluation-runs e s.db db h; trace = inl refl }) p)
    ];
  })

  pub keep_stable-Keeps :
      (spec : RlRunSpec) (attempt : RlAttempt) → Keeps I (keep_stable env spec attempt)
  unfolding keep_stable
  keep_stable-Keeps spec attempt = bind-Keeps the_run-Keeps (λ run.
      if-Keeps (spec.topology.mode == "disaggregated") (λ _. apply_and_track-Keeps attempt _ _)
        (λ _. pure-Keeps tt))

  pub run_evaluator-Keeps :
      (attempt : RlAttempt) (job : Object) → Keeps I (run_evaluator env attempt job)
  unfolding run_evaluator
  run_evaluator-Keeps attempt job =
      then-Keeps (apply_and_track-Keeps attempt _ job)
        (bind-Keeps (get_object-Keeps quiet env _ job.namespace job.name) (or_fail-Keeps _))

  module _ (deletion : AllowsDelete I) where
    delete_object_of-Keeps :
        (id : String) (gvr : Gvr) (r : BackendResource) → Keeps I (delete_object_of env id gvr r)
    unfolding delete_object_of delete_and_confirm
    delete_object_of-Keeps id gvr r =
        bind-Keeps (get_object-Keeps quiet env gvr r.namespace r.name) (λ found.
          then-Keeps (prepare_delete-Keeps id gvr r found)
            (bind-Keeps (deletion.kept env gvr r.namespace r.name) (confirmation-Keeps gvr r)))

    delete_at-Keeps :
        (id : String) (r : BackendResource) (at : Option Gvr) → Keeps I (delete_at env id r at)
    unfolding delete_at
    delete_at-Keeps id r none = pure-Keeps true
    delete_at-Keeps id r (some gvr) = delete_object_of-Keeps id gvr r

    pub delete_one-Keeps : (id : String) (r : BackendResource) → Keeps I (delete_one env id r)
    unfolding delete_one
    delete_one-Keeps id r = delete_at-Keeps id r (gvr_for_kind r.kind)

    delete_each-Keeps :
        (id : String) (acc : Bool) (rs : List BackendResource) → Keeps I (delete_each env id acc rs)
    unfolding delete_each
    delete_each-Keeps id acc [] = pure-Keeps acc
    delete_each-Keeps id acc (r ∷ rs) =
        bind-Keeps (delete_one-Keeps id r) (λ gone. delete_each-Keeps id (acc && gone) rs)

    pub delete_owned-Keeps : Keeps I (delete_owned env)
    unfolding delete_owned
    delete_owned-Keeps =
        bind-Keeps the_run-Keeps
          (λ run. bind-Keeps (reads-Keeps quiet _) (delete_each-Keeps run.id true))
