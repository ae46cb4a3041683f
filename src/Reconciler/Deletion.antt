-- ===== src/Reconciler/Deletion.antt =====
-- What a pass of control-plane/rlservice/reconciler.go deletes: the calls of `Delete`, each with what
-- the reconciler saw before.
mod Trace
mod Steps
pub use Trace.{Allows, Justified}
use skyscale.Reconciler.Deletion.Steps.{
  Careful, Careful-IsQuiet, Careful-Steady, Careful-AllowsPromotion, delete_owned-Careful,
}
use skyscale.Prelude.{
  ◌≡◌, ◌⊎◌, refl, sym, subst, ap, ◌∙◌, inl, inr, String, Bool, true, false, ◌==◌, List, [], ◌∷◌,
  Option, none, some, Result, ok, err, Bool-cases, eq_iff, All, eqb, length, ◌&&◌, ◌||◌, arith,
}
use mathlib.Core.List.{Memᴰ}
use skyscale.Reconciler.Types.{
  BackendResource, Gvr, Object, ApiError, not_found, refused, ReconcileError, finalizer_failed,
}
use skyscale.Reconciler.Store.{
  Database, where_rows, list_backend_resources, by_kind_and_name, order_by,
}
use skyscale.Reconciler.Monad.{
  Pass, Action, Call, saw, applies, deletes, marks_good, rolls_back, ◌>>=◌, ◌>>◌, resume, the_run,
  pure, fail, reads, save_run, set_run,
}
use skyscale.Reconciler.Environment.{
  Environment, get_object, apply_object, delete_object, or_fail, mark_run_good, roll_back_run,
}
use skyscale.Reconciler.Ownership.{
  gvr_for_kind, is_owned, is_replaced, drop_finalizer, prepare_delete, delete_and_confirm,
  delete_object_of, delete_at, delete_one, delete_each, delete_owned, without_finalizer,
  discover_owned,
}
use skyscale.Contracts.{RlRunSpec}
use skyscale.Reconciler.Passes.{
  reconcile, verified_spec, dispatch, cancel_run, go_on_cancelling, save_run_anyway, finish_cancel,
}
use skyscale.Reconciler.Cancellation.Finish.{save_run-same}
use skyscale.Reconciler.Steady.{finish_cancel-Keeps}
use skyscale.Reconciler.Frame.{discover_owned-Keeps, confirmation-Keeps}
use skyscale.Reconciler.Steady.Judgement.{AllowsPromotion}
use skyscale.Reconciler.Steady.Dispatch.{verified_spec-Keeps, dispatch-Keeps}
use skyscale.Reconciler.Logic.{
  Keeps, Leads, After, IsPlain, IsQuiet, Steady, Same, bind-Keeps, then-Keeps, pure-Keeps,
  the_run-Keeps, connect-Keeps, reads-After, resume_into, ends_in, lead_bind,
}

all_listed :
    (rs qs : List BackendResource)
    → ((r : BackendResource) → Memᴰ r rs → Memᴰ r qs)
    → All (λ r. Memᴰ r qs) rs
all_listed [] qs h = tt
all_listed (r ∷ rs) qs h = (h r (Memᴰ.head refl), all_listed rs qs (λ q m. h q (Memᴰ.tail m)))

-- Every object that `deleteOwned` deletes is one that a row of the run records, and was read just
-- before, with updates in between at most: either nothing was there, or the object carried the
-- manager's label and the label of the run, and the row's UID unless the row has none. This is so
-- for every environment, whatever fails, if it was so of the calls before.
pub deletes_only_what_is_owned :
    {K : Type 0} (env : Environment K) (s : Pass K)
    → Justified (λ r. Memᴰ r (list_backend_resources s.run.id s.db)) s.run.id s.trace
    → Justified
        (λ r. Memᴰ r (list_backend_resources s.run.id s.db))
        s.run.id
        (delete_owned env s).0.trace
deletes_only_what_is_owned env s h =
    let rows = list_backend_resources s.run.id s.db in
    (delete_owned-Careful (λ r. Memᴰ r rows) s.run.id env s (all_listed rows rows (λ r m. m))
      (refl, h)).1

-- What `Reconcile` does before its early returns: it checks the snapshot and discovers the objects.
abbrev pub discovery : {K : Type 0} → Environment K → Action K (Unit {0})
discovery env = verified_spec env >>= discover_owned env

module _ {K : Type 0} (env : Environment K) (P : Pass K → Type 0) where
  after_discovery :
      (spec : RlRunSpec) (r : Pass K × Result ReconcileError (Unit {0}))
      → P r.0
      → P (dispatch env spec r.0.run r.0).0
      → P (resume r (λ _. the_run >>= dispatch env spec)).0
  unfolding the_run ◌>>=◌
  after_discovery spec (t, ok _) h k = k
  after_discovery spec (t, err e) h k = h

  after_spec :
      (r : Pass K × Result ReconcileError RlRunSpec)
      → P (resume r (discover_owned env)).0
      → ((spec : RlRunSpec) (t : Pass K)
          → t ≡ (resume r (discover_owned env)).0
          → P (dispatch env spec t.run t).0)
      → P (resume r (λ spec. discover_owned env spec >> (the_run >>= dispatch env spec))).0
  unfolding ◌>>◌
  after_spec (u, ok spec) h k =
      after_discovery spec (discover_owned env spec u) h (k spec (discover_owned env spec u).0 refl)
  after_spec (u, err e) h k = h

  -- A pass ends with the discovery or goes on from there.
  reconcile_from :
      (s : Pass K)
      → P (discovery env s).0
      → ((spec : RlRunSpec) (t : Pass K)
          → t ≡ (discovery env s).0
          → P (dispatch env spec t.run t).0)
      → P (reconcile env s).0
  unfolding reconcile ◌>>=◌
  reconcile_from s h k = after_spec (verified_spec env s) h k

-- A pass over the run `id` that deletes what the rows of the database `d` name.
module _ {K : Type 0} (env : Environment K) (id : String) (d : Database) where
  abbrev Listed : BackendResource → Type 0
  Listed r = Memᴰ r (list_backend_resources id d)

  all_Listed :
      (db : Database) → db.resources ≡ d.resources → All Listed (list_backend_resources id db)
  unfolding list_backend_resources
  all_Listed db e =
      subst (λ rows. All Listed (order_by by_kind_and_name (where_rows (λ r. r.run_id == id) rows)))
        (sym e) (all_listed (list_backend_resources id d) (list_backend_resources id d) (λ r m. m))

  go_on_cancelling-Careful :
      (s : Pass K)
      → s.db.resources ≡ d.resources
      → Careful Listed id s
      → Careful Listed id (go_on_cancelling env s).0
  unfolding go_on_cancelling set_run save_run_anyway ◌>>=◌ ◌>>◌
  go_on_cancelling-Careful s e c =
      let s' : Pass K = record s {
        run = record s.run { status = "cancelling"; observed_state = "deleting" };
      } in
      let u : Pass K = (save_run s').0 in
      let kept : Careful Listed id u = (Careful-Steady Listed id).saved.after s' (c.0, c.1) in
      resume_into (λ _ t. Careful Listed id t) (Careful Listed id) (Careful Listed id)
        (delete_owned env u) (finish_cancel env)
        (ends_in (Careful Listed id) (delete_owned env u)
          (delete_owned-Careful Listed id env u (all_Listed u.db ((save_run-same s').1 ∙ e)) kept))
        (λ t h. h)
        (λ done t h. (finish_cancel-Keeps env (Careful-Steady Listed id) done tt).after t h)

  dispatch-Careful :
      (spec : RlRunSpec) (t : Pass K)
      → t.db.resources ≡ d.resources
      → Careful Listed id t
      → Careful Listed id (dispatch env spec t.run t).0
  unfolding dispatch cancel_run
  dispatch-Careful spec t e c = elim (Bool-cases (t.run.status == "cancelling")) [
    | inl on ↦
        let test : (t.run.desired_state == "cancelled" || t.run.status == "cancelling") ≡ true =
          ground arith in
        rw (dispatch, test, cancel_run, on) (go_on_cancelling-Careful t e c)
    | inr other ↦
        (dispatch-Keeps env (Careful-Steady Listed id) (Careful-AllowsPromotion Listed id env) t.run
            (λ on. absurd (ground (arith, eq_iff t.run.status "cancelling"))) (λ _ m. tt)
            spec).after
          t c
  ]

-- A pass over a run deletes nothing but what a row of the run names that is in the table of resources
-- when the pass has discovered the run's objects, and what was read just before (with updates in
-- between at most): either nothing was there, or an object with the manager's label, the label of
-- the run, and the row's UID unless the row has none. This is so for every environment, whatever
-- fails, if it was so of the calls before.
pub reconcile_deletes_only_what_is_owned :
    {K : Type 0} (env : Environment K) (s : Pass K)
    → Justified
        (λ r. Memᴰ r (list_backend_resources s.run.id (discovery env s).0.db))
        s.run.id
        s.trace
    → Justified
        (λ r. Memᴰ r (list_backend_resources s.run.id (discovery env s).0.db))
        s.run.id
        (reconcile env s).0.trace
reconcile_deletes_only_what_is_owned env s h =
    let id = s.run.id in
    let d = (discovery env s).0.db in
    let found =
      (bind-Keeps (verified_spec-Keeps env)
          (discover_owned-Keeps (Careful-IsQuiet (Listed env id d) id) env)).after
        s (refl, h) in
    (reconcile_from env (Careful (Listed env id d) id) s found (λ spec t e.
      dispatch-Careful env id d spec t (ap (λ x. x.db.resources) e)
        (subst (Careful (Listed env id d) id) (sym e) found))).1
