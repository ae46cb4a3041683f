-- ===== src/Reconciler/Cancellation.antt =====
-- When a pass of control-plane/rlservice/reconciler.go finds a run cancelled: what `deleteOwned`
-- leaves in the table of resources.
pub mod Rows
pub mod Finish
pub mod Waiting
pub mod Obliging
pub mod Progress
use mathlib.Core.List.{Memᴰ}
use skyscale.Prelude.{
  ℕ, ◌≡◌, ◌≢◌, ◌⊎◌, refl, sym, subst, ap, ◌∙◌, inl, inr, String, Bool, true, false, not, ◌==◌, List,
  [], ◌∷◌, Option, none, some, Result, ok, err, if◌then◌else◌, Bool-cases, eq_iff, eq_refl, arith,
  All, eqb, ◌&&◌, length,
}
use skyscale.Reconciler.Types.{
  RlRun, BackendResource, Gvr, Object, ApiError, not_found, refused, ReconcileError,
}
use skyscale.Reconciler.Store.{
  Database, where_rows, insert_by, order_by, list_backend_resources, by_kind_and_name,
  save_backend_resource, delete_backend_resource,
}
use skyscale.Reconciler.Monad.{
  Pass, Action, ◌>>=◌, ◌>>◌, resume, the_run, pure, fail, reads, writes,
}
use skyscale.Reconciler.Environment.{Environment, get_object, apply_object, delete_object}
use skyscale.Reconciler.Ownership.{
  gvr_for_kind, is_owned, is_replaced, drop_finalizer, prepare_delete, delete_answer,
  confirm_delete, delete_and_confirm, delete_object_of, delete_at, delete_one, delete_each,
  delete_owned, without_finalizer,
}
use skyscale.Reconciler.Logic.{
  Keeps, After, Same, bind-Keeps, then-Keeps, pure-Keeps, fail-Keeps, or_fail-Keeps, if-Keeps,
  resume-After, forget_error, Keeps-After, reads-After, writes-After,
}

-- The rows that are left when the row of one resource is deleted, and those of a list.
unfoldable pub without_row : BackendResource → List BackendResource → List BackendResource
without_row r rows = where_rows (λ q. not (eqb q.id r.id)) rows

unfoldable pub drop_at : Option Gvr → BackendResource → List BackendResource → List BackendResource
drop_at none r rows = rows
drop_at (some gvr) r rows = without_row r rows

unfoldable pub drop_all : List BackendResource → List BackendResource → List BackendResource
drop_all [] rows = rows
drop_all (r ∷ rs) rows = drop_all rs (drop_at (gvr_for_kind r.kind) r rows)

module _ {K : Type 0} (env : Environment K) where
  module _ (rows : List BackendResource) where
    -- The table of resources is the one that it was.
    abbrev Rows : Pass K → Type 0
    Rows t = t.db.resources ≡ rows

    get_object-Rows : (gvr : Gvr) (ns name : String) → Keeps Rows (get_object env gvr ns name)
    unfolding get_object
    get_object-Rows gvr ns name = record { after = λ s h. h }

    apply_object-Rows : (gvr : Gvr) (o : Object) → Keeps Rows (apply_object env gvr o)
    unfolding apply_object
    apply_object-Rows gvr o = record { after = λ s h. h }

    delete_object-Rows : (gvr : Gvr) (ns name : String) → Keeps Rows (delete_object env gvr ns name)
    unfolding delete_object
    delete_object-Rows gvr ns name = record { after = λ s h. h }

    prepare_delete-Rows :
        (id : String) (gvr : Gvr) (r : BackendResource) (found : Result ApiError Object)
        → Keeps Rows (prepare_delete env id gvr r found)
    unfolding prepare_delete drop_finalizer
    prepare_delete-Rows id gvr r (err not_found) = pure-Keeps tt
    prepare_delete-Rows id gvr r (err (refused e)) = fail-Keeps _
    prepare_delete-Rows id gvr r (ok o) =
        if-Keeps (is_replaced r o) (λ _. fail-Keeps _)
          (λ _.
            if-Keeps (is_owned id o)
              (λ _.
                if-Keeps (eqb (length (without_finalizer o.finalizers)) (length o.finalizers))
                  (λ _. pure-Keeps tt)
                  (λ _.
                    bind-Keeps (apply_object-Rows gvr _)
                      (λ answer. bind-Keeps (or_fail-Keeps _ answer) (λ _. pure-Keeps tt))))
              (λ _. fail-Keeps _))

    delete_answer-Rows :
        (r : BackendResource) (answer : Result ApiError (Unit {0}))
        → Keeps Rows (delete_answer env r answer)
    delete_answer-Rows r (ok _) = pure-Keeps tt
    delete_answer-Rows r (err not_found) = pure-Keeps tt
    delete_answer-Rows r (err (refused e)) = fail-Keeps _

  forget_all :
      {A : Type 0} (r : Pass K × Result ReconcileError A)
      → After (λ _ _. Unit {0}) (λ _. Unit {0}) r
  forget_all (s, ok a) = tt
  forget_all (s, err e) = tt

  -- An action that answers `true` only where the table of resources is then `rows`.
  abbrev Settles : List BackendResource → Pass K × Result ReconcileError Bool → Type 0
  Settles rows r = After (λ b t. b ≡ true → t.db.resources ≡ rows) (λ _. Unit {0}) r

  -- The row of an object that is still there.
  abbrev pending : BackendResource → BackendResource
  pending r = record r { deletion_pending = true; desired_state = "absent"; updated_at = env.now }

  confirm_delete-Settles :
      (r : BackendResource) (left : Result ApiError Object) (s : Pass K)
      → Settles (without_row r s.db.resources) (confirm_delete env r left s)
  unfolding confirm_delete without_row delete_backend_resource pure fail ◌>>◌
  confirm_delete-Settles r (ok o) s =
      resume-After (λ _ _. Unit {0})
        (λ b t. b ≡ true → t.db.resources ≡ without_row r s.db.resources) (λ _. Unit {0})
        (writes (save_backend_resource (pending r)) s) (λ _. pure false)
        (forget_all (writes (save_backend_resource (pending r)) s))
        (λ _ t _ no. absurd (let bad : false ≡ true = no in cc))
  confirm_delete-Settles r (err not_found) s =
      resume-After (λ _ t. t.db ≡ delete_backend_resource r.id s.db)
        (λ b t. b ≡ true → t.db.resources ≡ without_row r s.db.resources) (λ _. Unit {0})
        (writes (delete_backend_resource r.id) s) (λ _. pure true)
        (forget_error {K = K} {A = Unit {0}} (λ _ t. t.db ≡ delete_backend_resource r.id s.db)
          (λ t. t.db ≡ s.db) (writes (delete_backend_resource r.id) s)
          (writes-After (delete_backend_resource r.id) s))
        (λ _ t e _. ap (λ db. db.resources) e)
  confirm_delete-Settles r (err (refused e)) s = tt

  delete_and_confirm-Settles :
      (gvr : Gvr) (r : BackendResource) (s : Pass K)
      → Settles (without_row r s.db.resources) (delete_and_confirm env gvr r s)
  unfolding delete_and_confirm delete_object get_object ◌>>=◌ ◌>>◌
  delete_and_confirm-Settles gvr r s =
      let rows = s.db.resources in
      let t : Pass K = (delete_object env gvr r.namespace r.name s).0 in
      let answer : Result ApiError (Unit {0}) =
        (env.client.delete gvr r.namespace r.name s.world).1 in
      resume-After (λ _ u. u.db.resources ≡ rows)
        (λ b u. b ≡ true → u.db.resources ≡ without_row r rows) (λ _. Unit {0})
        (delete_answer env r answer t)
        (λ _. get_object env gvr r.namespace r.name >>= confirm_delete env r)
        (forget_error {A = Unit {0}} (λ _ u. u.db.resources ≡ rows) (λ u. u.db.resources ≡ rows)
          (delete_answer env r answer t) (Keeps-After t (delete_answer-Rows rows r answer) refl))
        (λ _ u e.
          subst
            (λ q.
              Settles (without_row r q)
                ((get_object env gvr r.namespace r.name >>= confirm_delete env r) u))
            e (confirm_delete-Settles r _ (get_object env gvr r.namespace r.name u).0))

  delete_object_of-Settles :
      (id : String) (gvr : Gvr) (r : BackendResource) (s : Pass K)
      → Settles (without_row r s.db.resources) (delete_object_of env id gvr r s)
  unfolding delete_object_of get_object ◌>>=◌ ◌>>◌
  delete_object_of-Settles id gvr r s =
      let rows = s.db.resources in
      let t : Pass K = (get_object env gvr r.namespace r.name s).0 in
      let found : Result ApiError Object = (env.client.get gvr r.namespace r.name s.world).1 in
      resume-After (λ _ u. u.db.resources ≡ rows)
        (λ b u. b ≡ true → u.db.resources ≡ without_row r rows) (λ _. Unit {0})
        (prepare_delete env id gvr r found t) (λ _. delete_and_confirm env gvr r)
        (forget_error {A = Unit {0}} (λ _ u. u.db.resources ≡ rows) (λ u. u.db.resources ≡ rows)
          (prepare_delete env id gvr r found t)
          (Keeps-After t (prepare_delete-Rows rows id gvr r found) refl))
        (λ _ u e.
          subst (λ q. Settles (without_row r q) (delete_and_confirm env gvr r u)) e
            (delete_and_confirm-Settles gvr r u))

  delete_at-Settles :
      (id : String) (r : BackendResource) (at : Option Gvr) (s : Pass K)
      → Settles (drop_at at r s.db.resources) (delete_at env id r at s)
  unfolding delete_at drop_at pure
  delete_at-Settles id r none s = λ _. refl
  delete_at-Settles id r (some gvr) s = delete_object_of-Settles id gvr r s

  -- The loop: it answers `true` only where every row of a kind that it knows was dropped.
  pub delete_each-Settles :
      (id : String) (acc : Bool) (rs : List BackendResource) (s : Pass K)
      → After
          (λ b t. b ≡ true → (acc ≡ true) × (t.db.resources ≡ drop_all rs s.db.resources))
          (λ _. Unit {0})
          (delete_each env id acc rs s)
  unfolding delete_each delete_one drop_all pure ◌>>=◌
  delete_each-Settles id acc [] s = λ e. (e, refl)
  delete_each-Settles id acc (r ∷ rs) s =
      let dropped = drop_at (gvr_for_kind r.kind) r s.db.resources in
      resume-After (λ gone t. gone ≡ true → t.db.resources ≡ dropped)
        (λ b t. b ≡ true → (acc ≡ true) × (t.db.resources ≡ drop_all rs dropped)) (λ _. Unit {0})
        (delete_one env id r s) (λ gone. delete_each env id (acc && gone) rs)
        (delete_at-Settles id r (gvr_for_kind r.kind) s)
        (λ gone t h.
          further acc gone rs t dropped h (delete_each env id (acc && gone) rs t)
            (delete_each-Settles id (acc && gone) rs t))
    where
      further :
          (acc gone : Bool) (rs : List BackendResource) (t : Pass K)
          (dropped : List BackendResource)
          → (gone ≡ true → t.db.resources ≡ dropped)
          → (r : Pass K × Result ReconcileError Bool)
          → After
              (λ b u.
                b ≡ true → ((acc && gone) ≡ true) × (u.db.resources ≡ drop_all rs t.db.resources))
              (λ _. Unit {0})
              r
          → After
              (λ b u. b ≡ true → (acc ≡ true) × (u.db.resources ≡ drop_all rs dropped))
              (λ _. Unit {0})
              r
      further acc gone rs t dropped h (u, err e) k = tt
      further acc gone rs t dropped h (u, ok b) k = λ e.
          let (both, rest) = k e in
          let all : acc ≡ true = ground arith in
          let here : gone ≡ true = ground arith in (all, rest ∙ ap (drop_all rs) (h here))
