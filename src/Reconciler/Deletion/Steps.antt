-- ===== src/Reconciler/Deletion/Steps.antt =====
-- The steps of `deleteOwned` (control-plane/rlservice/reconciler.go) one by one, each with the calls
-- that it makes.
use skyscale.Prelude.{
  ◌≡◌, refl, sym, subst, ap, ◌∙◌, inl, inr, String, Bool, true, List, [], ◌∷◌, Option, none, some,
  Result, ok, err, Bool-cases, All, eqb, length, ◌&&◌,
}
use skyscale.Reconciler.Types.{
  BackendResource, Gvr, Object, ApiError, not_found, refused, ReconcileError, finalizer_failed,
}
use skyscale.Reconciler.Store.{list_backend_resources}
use skyscale.Reconciler.Monad.{
  Pass, ◌>>=◌, ◌>>◌, resume, the_run, pure, fail, reads, save_run, set_run,
}
use skyscale.Reconciler.Environment.{
  Environment, get_object, apply_object, delete_object, or_fail, mark_run_good, roll_back_run,
}
use skyscale.Reconciler.Ownership.{
  gvr_for_kind, is_owned, is_replaced, drop_finalizer, prepare_delete, delete_and_confirm,
  delete_object_of, delete_at, delete_one, delete_each, delete_owned, without_finalizer,
}
use skyscale.Reconciler.Frame.{confirmation-Keeps}
use skyscale.Reconciler.Steady.Judgement.{AllowsPromotion}
use skyscale.Reconciler.Logic.{
  Keeps, Leads, After, IsQuiet, Steady, Same, bind-Keeps, then-Keeps, pure-Keeps, connect-Keeps,
  reads-After, resume_into, lead_bind,
}
use skyscale.Reconciler.Deletion.Trace.{Allows, Backed, Recorded, Justified, extended}

ok_injective :
    (rs qs : List BackendResource)
    → ◌≡◌ {A = Result ReconcileError (List BackendResource)} (ok rs) (ok qs)
    → rs ≡ qs
ok_injective rs qs h = cc

module _ {K : Type 0} (Row : BackendResource → Type 0) (id : String) where
  abbrev pub Careful : Pass K → Type 0
  Careful s = (s.run.id ≡ id) × Justified Row id s.trace

  pub Careful-IsQuiet : IsQuiet Careful
  Careful-IsQuiet = record {
    kept = λ s t q h. (ap (λ r. r.id) q.run ∙ h.0, extended Row id s.trace t.trace q.trace h.1);
  }

  pub Careful-Steady : Steady Careful (λ _. Unit {0})
  unfolding save_run set_run
  Careful-Steady = record {
    quiet = Careful-IsQuiet;
    saved = then-Keeps (connect-Keeps Careful-IsQuiet) (record { after = λ s h. h });
    same = λ f i d e. record { after = λ s h. (i s.run ∙ h.0, h.1) };
    status = λ f t i d e p. record { after = λ s h. (i s.run ∙ h.0, h.1) };
  }

  pub Careful-AllowsPromotion : (env : Environment K) → AllowsPromotion env Careful
  unfolding mark_run_good roll_back_run
  Careful-AllowsPromotion env = record {
    marked = λ c i v. record { after = λ s h. h };
    rolled = λ c i v. record { after = λ s h. h };
  }

  module _ (env : Environment K) (gvr : Gvr) (r : BackendResource) where
    Ready : Pass K → Type 0
    Ready s = Careful s × Backed id r gvr s.trace

    answered-Ready :
        (answer : Result ApiError Object) (t : Pass K)
        → Ready t
        → After
            (λ _ u. Ready u)
            Careful
            ((or_fail (finalizer_failed r.kind r.name) answer >>= (λ _. pure tt)) t)
    unfolding or_fail pure ◌>>=◌ Ready
    answered-Ready (ok o) t h = h
    answered-Ready (err e) t h = h.0

    drop_finalizer-Ready :
        (o : Object) (s : Pass K)
        → Ready s
        → After (λ _ t. Ready t) Careful (drop_finalizer env gvr r o s)
    unfolding drop_finalizer Ready pure apply_object ◌>>=◌
    drop_finalizer-Ready o s h =
        elim (Bool-cases (eqb (length (without_finalizer o.finalizers)) (length o.finalizers))) [
          | inl e ↦ rw (drop_finalizer, e) h
          | inr e ↦ rw (drop_finalizer, e) (answered-Ready _ _ h)
        ]

    prepare_delete-Ready :
        (found : Result ApiError Object) (s : Pass K)
        → Careful s
        → (Allows id r found → Backed id r gvr s.trace)
        → After (λ _ t. Ready t) Careful (prepare_delete env id gvr r found s)
    unfolding prepare_delete Ready pure fail
    prepare_delete-Ready (err not_found) s h b = (h, b tt)
    prepare_delete-Ready (err (refused e)) s h b = h
    prepare_delete-Ready (ok o) s h b = elim (Bool-cases (is_replaced r o)) [
      | inl e ↦ rw (prepare_delete, e) h
      | inr kept ↦ elim (Bool-cases (is_owned id o)) [
        | inr e ↦ rw (prepare_delete, kept, e) h
        | inl own ↦ rw (prepare_delete, kept, own) (drop_finalizer-Ready o s (h, b (own, kept)))
      ]
    ]

    module _ (row : Row r) (kind : gvr_for_kind r.kind ≡ some gvr) where
      delete_object-Leads : Leads Ready Careful (delete_object env gvr r.namespace r.name)
      unfolding delete_object Ready
      delete_object-Leads = record {
        after = λ s h.
            let recorded : Recorded Row id gvr r.namespace r.name s.trace = record {
              resource = r;
              row = row;
              kind = kind;
              namespace = refl;
              name_of = refl;
              seen = h.1;
            } in
            (h.0.0, (recorded, h.0.1));
      }

      delete_object_of-Careful : Keeps Careful (delete_object_of env id gvr r)
      unfolding delete_object_of delete_and_confirm get_object ◌>>=◌ ◌>>◌ Ready
      delete_object_of-Careful = record {
        after = λ s h.
            let answer : Result ApiError Object =
              (env.client.get gvr r.namespace r.name s.world).1 in
            let t : Pass K = (get_object env gvr r.namespace r.name s).0 in
            resume_into (λ _ u. Ready u) Careful Careful (prepare_delete env id gvr r answer t)
              (λ _. delete_and_confirm env gvr r)
              (prepare_delete-Ready answer t h (λ a. (refl, refl, refl, a))) (λ u c. c)
              (λ _ u ready.
                (lead_bind delete_object-Leads (confirmation-Keeps Careful-IsQuiet env gvr r)).after
                  u ready);
      }

  Same-Careful : (s t : Pass K) → Same s t → Careful s → Careful t
  Same-Careful s t q h = (ap (λ r. r.id) q.run ∙ h.0, subst (Justified Row id) (sym q.trace) h.1)

  module _ (env : Environment K) where
    delete_at-Careful :
        (r : BackendResource) (at : Option Gvr)
        → Row r
        → gvr_for_kind r.kind ≡ at
        → Keeps Careful (delete_at env id r at)
    unfolding delete_at
    delete_at-Careful r none own e = pure-Keeps true
    delete_at-Careful r (some gvr) own e = delete_object_of-Careful env gvr r own e

    delete_each-Careful :
        (acc : Bool) (rs : List BackendResource)
        → All Row rs
        → Keeps Careful (delete_each env id acc rs)
    unfolding delete_each delete_one
    delete_each-Careful acc [] own = pure-Keeps acc
    delete_each-Careful acc (r ∷ rs) (own, all) =
        bind-Keeps (delete_at-Careful r (gvr_for_kind r.kind) own refl)
          (λ gone. delete_each-Careful (acc && gone) rs all)

    -- The loop over the rows of the run, where each of them has `Row`.
    each_of_list :
        (s : Pass K)
        → All Row (list_backend_resources id s.db)
        → Careful s
        → Careful
            ((reads (λ db. ok (list_backend_resources id db)) >>= delete_each env id true) s).0
    unfolding ◌>>=◌
    each_of_list s all h =
        resume_into
          (λ rs t.
            Same s t
            × ◌≡◌ {A = Result ReconcileError (List BackendResource)}
                (ok (list_backend_resources id s.db)) (ok rs))
          (Same s) Careful (reads (λ db. ok (list_backend_resources id db)) s)
          (delete_each env id true) (reads-After (λ db. ok (list_backend_resources id db)) s)
          (λ t same. Same-Careful s t same h)
          (λ rs t q.
            (delete_each-Careful true rs (subst (All Row) (ok_injective _ _ q.1) all)).after t
              (Same-Careful s t q.0 h))

    pub delete_owned-Careful :
        (s : Pass K)
        → All Row (list_backend_resources id s.db)
        → Careful s
        → Careful (delete_owned env s).0
    unfolding delete_owned the_run ◌>>=◌
    delete_owned-Careful s all h =
        subst
          (λ i.
            Careful
              (resume (reads (λ db. ok (list_backend_resources i db)) s)
                (delete_each env i true)).0)
          (sym h.0) (each_of_list s all h)
