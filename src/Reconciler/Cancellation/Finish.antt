-- ===== src/Reconciler/Cancellation/Finish.antt =====
-- The second step of a cancellation, of control-plane/rlservice/reconciler.go: when the run becomes
-- cancelled.
use skyscale.Prelude.{◌≡◌, refl, sym, subst, ap, ◌∙◌, String, Bool, true, false, ok, All}
use skyscale.Reconciler.Types.{RlRun}
use skyscale.Reconciler.Store.{save_rl_run}
use skyscale.Reconciler.Monad.{Pass, ◌>>=◌, ◌>>◌, set_run, save_run, connect}
use skyscale.Reconciler.Environment.{Environment, delete_object}
use skyscale.Reconciler.Ownership.{delete_owned}
use skyscale.Reconciler.Passes.{save_run_anyway, finish_cancel, go_on_cancelling}
use skyscale.Reconciler.Frame.{delete_owned-Keeps}
use skyscale.Reconciler.Cancellation.Rows.{IsLeft, delete_owned-IsLeft}
use skyscale.Reconciler.Logic.{
  Same, IsQuiet, AllowsDelete, resume_into, both_After, Keeps-After, connect-After,
}

-- A save changes neither the run nor the resources, whether it fails or not.
pub save_run-same :
    {K : Type 0} (s : Pass K)
    → ((save_run s).0.run ≡ s.run) × ((save_run s).0.db.resources ≡ s.db.resources)
unfolding save_run save_rl_run ◌>>◌
save_run-same {K = K} s =
    resume_into (λ _ t. Same s t) (Same s)
      (λ t. (t.run ≡ s.run) × (t.db.resources ≡ s.db.resources)) (connect {K = K} s)
      (λ _ t. (record t { db = save_rl_run t.run t.db }, ok tt)) (connect-After s)
      (λ t same. (same.run, ap (λ db. db.resources) same.db))
      (λ _ t same. (same.run, ap (λ db. db.resources) same.db))

module _ {K : Type 0} (env : Environment K) (was : RlRun) where
  abbrev Run : Pass K → Type 0
  Run t = t.run ≡ was

  Run-IsQuiet : IsQuiet Run
  Run-IsQuiet = record { kept = λ s t q h. q.run ∙ h }

  Run-AllowsDelete : AllowsDelete Run
  unfolding delete_object
  Run-AllowsDelete = record { kept = λ env gvr ns name. record { after = λ s h. h } }

  -- Where the run is cancelled, its rows are gone.
  abbrev Gone : Pass K → Type 0
  Gone t = t.run.status ≡ "cancelled" → All (IsLeft was.id) t.db.resources

  still_cancelling :
      (t : Pass K) (r : RlRun)
      → t.run ≡ r
      → r.status ≡ was.status
      → was.status ≡ "cancelling"
      → Gone t
  still_cancelling t r e same c = λ d.
      let bad : ◌≡◌ {A = String} "cancelling" "cancelled" =
        sym c ∙ sym same ∙ sym (ap (λ r. r.status) e) ∙ d in
      absurd (let no : ¬ (◌≡◌ {A = String} "cancelling" "cancelled") = λ x. cc in no bad)

  finish_cancel-Gone :
      (done : Bool) (t : Pass K)
      → was.status ≡ "cancelling"
      → t.run ≡ was
      → (done ≡ true → All (IsLeft was.id) t.db.resources)
      → Gone (finish_cancel env done t).0
  unfolding finish_cancel set_run ◌>>◌
  finish_cancel-Gone true t c r h =
      λ _. subst (All (IsLeft was.id)) (sym (save_run-same _).1) (h refl)
  finish_cancel-Gone false t c r h =
      let later : RlRun = record t.run { updated_at = env.now } in
      let u : Pass K = record t { run = later } in
      still_cancelling (save_run u).0 later (save_run-same u).0 (ap (λ r. r.status) r) c

  delete_and_finish-Gone :
      (s : Pass K)
      → was.status ≡ "cancelling"
      → s.run ≡ was
      → Gone ((delete_owned env >>= finish_cancel env) s).0
  unfolding ◌>>=◌
  delete_and_finish-Gone s c r =
      resume_into (λ b t. (t.run ≡ was) × (b ≡ true → All (IsLeft s.run.id) t.db.resources))
        (λ t. (t.run ≡ was) × Unit {0}) Gone (delete_owned env s) (finish_cancel env)
        (both_After (λ _ t. t.run ≡ was) (λ b t. b ≡ true → All (IsLeft s.run.id) t.db.resources)
          (λ t. t.run ≡ was) (λ _. Unit {0}) (delete_owned env s)
          (Keeps-After s (delete_owned-Keeps Run-IsQuiet env Run-AllowsDelete) r)
          (delete_owned-IsLeft env s))
        (λ t h. still_cancelling t was h.0 refl c)
        (λ b t h.
          finish_cancel-Gone b t c h.0
            (subst (λ i. b ≡ true → All (IsLeft i) t.db.resources) (ap (λ r. r.id) r) h.1))

-- Where the second step of a cancellation leaves the run cancelled, no row of the run is left in the
-- table of resources but of a kind that the reconciler does not know: whatever the Kubernetes API
-- answers, whichever calls of the database fail, and whether the step succeeds or returns an error.
pub cancelled_only_when_gone :
    {K : Type 0} (env : Environment K) (s : Pass K)
    → (go_on_cancelling env s).0.run.status ≡ "cancelled"
    → All (IsLeft s.run.id) (go_on_cancelling env s).0.db.resources
unfolding go_on_cancelling set_run save_run_anyway ◌>>◌
cancelled_only_when_gone env s =
    let was : RlRun = record s.run { status = "cancelling"; observed_state = "deleting" } in
    delete_and_finish-Gone env was (save_run (record s { run = was })).0 refl
      (save_run-same (record s { run = was })).0
