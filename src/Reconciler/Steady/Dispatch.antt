-- ===== src/Reconciler/Steady/Dispatch.antt =====
-- The early returns of `Reconcile` of control-plane/rlservice/reconciler.go, in their order.
use skyscale.Prelude.{
  ◌≡◌, ◌≢◌, refl, inl, inr, String, true, false, ◌&&◌, ◌||◌, ◌==◌, Result, ok, err, arith, eq_iff,
}
use skyscale.Contracts.{RlRunSpec}
use skyscale.Contracts.Validate.{RunSnapshot}
use skyscale.Reconciler.Types.{RlRun, ReconcileError}
use skyscale.Reconciler.Monad.{Pass}
use skyscale.Reconciler.Environment.{Environment}
use skyscale.Reconciler.Passes.{same_hash, verified_spec, cancel_run, go_on_cancelling, dispatch}
use skyscale.Reconciler.Machine.{IsJudged, MayTrain, Moves, cancels, suspends, judges, trains}
use skyscale.Reconciler.Logic.{
  Keeps, Steady, bind-Keeps, pure-Keeps, fail-Keeps, or_fail-Keeps, if-Keeps, the_run-Keeps,
}
use skyscale.Reconciler.Steady.{begin_cancel-Keeps, suspend_run-Keeps}
use skyscale.Reconciler.Steady.Training.{train-Keeps}
use skyscale.Reconciler.Steady.Judgement.{AllowsPromotion, reconcile_evaluation-Keeps}

module _ {K : Type 0} {I : Pass K → Type 0} (env : Environment K) where
  same_hash-Keeps :
      (s : RunSnapshot) (again : Result ReconcileError RunSnapshot)
      → Keeps I (same_hash env s again)
  unfolding same_hash
  same_hash-Keeps s (err e) = fail-Keeps e
  same_hash-Keeps s (ok again) =
      if-Keeps (again.sha256 == s.sha256) (λ _. pure-Keeps s.spec) (λ _. fail-Keeps _)

  pub verified_spec-Keeps : Keeps I (verified_spec env)
  unfolding verified_spec
  verified_spec-Keeps = bind-Keeps the_run-Keeps (λ run. bind-Keeps (or_fail-Keeps _ _) (λ s.
      if-Keeps (s.sha256 == run.snapshot_sha256 && s.immutable) (λ _. same_hash-Keeps s _)
        (λ _. fail-Keeps _)))

-- What two tests on texts say when they fail.
neither_text : (a b t u : String) → (a == t || b == u) ≡ false → (a ≢ t) × (b ≢ u)
neither_text a b t u h = (ground (arith, eq_iff a t), ground (arith, eq_iff b u))

evaluating_or_canary : (s : String) → (s == "evaluating" || s == "canary") ≡ true → IsJudged s
evaluating_or_canary s h = ground (arith, eq_iff s "evaluating", eq_iff s "canary")

other_status : (s : String) → (s == "evaluating" || s == "canary") ≡ false → ¬ IsJudged s
other_status s h (inl x) = (neither_text _ _ _ _ h).0 x
other_status s h (inr x) = (neither_text _ _ _ _ h).1 x

may_train :
    {d s : String}
    → d ≢ "cancelled"
    → s ≢ "cancelling"
    → (d == "suspended") ≡ false
    → (s == "evaluating" || s == "canary") ≡ false
    → MayTrain d s
may_train {d = d} {s = s} wanted kept w e = record {
  wanted = wanted;
  active = ground (arith, eq_iff d "suspended");
  kept = kept;
  unjudged = other_status s e;
}

module _ {K : Type 0} (env : Environment K) {I : Pass K → Type 0} {P : String → Type 0}
    (steady : Steady I P) (promotions : AllowsPromotion env I) (was : RlRun)
    (cancellation : was.status ≡ "cancelling" → Keeps I (go_on_cancelling env))
    (allowed : (t : String) → Moves was.desired_state was.status t → P t) where
  cancel_run-Keeps :
      (was.desired_state == "cancelled" || was.status == "cancelling") ≡ true
      → Keeps I (cancel_run env was)
  unfolding cancel_run
  cancel_run-Keeps h =
      if-Keeps (was.status == "cancelling")
        (λ c. cancellation ((eq_iff was.status "cancelling").0 c))
        (λ c. begin_cancel-Keeps env steady (
          allowed "cancelling"
            (cancels (ground (arith, eq_iff was.desired_state "cancelled")) refl)))

  pub dispatch-Keeps : (spec : RlRunSpec) → Keeps I (dispatch env spec was)
  unfolding dispatch
  dispatch-Keeps spec =
      if-Keeps (was.desired_state == "cancelled" || was.status == "cancelling") cancel_run-Keeps
        (λ on.
          let (wanted, kept) = neither_text _ _ _ _ on in
          if-Keeps (was.desired_state == "suspended")
            (λ w.
              suspend_run-Keeps env steady
                (allowed "suspended" (suspends ((eq_iff _ _).0 w) kept refl)))
            (λ w.
              if-Keeps (was.status == "evaluating" || was.status == "canary")
                (λ e.
                  reconcile_evaluation-Keeps env steady
                    (λ t v. allowed t (judges kept (evaluating_or_canary was.status e) v))
                    promotions spec)
                (λ e.
                  train-Keeps env steady (λ t p. allowed t (trains (may_train wanted kept w e) p))
                    spec)))
