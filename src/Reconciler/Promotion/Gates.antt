-- ===== src/Reconciler/Promotion/Gates.antt =====
-- `reconcileEvaluation` of control-plane/rlservice/reconciler.go as a whole: what it decides, and what
-- every step of it needs.
use skyscale.Prelude.{
  ◌≡◌, ◌≢◌, sym, subst, ap, inl, inr, String, Bool, true, false, ◌&&◌, ◌||◌, ◌==◌, Option, none,
  some, Result, ok, err, if◌then◌else◌, Bool-cases, eq_iff, arith, All,
}
use skyscale.Prelude.Int.{pos}
use skyscale.Contracts.{RlRunSpec}
use skyscale.Reconciler.Types.{
  RlAttempt, EvaluationRecord, Object, ReconcileError, promotion_failed, load_failed, deployments,
}
use skyscale.Reconciler.Store.{get_rl_evaluation, get_rl_attempt}
use skyscale.Reconciler.Monad.{
  Pass, Action, ◌>>=◌, ◌>>◌, resume, the_run, set_run, save_run, pure, fail, reads, wrapped,
}
use skyscale.Reconciler.Environment.{
  Environment, PromotionController, mark_run_good, roll_back_run, apply_object, or_fail,
}
use skyscale.Reconciler.Attempts.{save_evaluation}
use skyscale.Reconciler.Evaluation.{
  controller_of, evaluator_phase, canary_phase, roll_back_policy, promote_policy, decide,
  reconcile_evaluation, after_rollback, after_promotion, keep_stable,
}
use skyscale.Reconciler.Frame.{save_evaluation-Keeps, keep_stable-Keeps}
use skyscale.Reconciler.Logic.{
  Keeps, After, Same, then-Keeps, connect-Keeps, resume_into, reads-After, wrapped-After,
  reads-Keeps, Keeps-After,
}
use skyscale.Reconciler.Promotion.{
  Row, Permitted, MayCanary, Gated, Gated-IsQuiet, Phase, Start, Start-IsQuiet, Start-Gated,
}
use skyscale.Reconciler.Promotion.Phases.{evaluator_phase-InPhase, canary_phase-InPhase}

module _ {K : Type 0} (env : Environment K) (s0 : Pass K) where
  -- The status that a decision leads to is not that of a canary.
  completed_not_canary : ◌≢◌ {A = String} "completed" "canary"
  completed_not_canary e = let bad : true ≡ false = ap (λ s. s == "completed") e in cc

  running_not_canary : ◌≢◌ {A = String} "running" "canary"
  running_not_canary e = let bad : true ≡ false = ap (λ s. s == "running") e in cc

  finished_not_canary :
      (is_final : Bool) → ◌≢◌ {A = String} (if is_final then "completed" else "running") "canary"
  finished_not_canary true = completed_not_canary
  finished_not_canary false = running_not_canary

  rolled :
      (answer : Result String String) (e : EvaluationRecord) (t : Pass K)
      → Gated s0 t
      → Gated s0
          ((or_fail promotion_failed answer
              >>= (λ version. set_run (after_rollback env e.is_final version)))
            t).0
  unfolding or_fail set_run ◌>>=◌
  rolled (err x) e t h = h
  rolled (ok version) e t h = record {
    calls = h.calls;
    canary = λ c. absurd (finished_not_canary e.is_final c);
  }

  roll_back-Gated :
      (c : Option (PromotionController K)) (e : EvaluationRecord) (s : Pass K)
      → Gated s0 s
      → Gated s0
          ((controller_of c >>= (λ c. roll_back_run env c s.run.id e.failure_reason >>= (λ answer.
              or_fail promotion_failed answer
              >>= (λ version. set_run (after_rollback env e.is_final version)))))
            s).0
  unfolding controller_of fail pure roll_back_run ◌>>=◌
  roll_back-Gated none e s h = h
  roll_back-Gated (some c) e s h =
      rolled _ e (roll_back_run env c s.run.id e.failure_reason s).0
        (record { calls = (tt, h.calls); canary = h.canary })

  -- What follows when the controller has marked the version.
  promoted :
      (answer : Result String (Unit {0})) (e : EvaluationRecord) (canary : Object) (t : Pass K)
      → Gated s0 t
      → Gated s0
          ((or_fail promotion_failed answer >>= (λ _.
              set_run (after_promotion env e.is_final)
              >> (apply_object env deployments canary >>= (λ _. pure tt))))
            t).0
  unfolding or_fail set_run pure apply_object ◌>>=◌ ◌>>◌
  promoted (err x) e canary t h = h
  promoted (ok _) e canary t h = record {
    calls = (tt, h.calls);
    canary = λ c. absurd (finished_not_canary e.is_final c);
  }

  promote-Gated :
      (c : Option (PromotionController K)) (e : EvaluationRecord) (canary : Object) (s : Pass K)
      → Phase s0 e s
      → s.run.status ≡ "canary"
      → e.canary_state ≡ "passed"
      → Gated s0
          ((controller_of c >>= (λ c.
              mark_run_good env c s.run.id s.run.policy_version >>= (λ answer.
                or_fail promotion_failed answer >>= (λ _.
                  set_run (after_promotion env e.is_final)
                  >> (apply_object env deployments canary >>= (λ _. pure tt))))))
            s).0
  unfolding controller_of fail pure mark_run_good ◌>>=◌
  promote-Gated none e canary s h c p = h.gated
  promote-Gated (some control) e canary s h c p =
      let (was, row) = h.passed c p in
      promoted _ e canary (mark_run_good env control s.run.id s.run.policy_version s).0 (record {
        calls = ((was, h.id, h.version, (e, row, p)), h.gated.calls);
        canary = h.gated.canary;
      })

  decide-Gated :
      (spec : RlRunSpec) (e : EvaluationRecord) (s : Pass K)
      → Phase s0 e s
      → Gated s0 (decide env spec e s).0
  unfolding decide roll_back_policy promote_policy the_run pure ◌>>=◌
  decide-Gated spec e s h = elim (Bool-cases (e.status == "failed" || e.canary_state == "failed")) [
    | inl b ↦ rw (decide, b) (roll_back-Gated env.promotions e s h.gated)
    | inr b ↦ elim (Bool-cases (s.run.status == "canary" && e.canary_state == "passed")) [
      | inl g ↦
          rw (decide, b, g)
            (promote-Gated env.promotions e
              (env.render.canary_rollout_deployment spec s.run.policy_version (pos 0) true) s h
              (ground (arith, eq_iff s.run.status "canary"))
              (ground (arith, eq_iff e.canary_state "passed")))
      | inr g ↦ rw (decide, b, g) h.gated
    ]
  ]

  -- What is written at the end of the step.
  close_step : EvaluationRecord → Action K (Unit {0})
  close_step e =
      set_run (λ r. record r { updated_at = env.now })
      >> (save_evaluation (record e { updated_at = env.now }) >> save_run)

  touch-Gated : Keeps (Gated s0) (set_run {K = K} (λ r. record r { updated_at = env.now }))
  unfolding set_run
  touch-Gated = record { after = λ s h. record { calls = h.calls; canary = h.canary } }

  save_run-Gated : Keeps (Gated s0) (save_run {K = K})
  unfolding save_run
  save_run-Gated =
      then-Keeps (connect-Keeps (Gated-IsQuiet s0))
        (record { after = λ s h. record { calls = h.calls; canary = h.canary } })

  close_step-Gated : (e : EvaluationRecord) → Keeps (Gated s0) (close_step e)
  unfolding close_step
  close_step-Gated e =
      then-Keeps touch-Gated
        (then-Keeps (save_evaluation-Keeps (Gated-IsQuiet s0) env _) save_run-Gated)

  from_the_run :
      {A B : Type 0} (m : Action K A) (f : A → Action K B) (s : Pass K)
      → Keeps (Start s0) m
      → Start s0 s
      → ((a : A) (t : Pass K) → Start s0 t → Gated s0 (f a t).0)
      → Gated s0 (resume (m s) f).0
  from_the_run m f s k h g =
      resume_into (λ _ t. Start s0 t) (Start s0) (Gated s0) (m s) f (Keeps-After s k h)
        (Start-Gated s0) g

  module _ (spec : RlRunSpec) (row : EvaluationRecord) (found : Row s0 row) where
    decided :
        (e : EvaluationRecord) (s : Pass K)
        → Phase s0 e s
        → Gated s0 ((decide env spec e >> close_step e) s).0
    unfolding ◌>>◌
    decided e s h =
        resume_into (λ _ t. Gated s0 t) (Gated s0) (Gated s0) (decide env spec e s)
          (λ _. close_step e) (ends_gated (decide env spec e s) (decide-Gated spec e s h))
          (λ t g. g) (λ _ t g. (close_step-Gated e).after t g)
      where
        ends_gated :
            (r : Pass K × Result ReconcileError (Unit {0}))
            → Gated s0 r.0
            → After (λ _ t. Gated s0 t) (Gated s0) r
        ends_gated (t, ok a) g = g
        ends_gated (t, err x) g = g

    phases-Gated :
        (attempt : RlAttempt) (s : Pass K)
        → Start s0 s
        → Gated s0
            ((evaluator_phase env spec attempt row >>= (λ evaluated.
                canary_phase env spec attempt evaluated
                >>= (λ e. decide env spec e >> close_step e)))
              s).0
    unfolding ◌>>=◌
    phases-Gated attempt s h =
        resume_into (Phase s0) (Gated s0) (Gated s0) (evaluator_phase env spec attempt row s)
          (λ evaluated.
            canary_phase env spec attempt evaluated >>= (λ e. decide env spec e >> close_step e))
          (evaluator_phase-InPhase env s0 row found spec attempt s h) (λ t g. g)
          (λ evaluated t p.
            resume_into (Phase s0) (Gated s0) (Gated s0) (canary_phase env spec attempt evaluated t)
              (λ e. decide env spec e >> close_step e)
              (canary_phase-InPhase env s0 row found spec attempt evaluated t p) (λ u g. g) decided)

    stable-Gated :
        (attempt : RlAttempt) (s : Pass K)
        → Start s0 s
        → Gated s0
            ((keep_stable env spec attempt
                >> (evaluator_phase env spec attempt row >>= (λ evaluated.
                    canary_phase env spec attempt evaluated
                    >>= (λ e. decide env spec e >> close_step e))))
              s).0
    unfolding ◌>>◌
    stable-Gated attempt s h =
        from_the_run (keep_stable env spec attempt) _ s
          (keep_stable-Keeps (Start-IsQuiet s0) env spec attempt) h (λ _. phases-Gated attempt)

    attempted-Gated :
        (s : Pass K)
        → Start s0 s
        → Gated s0
            ((reads (get_rl_attempt s0.run.current_attempt_id) >>= (λ attempt.
                keep_stable env spec attempt
                >> (evaluator_phase env spec attempt row >>= (λ evaluated.
                    canary_phase env spec attempt evaluated
                    >>= (λ e. decide env spec e >> close_step e)))))
              s).0
    unfolding ◌>>=◌
    attempted-Gated s h =
        from_the_run (reads (get_rl_attempt s0.run.current_attempt_id)) _ s
          (reads-Keeps (Start-IsQuiet s0) (get_rl_attempt s0.run.current_attempt_id)) h stable-Gated

  begun : (s : Pass K) → Same s0 s → All (Permitted s0) s0.trace → Start s0 s
  begun s same calls = (same.run, subst (All (Permitted s0)) (sym same.trace) calls)

  step-Gated :
      (spec : RlRunSpec)
      → All (Permitted s0) s0.trace
      → Gated s0 (reconcile_evaluation env spec s0).0
  unfolding reconcile_evaluation the_run ◌>>=◌ close_step
  step-Gated spec calls =
      let find = get_rl_evaluation s0.run.id s0.run.policy_version in
      resume_into (λ row t. Same s0 t × Row s0 row) (Same s0) (Gated s0)
        (wrapped (load_failed "evaluation") (reads find) s0) _
        (wrapped-After (load_failed "evaluation") (λ row t. Same s0 t × Row s0 row) (Same s0)
          (reads find) s0 (reads-After find s0))
        (λ t same. Start-Gated s0 t (begun t same calls))
        (λ row t h. attempted-Gated spec row h.1 t (begun t h.0 calls))

-- In one step of the evaluation the promotion controller is told that a policy is good only for the
-- run's own policy version, in a run that was in a canary when the step began, whose stored
-- evaluation says that the canary has passed; and the run is in a canary afterwards only if it was
-- before, or if the stored evaluation has passed and its gates too. This is so for every
-- environment, whatever fails, if it was so of the calls before.
pub promotion_is_gated :
    {K : Type 0} (env : Environment K) (spec : RlRunSpec) (s : Pass K)
    → All (Permitted s) s.trace
    → All (Permitted s) (reconcile_evaluation env spec s).0.trace
      × ((reconcile_evaluation env spec s).0.run.status ≡ "canary" → MayCanary s)
promotion_is_gated env spec s calls = let g = step-Gated env s spec calls in (g.calls, g.canary)
