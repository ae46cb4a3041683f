-- ===== src/Reconciler/Steady/Judgement.antt =====
-- `reconcileEvaluation` of control-plane/rlservice/reconciler.go, by the statuses that it may
-- give the run.
use skyscale.Prelude.{
  refl, inl, inr, String, Bool, true, false, ◌&&◌, ◌||◌, ◌==◌, Option, none, some, if◌then◌else◌,
}
use skyscale.Contracts.{RlRunSpec}
use skyscale.Reconciler.Types.{RlAttempt, EvaluationRecord}
use skyscale.Reconciler.Monad.{Pass}
use skyscale.Reconciler.Environment.{Environment, PromotionController, mark_run_good, roll_back_run}
use skyscale.Reconciler.Attempts.{is_success, is_failure}
use skyscale.Reconciler.Evaluation.{
  start_canary, await_metrics, judge_success, still_running, judge_evaluator, evaluate_policy,
  judge_canary, evaluate_canary, evaluator_phase, canary_phase, controller_of, roll_back_policy,
  promote_policy, decide, reconcile_evaluation, after_rollback, after_promotion,
}
use skyscale.Reconciler.Machine.{IsVerdict}
use skyscale.Reconciler.Frame.{
  apply_and_track-Keeps, save_evaluation-Keeps, keep_stable-Keeps, run_evaluator-Keeps,
}
use skyscale.Reconciler.Logic.{
  Keeps, Steady, bind-Keeps, then-Keeps, pure-Keeps, fail-Keeps, or_fail-Keeps, if-Keeps,
  the_run-Keeps, reads-Keeps, wrapped-Keeps, apply_object-Keeps,
}

-- A property that the calls of the promotion controller keep.
pub record AllowsPromotion {K : Type 0} (env : Environment K) (I : Pass K → Type 0) : Type 0 where
  pub marked :
      (c : PromotionController K) (id version : String) → Keeps I (mark_run_good env c id version)
  pub rolled :
      (c : PromotionController K) (id reason : String) → Keeps I (roll_back_run env c id reason)

module _ {K : Type 0} (env : Environment K) {I : Pass K → Type 0} {P : String → Type 0}
    (steady : Steady I P) (verdict : (t : String) → IsVerdict t → P t) where
  start_canary-Keeps :
      (spec : RlRunSpec) (attempt : RlAttempt) (e : EvaluationRecord)
      → Keeps I (start_canary env spec attempt e)
  unfolding start_canary
  start_canary-Keeps spec attempt e = bind-Keeps the_run-Keeps (λ run.
      then-Keeps (apply_and_track-Keeps steady.quiet env attempt _ _) (
        then-Keeps (apply_and_track-Keeps steady.quiet env attempt _ _) (
          then-Keeps
            (steady.status _ "canary" (λ r. refl) (λ r. refl) (λ r. refl)
              (verdict "canary" (inl refl)))
            (pure-Keeps _))))

  await_metrics-Keeps : (e : EvaluationRecord) → Keeps I (await_metrics env e)
  unfolding await_metrics
  await_metrics-Keeps e =
      if-Keeps (e.status == "failed") (λ _. pure-Keeps e)
        (λ _. then-Keeps (steady.same _ (λ r. refl) (λ r. refl) (λ r. refl)) (pure-Keeps _))

  judge_evaluator-Keeps :
      (spec : RlRunSpec) (attempt : RlAttempt) (e : EvaluationRecord) (status : String)
      → Keeps I (judge_evaluator env spec attempt e status)
  unfolding judge_evaluator judge_success still_running
  judge_evaluator-Keeps spec attempt e status =
      if-Keeps (is_failure status) (λ _. pure-Keeps _)
        (λ _.
          if-Keeps (is_success status)
            (λ _.
              if-Keeps (e.status == "passed" && e.gates_passed)
                (λ _. start_canary-Keeps spec attempt e) (λ _. await_metrics-Keeps e))
            (λ _. then-Keeps (steady.same _ (λ r. refl) (λ r. refl) (λ r. refl)) (pure-Keeps _)))

  pub evaluator_phase-Keeps :
      (spec : RlRunSpec) (attempt : RlAttempt) (e : EvaluationRecord)
      → Keeps I (evaluator_phase env spec attempt e)
  unfolding evaluator_phase evaluate_policy
  evaluator_phase-Keeps spec attempt e = bind-Keeps the_run-Keeps (λ run.
      if-Keeps (run.status == "evaluating")
        (λ _.
          bind-Keeps (run_evaluator-Keeps steady.quiet env attempt _)
            (λ observed. judge_evaluator-Keeps spec attempt _ _))
        (λ _. pure-Keeps e))

  judge_canary-Keeps :
      (e : EvaluationRecord) (status : String) → Keeps I (judge_canary env e status)
  unfolding judge_canary
  judge_canary-Keeps e status =
      if-Keeps (is_failure status) (λ _. pure-Keeps _)
        (λ _.
          if-Keeps (is_success status)
            (λ _. then-Keeps (steady.same _ (λ r. refl) (λ r. refl) (λ r. refl)) (pure-Keeps e))
            (λ _. pure-Keeps e))

  pub canary_phase-Keeps :
      (spec : RlRunSpec) (attempt : RlAttempt) (e : EvaluationRecord)
      → Keeps I (canary_phase env spec attempt e)
  unfolding canary_phase evaluate_canary
  canary_phase-Keeps spec attempt e = bind-Keeps the_run-Keeps (λ run.
      if-Keeps (run.status == "canary" && e.canary_state == "running")
        (λ _.
          bind-Keeps (run_evaluator-Keeps steady.quiet env attempt _)
            (λ observed. judge_canary-Keeps e _))
        (λ _. pure-Keeps e))

  controller_of-Keeps : (c : Option (PromotionController K)) → Keeps I (controller_of c)
  unfolding controller_of
  controller_of-Keeps none = fail-Keeps _
  controller_of-Keeps (some c) = pure-Keeps c

  finished : Bool → String
  finished is_final = if is_final then "completed" else "running"

  finished-IsVerdict : (is_final : Bool) → IsVerdict (finished is_final)
  unfolding finished
  finished-IsVerdict true = inr (inl refl)
  finished-IsVerdict false = inr (inr refl)

  module _ (promotions : AllowsPromotion env I) where
    roll_back_policy-Keeps : (e : EvaluationRecord) → Keeps I (roll_back_policy env e)
    unfolding roll_back_policy finished
    roll_back_policy-Keeps e = bind-Keeps the_run-Keeps (λ run.
        bind-Keeps (controller_of-Keeps env.promotions) (λ c.
          bind-Keeps (promotions.rolled c _ _) (λ answer.
            bind-Keeps (or_fail-Keeps _ answer) (λ version.
              steady.status (after_rollback env e.is_final version) (finished e.is_final)
                (λ r. refl) (λ r. refl) (λ r. refl)
                (verdict (finished e.is_final) (finished-IsVerdict e.is_final))))))

    promote_policy-Keeps :
        (spec : RlRunSpec) (e : EvaluationRecord) → Keeps I (promote_policy env spec e)
    unfolding promote_policy finished
    promote_policy-Keeps spec e = bind-Keeps the_run-Keeps (λ run.
        bind-Keeps (controller_of-Keeps env.promotions) (λ c.
          bind-Keeps (promotions.marked c _ _) (λ answer. bind-Keeps (or_fail-Keeps _ answer) (λ _.
            then-Keeps
              (steady.status (after_promotion env e.is_final) (finished e.is_final) (λ r. refl)
                (λ r. refl) (λ r. refl)
                (verdict (finished e.is_final) (finished-IsVerdict e.is_final)))
              (bind-Keeps (apply_object-Keeps steady.quiet env _ _) (λ _. pure-Keeps tt))))))

    decide-Keeps : (spec : RlRunSpec) (e : EvaluationRecord) → Keeps I (decide env spec e)
    unfolding decide
    decide-Keeps spec e = bind-Keeps the_run-Keeps (λ run.
        if-Keeps (e.status == "failed" || e.canary_state == "failed")
          (λ _. roll_back_policy-Keeps e)
          (λ _.
            if-Keeps (run.status == "canary" && e.canary_state == "passed")
              (λ _. promote_policy-Keeps spec e) (λ _. pure-Keeps tt)))

    pub reconcile_evaluation-Keeps : (spec : RlRunSpec) → Keeps I (reconcile_evaluation env spec)
    unfolding reconcile_evaluation
    reconcile_evaluation-Keeps spec = bind-Keeps the_run-Keeps (λ run.
        bind-Keeps (wrapped-Keeps _ (reads-Keeps steady.quiet _)) (λ loaded.
          bind-Keeps (reads-Keeps steady.quiet _) (λ attempt.
            then-Keeps (keep_stable-Keeps steady.quiet env spec attempt) (
              bind-Keeps (evaluator_phase-Keeps spec attempt loaded) (λ evaluated.
                bind-Keeps (canary_phase-Keeps spec attempt evaluated) (λ e.
                  then-Keeps (decide-Keeps spec e) (
                    then-Keeps (steady.same _ (λ r. refl) (λ r. refl) (λ r. refl))
                      (then-Keeps (save_evaluation-Keeps steady.quiet env _) steady.saved))))))))
