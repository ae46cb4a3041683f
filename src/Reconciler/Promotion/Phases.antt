-- ===== src/Reconciler/Promotion/Phases.antt =====
-- The two phases of `reconcileEvaluation` of control-plane/rlservice/reconciler.go: the evaluator's
-- job, and the canary's.
use skyscale.Prelude.{
  ◌≡◌, ◌≢◌, refl, sym, ap, ◌∙◌, inr, String, true, false, ◌&&◌, ◌==◌, Result, if◌then◌else◌, eq_iff,
  arith,
}
use skyscale.Contracts.{RlRunSpec}
use skyscale.Reconciler.Types.{RlAttempt, EvaluationRecord, ReconcileError, deployments, services}
use skyscale.Reconciler.Monad.{Pass, Action, ◌>>=◌, ◌>>◌, resume, the_run, set_run, pure}
use skyscale.Reconciler.Environment.{Environment}
use skyscale.Reconciler.Attempts.{is_success, is_failure, apply_and_track}
use skyscale.Reconciler.Evaluation.{
  start_canary, await_metrics, judge_success, still_running, judge_evaluator, evaluate_policy,
  judge_canary, evaluate_canary, evaluator_phase, canary_phase, ray_job_status, canary_replicas,
  run_evaluator,
}
use skyscale.Reconciler.Frame.{apply_and_track-Keeps, run_evaluator-Keeps}
use skyscale.Reconciler.Logic.{Keeps, After, resume-After, Keeps-After, if-After, weaken_After}
use skyscale.Reconciler.Promotion.{
  Row, Gated, Phase, Phase-IsQuiet, Start, Start-IsQuiet, calm, not_canary, Start-Phase, Start-calm,
  Start-Gated,
}

module _ {K : Type 0} (env : Environment K) (s0 : Pass K) (row : EvaluationRecord)
    (found : Row s0 row) where
  -- An action between the phases, with the evaluation that it answers.
  abbrev InPhase : Pass K × Result ReconcileError EvaluationRecord → Type 0
  InPhase r = After (Phase s0) (Gated s0) r

  from_the_run :
      {A B : Type 0} (m : Action K A) (f : A → Action K B) (R : B → Pass K → Type 0) (s : Pass K)
      → Keeps (Start s0) m
      → Start s0 s
      → ((a : A) (t : Pass K) → Start s0 t → After R (Gated s0) (f a t))
      → After R (Gated s0) (resume (m s) f)
  from_the_run m f R s k h g =
      resume-After (λ _ t. Start s0 t) R (Gated s0) (m s) f
        (weaken_After (λ _ t. Start s0 t) (λ _ t. Start s0 t) (Start s0) (Gated s0) (m s)
          (Keeps-After s k h) (λ _ t x. x) (Start-Gated s0))
        g

  phase_then :
      {A B : Type 0} (e : EvaluationRecord) (m : Action K A) (f : A → Action K B)
      (R : B → Pass K → Type 0) (s : Pass K)
      → Keeps (Phase s0 e) m
      → Phase s0 e s
      → ((a : A) (t : Pass K) → Phase s0 e t → After R (Gated s0) (f a t))
      → After R (Gated s0) (resume (m s) f)
  phase_then e m f R s k h g =
      resume-After (λ _ t. Phase s0 e t) R (Gated s0) (m s) f
        (weaken_After (λ _ t. Phase s0 e t) (λ _ t. Phase s0 e t) (Phase s0 e) (Gated s0) (m s)
          (Keeps-After s k h) (λ _ t x. x) (λ t x. x.gated))
        g

  not_passed : ◌≢◌ {A = String} "running" "passed"
  not_passed e = cc

  failed_not_passed : ◌≢◌ {A = String} "failed" "passed"
  failed_not_passed e = let bad : true ≡ false = ap (λ s. s == "failed") e in cc

  -- The canary has begun.
  begun :
      (e : EvaluationRecord) (t : Pass K)
      → Start s0 t
      → (row.status ≡ "passed") × (row.gates_passed ≡ true)
      → Phase s0
          (record e { canary_state = "running" })
          (record t { run = record t.run { status = "canary"; observed_state = "canary-running" } })
  begun e t h good = record {
    gated = record { calls = h.1; canary = λ _. inr (row, found, good.0, good.1) };
    id = ap (λ r. r.id) h.0;
    version = ap (λ r. r.policy_version) h.0;
    passed = λ _ p. absurd (not_passed p);
  }

  start_canary-InPhase :
      (spec : RlRunSpec) (attempt : RlAttempt) (e : EvaluationRecord) (s : Pass K)
      → Start s0 s
      → (row.status ≡ "passed") × (row.gates_passed ≡ true)
      → InPhase (start_canary env spec attempt e s)
  unfolding start_canary the_run set_run pure ◌>>=◌ ◌>>◌
  start_canary-InPhase spec attempt e s h good =
      from_the_run
        (apply_and_track env attempt deployments (
          env.render.canary_rollout_deployment spec s.run.policy_version (canary_replicas spec)
            false))
        (λ _.
          apply_and_track env attempt services (env.render.canary_rollout_service spec)
          >> (set_run (λ r. record r { status = "canary"; observed_state = "canary-running" })
              >> pure (record e { canary_state = "running" })))
        (Phase s0) s (apply_and_track-Keeps (Start-IsQuiet s0) env attempt _ _) h
        (λ _ t k.
          from_the_run
            (apply_and_track env attempt services (env.render.canary_rollout_service spec))
            (λ _.
              set_run (λ r. record r { status = "canary"; observed_state = "canary-running" })
              >> pure (record e { canary_state = "running" }))
            (Phase s0) t (apply_and_track-Keeps (Start-IsQuiet s0) env attempt _ _) k
            (λ _ u j. begun e u j good))

  -- The run's observed state is set, in a step that evaluates.
  observed :
      (e : EvaluationRecord) (text : String) (t : Pass K)
      → Start s0 t
      → s0.run.status ≡ "evaluating"
      → Phase s0 e (record t { run = record t.run { observed_state = text } })
  observed e text t h c =
      calm s0 e _ h.1 (ap (λ r. r.id) h.0) (ap (λ r. r.policy_version) h.0)
        (not_canary s0 t.run.status (ap (λ r. r.status) h.0 ∙ c))

  judge_success-InPhase :
      (spec : RlRunSpec) (attempt : RlAttempt) (e : EvaluationRecord) (s : Pass K)
      → s0.run.status ≡ "evaluating"
      → e.status ≡ row.status
      → e.gates_passed ≡ row.gates_passed
      → Start s0 s
      → InPhase (judge_success env spec attempt e s)
  unfolding judge_success await_metrics set_run pure ◌>>◌
  judge_success-InPhase spec attempt e s c es eg h =
      if-After (Phase s0) (Gated s0) (e.status == "passed" && e.gates_passed)
        (start_canary env spec attempt e) (await_metrics env e) s
        (λ good.
          start_canary-InPhase spec attempt e s h
            (sym es ∙ ground (arith, eq_iff e.status "passed"), sym eg ∙ ground arith))
        (λ _.
          if-After (Phase s0) (Gated s0) (e.status == "failed") (pure e)
            (set_run (λ r. record r { observed_state = "evaluation-awaiting-metrics" })
              >> pure (record e { status = "awaiting-metrics" }))
            s (λ _. Start-calm s0 e s h c) (λ _. observed _ "evaluation-awaiting-metrics" s h c))

  judge_evaluator-InPhase :
      (spec : RlRunSpec) (attempt : RlAttempt) (e : EvaluationRecord) (status : String) (s : Pass K)
      → s0.run.status ≡ "evaluating"
      → e.status ≡ row.status
      → e.gates_passed ≡ row.gates_passed
      → Start s0 s
      → InPhase (judge_evaluator env spec attempt e status s)
  unfolding judge_evaluator still_running set_run pure ◌>>◌
  judge_evaluator-InPhase spec attempt e status s c es eg h =
      if-After (Phase s0) (Gated s0) (is_failure status)
        (pure (record e { status = "failed"; failure_reason = "evaluator RayJob failed" }))
        (if is_success status then judge_success env spec attempt e else still_running env e) s
        (λ _. Start-calm s0 _ s h c)
        (λ _.
          if-After (Phase s0) (Gated s0) (is_success status) (judge_success env spec attempt e)
            (still_running env e) s (λ _. judge_success-InPhase spec attempt e s c es eg h)
            (λ _. observed _ "evaluation-running" s h c))

  evaluate_policy-InPhase :
      (spec : RlRunSpec) (attempt : RlAttempt) (s : Pass K)
      → s0.run.status ≡ "evaluating"
      → Start s0 s
      → InPhase (evaluate_policy env spec attempt row s)
  unfolding evaluate_policy ◌>>=◌
  evaluate_policy-InPhase spec attempt s c h =
      let job = env.render.evaluator_ray_job spec row.id row.policy_version in
      from_the_run (run_evaluator env attempt job)
        (λ seen.
          judge_evaluator env spec attempt (record row { ray_job_name = job.name })
            (ray_job_status env seen))
        (Phase s0) s (run_evaluator-Keeps (Start-IsQuiet s0) env attempt job) h
        (λ seen t k.
          judge_evaluator-InPhase spec attempt (record row { ray_job_name = job.name })
            (ray_job_status env seen) t c refl refl k)

  pub evaluator_phase-InPhase :
      (spec : RlRunSpec) (attempt : RlAttempt) (s : Pass K)
      → Start s0 s
      → After (Phase s0) (Gated s0) (evaluator_phase env spec attempt row s)
  unfolding evaluator_phase the_run pure ◌>>=◌
  evaluator_phase-InPhase spec attempt s h =
      if-After (Phase s0) (Gated s0) (s.run.status == "evaluating")
        (evaluate_policy env spec attempt row) (pure row) s
        (λ c.
          evaluate_policy-InPhase spec attempt s
            (ap (λ r. r.status) (sym h.0) ∙ (eq_iff s.run.status "evaluating").0 c) h)
        (λ _. Start-Phase s0 row s h found)

  judge_canary-InPhase :
      (e : EvaluationRecord) (status : String) (s : Pass K)
      → e.canary_state ≡ "running"
      → Phase s0 e s
      → InPhase (judge_canary env e status s)
  unfolding judge_canary set_run pure ◌>>◌
  judge_canary-InPhase e status s r h =
      if-After (Phase s0) (Gated s0) (is_failure status)
        (pure
          (record e { canary_state = "failed"; failure_reason = "canary evaluator RayJob failed" }))
        (if is_success status
          then (set_run (λ r. record r { observed_state = "canary-awaiting-metrics" }) >> pure e)
          else pure e)
        s
        (λ _. record {
          gated = h.gated;
          id = h.id;
          version = h.version;
          passed = λ _ p. absurd (failed_not_passed p);
        })
        (λ _.
          if-After (Phase s0) (Gated s0) (is_success status)
            (set_run (λ r. record r { observed_state = "canary-awaiting-metrics" }) >> pure e)
            (pure e) s
            (λ _. record {
              gated = record { calls = h.gated.calls; canary = h.gated.canary };
              id = h.id;
              version = h.version;
              passed = h.passed;
            })
            (λ _. h))

  pub canary_phase-InPhase :
      (spec : RlRunSpec) (attempt : RlAttempt) (e : EvaluationRecord) (s : Pass K)
      → Phase s0 e s
      → After (Phase s0) (Gated s0) (canary_phase env spec attempt e s)
  unfolding canary_phase evaluate_canary the_run pure ◌>>=◌
  canary_phase-InPhase spec attempt e s h =
      let job = env.render.evaluator_ray_job_phase spec e.id e.policy_version "canary" in
      if-After (Phase s0) (Gated s0) (s.run.status == "canary" && e.canary_state == "running")
        (evaluate_canary env spec attempt e) (pure e) s
        (λ c.
          phase_then e (run_evaluator env attempt job)
            (λ seen. judge_canary env e (ray_job_status env seen)) (Phase s0) s
            (run_evaluator-Keeps (Phase-IsQuiet s0 e) env attempt job) h
            (λ seen t k.
              judge_canary-InPhase e (ray_job_status env seen) t
                (ground (arith, eq_iff e.canary_state "running")) k))
        (λ _. h)
