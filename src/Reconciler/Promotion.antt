-- ===== src/Reconciler/Promotion.antt =====
-- When `reconcileEvaluation` of control-plane/rlservice/reconciler.go starts a canary, and when it
-- tells the promotion controller that a policy is good.
pub mod Phases
pub mod Gates
use skyscale.Prelude.{
  ◌≡◌, ◌≢◌, ◌⊎◌, refl, sym, subst, ap, ◌∙◌, inl, inr, String, Bool, true, false, not, ◌&&◌, ◌||◌,
  ◌==◌, List, [], ◌∷◌, Option, none, some, Result, ok, err, if◌then◌else◌, Bool-cases, eq_iff,
  arith, All,
}
use skyscale.Contracts.{RlRunSpec}
use skyscale.Reconciler.Types.{
  RlRun, RlAttempt, EvaluationRecord, Object, ReconcileError, promotion_failed, observe_failed,
}
use skyscale.Reconciler.Store.{get_rl_evaluation, get_rl_attempt}
use skyscale.Reconciler.Monad.{
  Pass, Call, saw, applies, deletes, marks_good, rolls_back, Action, ◌>>=◌, ◌>>◌, resume, the_run,
  set_run, save_run, pure, fail, reads,
}
use skyscale.Reconciler.Environment.{
  Environment, PromotionController, mark_run_good, roll_back_run, apply_object, or_fail,
}
use skyscale.Reconciler.Attempts.{is_success, is_failure, save_evaluation}
use skyscale.Reconciler.Evaluation.{
  controller_of, start_canary, await_metrics, judge_success, still_running, judge_evaluator,
  evaluate_policy, judge_canary, evaluate_canary, evaluator_phase, canary_phase, roll_back_policy,
  promote_policy, decide, reconcile_evaluation, after_rollback, after_promotion, ray_job_status,
}
use skyscale.Reconciler.Frame.{
  apply_and_track-Keeps, save_evaluation-Keeps, keep_stable-Keeps, run_evaluator-Keeps,
}
use skyscale.Reconciler.Logic.{
  Keeps, After, Same, IsPlain, Extends, IsQuiet, Quietly, bind-Keeps, then-Keeps, pure-Keeps,
  connect-Keeps, apply_object-Keeps, resume-After, resume_into, reads-After, Keeps-After, if-After,
  weaken_After,
}

module _ {K : Type 0} (s0 : Pass K) where
  -- The evaluation that is stored for the run's policy when the step begins.
  abbrev pub Row : EvaluationRecord → Type 0
  Row e = get_rl_evaluation s0.run.id s0.run.policy_version s0.db ≡ ok e

  -- A policy may be called good only if it is the run's, in a canary that has passed.
  abbrev pub Permitted : Call → Type 0
  Permitted (marks_good id version) =
      (s0.run.status ≡ "canary")
      × (id ≡ s0.run.id)
      × (version ≡ s0.run.policy_version)
      × ((e : EvaluationRecord) × Row e × (e.canary_state ≡ "passed"))
  Permitted _ = Unit

  -- Why there may be a canary: there was one, or the evaluation had passed with its gates.
  abbrev pub MayCanary : Type 0
  MayCanary =
      (s0.run.status ≡ "canary")
      ⊎ ((e : EvaluationRecord) × Row e × (e.status ≡ "passed") × (e.gates_passed ≡ true))

  pub record Gated (t : Pass K) : Type 0 where
    pub calls : All Permitted t.trace
    pub canary : t.run.status ≡ "canary" → MayCanary

  -- Between the phases: the run is the same, and a canary of this step has not passed.
  pub record Phase (e : EvaluationRecord) (t : Pass K) : Type 0 where
    pub gated : Gated t
    pub id : t.run.id ≡ s0.run.id
    pub version : t.run.policy_version ≡ s0.run.policy_version
    pub passed :
        t.run.status ≡ "canary" → e.canary_state ≡ "passed" → (s0.run.status ≡ "canary") × Row e

  permits : (c d : List Call) → Extends c d → All Permitted c → All Permitted d
  permits c d (inl e) h = subst (All Permitted) (sym e) h
  permits c d (inr (saw _ _ _ _, p, e)) h = subst (All Permitted) (sym e) (tt, h)
  permits c d (inr (applies _ _, p, e)) h = subst (All Permitted) (sym e) (tt, h)
  permits c d (inr (deletes _ _ _, p, e)) h = elim p [ ]
  permits c d (inr (marks_good _ _, p, e)) h = elim p [ ]
  permits c d (inr (rolls_back _ _, p, e)) h = elim p [ ]

  pub Gated-IsQuiet : IsQuiet Gated
  Gated-IsQuiet = record {
    kept = λ s t q h. record {
      calls = permits s.trace t.trace q.trace h.calls;
      canary = λ e. h.canary (sym (ap (λ r. r.status) q.run) ∙ e);
    };
  }

  pub Phase-IsQuiet : (e : EvaluationRecord) → IsQuiet (Phase e)
  Phase-IsQuiet e = record {
    kept = λ s t q h. record {
      gated = Gated-IsQuiet.kept s t q h.gated;
      id = ap (λ r. r.id) q.run ∙ h.id;
      version = ap (λ r. r.policy_version) q.run ∙ h.version;
      passed = λ c. h.passed (sym (ap (λ r. r.status) q.run) ∙ c);
    };
  }

  -- Before the evaluator: the run as it was.
  abbrev pub Start : Pass K → Type 0
  Start t = (t.run ≡ s0.run) × All Permitted t.trace

  pub Start-IsQuiet : IsQuiet Start
  Start-IsQuiet = record { kept = λ s t q h. (q.run ∙ h.0, permits s.trace t.trace q.trace h.1) }

  -- While the run is not in a canary, whatever the evaluation is.
  pub calm :
      (e : EvaluationRecord) (t : Pass K)
      → All Permitted t.trace
      → t.run.id ≡ s0.run.id
      → t.run.policy_version ≡ s0.run.policy_version
      → t.run.status ≢ "canary"
      → Phase e t
  calm e t p i v n = record {
    gated = record { calls = p; canary = λ c. absurd (n c) };
    id = i;
    version = v;
    passed = λ c. absurd (n c);
  }

  pub not_canary : (s : String) → s ≡ "evaluating" → s ≢ "canary"
  not_canary s e c = let bad : ◌≡◌ {A = String} "evaluating" "canary" = sym e ∙ c in cc

  pub Start-Phase : (e : EvaluationRecord) (t : Pass K) → Start t → Row e → Phase e t
  Start-Phase e t h row = record {
    gated = record { calls = h.1; canary = λ c. inl (sym (ap (λ r. r.status) h.0) ∙ c) };
    id = ap (λ r. r.id) h.0;
    version = ap (λ r. r.policy_version) h.0;
    passed = λ c p. (sym (ap (λ r. r.status) h.0) ∙ c, row);
  }

  pub Start-calm :
      (e : EvaluationRecord) (t : Pass K) → Start t → s0.run.status ≡ "evaluating" → Phase e t
  Start-calm e t h c =
      calm e t h.1 (ap (λ r. r.id) h.0) (ap (λ r. r.policy_version) h.0)
        (not_canary t.run.status (ap (λ r. r.status) h.0 ∙ c))

  pub Start-Gated : (t : Pass K) → Start t → Gated t
  Start-Gated t h = record { calls = h.1; canary = λ c. inl (sym (ap (λ r. r.status) h.0) ∙ c) }
