-- ===== src/RlService/Gates.antt =====
-- control-plane/rlservice/policy.go, `EvaluateGates`: a policy version is promoted on its metrics.
use skyscale.Prelude.{
  ◌≡◌, refl, ◌↔◌, String, Bool, true, false, ◌==◌, List, [], ◌∷◌, none, some, Dict, lookup,
  if◌then◌else◌, Result, ok, err, All, arith, Bool-cases, Option-cases, inl, inr, eq_iff,
}
use skyscale.Prelude.Int.{ℤ, ◌≤ℤ◌}
use skyscale.Prelude.Machine.{Float64, nan, rank, float_lt, float_le}
use skyscale.Contracts.{EvaluationGate}

pub data GateError : Type 0 where
  metric_missing gate_failed : String → GateError

unfoldable pub gate_passes : String → Float64 → Float64 → Bool
gate_passes operator value threshold =
    if operator == ">="
    then float_le threshold value
    else if operator == ">"
    then float_lt threshold value
    else if operator == "<="
    then float_le value threshold
    else if operator == "<"
    then float_lt value threshold
    else false

unfoldable pub evaluate_gates : List EvaluationGate → Dict Float64 → Result GateError (Unit {0})
evaluate_gates [] metrics = ok tt
evaluate_gates (gate ∷ gates) metrics =
    let rest = evaluate_gates gates metrics in
    elim (lookup gate.metric metrics) [
      | none ↦ err (metric_missing gate.metric)
      | some value ↦
          if gate_passes gate.operator value gate.threshold
          then rest
          else err (gate_failed gate.metric)
    ]

-- What a gate asks for, as a relation between integers.
pub data Meets : String → Float64 → Float64 → Type 0 where
  at_least : (o : String) (v t : ℤ) → o ≡ ">=" → t ≤ℤ v → Meets o (rank v) (rank t)
  above : (o : String) (v t : ℤ) → o ≡ ">" → ¬ (v ≤ℤ t) → Meets o (rank v) (rank t)
  at_most : (o : String) (v t : ℤ) → o ≡ "<=" → v ≤ℤ t → Meets o (rank v) (rank t)
  below : (o : String) (v t : ℤ) → o ≡ "<" → ¬ (t ≤ℤ v) → Meets o (rank v) (rank t)

abbrev pub Passes : Dict Float64 → EvaluationGate → Type 0
Passes metrics gate =
    (value : Float64) × (lookup gate.metric metrics ≡ some value)
    × Meets gate.operator value gate.threshold

Meets-gate_passes : (o : String) (v t : Float64) → Meets o v t → gate_passes o v t ≡ true
unfolding gate_passes
Meets-gate_passes o v t (at_least _ x y e h) = rw e (ground arith)
Meets-gate_passes o v t (above _ x y e h) = rw e (ground arith)
Meets-gate_passes o v t (at_most _ x y e h) = rw e (ground arith)
Meets-gate_passes o v t (below _ x y e h) = rw e (ground arith)

gate_passes-Meets : (o : String) (v t : Float64) → gate_passes o v t ≡ true → Meets o v t
unfolding gate_passes
gate_passes-Meets o nan t h = absurd (ground arith)
gate_passes-Meets o (rank v) nan h = absurd (ground arith)
gate_passes-Meets o (rank v) (rank t) h = elim (Bool-cases (o == ">=")) [
  | inl e ↦ at_least o v t ((eq_iff o ">=").0 e) (ground arith)
  | inr n₁ ↦ elim (Bool-cases (o == ">")) [
    | inl e ↦ above o v t ((eq_iff o ">").0 e) (λ le. ground arith)
    | inr n₂ ↦ elim (Bool-cases (o == "<=")) [
      | inl e ↦ at_most o v t ((eq_iff o "<=").0 e) (ground arith)
      | inr n₃ ↦ elim (Bool-cases (o == "<")) [
        | inl e ↦ below o v t ((eq_iff o "<").0 e) (λ le. ground arith)
        | inr n₄ ↦ absurd (ground arith)
      ]
    ]
  ]
]

passed :
    (gates : List EvaluationGate) (metrics : Dict Float64)
    → evaluate_gates gates metrics ≡ ok tt
    → All (Passes metrics) gates
unfolding evaluate_gates
passed [] metrics h = tt
passed (gate ∷ gates) metrics h = elim (Option-cases (lookup gate.metric metrics)) [
  | inl e ↦ absurd (ground arith)
  | inr (v, e) ↦ elim (Bool-cases (gate_passes gate.operator v gate.threshold)) [
    | inl p ↦ (
      (v, e, gate_passes-Meets gate.operator v gate.threshold p),
      passed gates metrics (ground arith),
    )
    | inr n ↦ absurd (ground arith)
  ]
]

passes :
    (gates : List EvaluationGate) (metrics : Dict Float64)
    → All (Passes metrics) gates
    → evaluate_gates gates metrics ≡ ok tt
unfolding evaluate_gates
passes [] metrics h = refl
passes (gate ∷ gates) metrics ((v, e, m), rest) =
    ground (arith, Meets-gate_passes gate.operator v gate.threshold m, passes gates metrics rest)

-- The gates let a policy version through exactly when each of them finds its metric among those
-- reported, as a number, on the side of its threshold that its operator names. So a metric that is
-- missing, a value or threshold that is not a number, or an operator that is none of the four
-- fails the evaluation.
pub evaluate_gates-ok_iff :
    (gates : List EvaluationGate) (metrics : Dict Float64)
    → (evaluate_gates gates metrics ≡ ok tt) ↔ All (Passes metrics) gates
evaluate_gates-ok_iff gates metrics = (passed gates metrics, passes gates metrics)
