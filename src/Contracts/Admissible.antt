-- ===== src/Contracts/Admissible.antt =====
-- What a run spec that passes `RLRunSpec.Validate` of control-plane/contracts/v1.go promises to the
-- rest of the control plane.
use Prim.Native.String.{String}
use text.Mathlib.Text.{starts_with}
use skyscale.Prelude.{
  ℕ, Option, none, some, ◌≡◌, ◌≢◌, ◌⊎◌, inl, inr, refl, Bool, true, false, ◌==◌, List, [], ◌∷◌,
  ◌++◌, contains, any, ok, All, arith, Bool-cases, eq_iff, eqb, if◌then◌else◌, sort_strings-again,
  ap, ◌∙◌,
}
use skyscale.Prelude.Int.{pos, ◌≤ℤ◌}
use skyscale.Contracts.{RlRunSpec, RolloutTopology, AlgorithmSpec, TopologySpec}
use skyscale.Contracts.Validate.{
  Problem, failing, validate_spec, all_checks, identity_checks, model_checks, algorithm_checks,
  trainer_checks, rollout_checks, placement_checks, image_checks, is_outside, actions, normalize,
  snapshot, RunSnapshot, hashed, or_default,
}

abbrev Quiet : List (Bool × Problem) → Type 0
Quiet checks = All (λ check. check.0 ≡ false) checks

failing-Quiet : (checks : List (Bool × Problem)) → failing checks ≡ [] → Quiet checks
unfolding failing
failing-Quiet [] h = tt
failing-Quiet ((b, p) ∷ checks) h = elim (Bool-cases b) [
  | inl e ↦ absurd (let bad = rw (failing, e) at h in cc)
  | inr e ↦ (e, failing-Quiet checks (rw (failing, e) at h))
]

parts : (xs ys : List (Bool × Problem)) → Quiet (xs ++ ys) → Quiet xs × Quiet ys
parts [] ys a = (tt, a)
parts (x ∷ xs) ys (e, a) = let (quiet, rest) = parts xs ys a in ((e, quiet), rest)

-- The replica counts of the rollout are in order.
pub record Ordered (r : RolloutTopology) : Type 0 where
  pub some_replica : pos 1 ≤ℤ r.replicas
  pub not_negative : pos 0 ≤ℤ r.min_replicas
  pub bounds : r.min_replicas ≤ℤ r.max_replicas
  pub above_min : r.min_replicas ≤ℤ r.replicas
  pub below_max : r.replicas ≤ℤ r.max_replicas

rollout_checks-Ordered : (r : RolloutTopology) → Quiet (rollout_checks r) → Ordered r
unfolding rollout_checks
rollout_checks-Ordered r (fine, rest) = record {
  some_replica = ground arith;
  not_negative = ground arith;
  bounds = ground arith;
  above_min = ground arith;
  below_max = ground arith;
}

-- An image that is named starts with one of the prefixes.
pub Allowed : List String → String → Type 0
Allowed allowlist image = image ≢ "" → any (starts_with image) allowlist ≡ true

is_outside-Allowed :
    (allowlist : List String) (image : String)
    → is_outside allowlist image ≡ false
    → Allowed allowlist image
unfolding Allowed
is_outside-Allowed allowlist image h named = ground (arith, eq_iff image "")

-- What the other components rely on.
pub record Admissible (s : RlRunSpec) : Type 0 where
  pub known_action : contains s.algorithm.off_policy_action actions ≡ true
  pub lag_bound : pos 0 ≤ℤ s.algorithm.max_policy_lag_steps
  pub age_bound : pos 0 ≤ℤ s.algorithm.max_queue_age_seconds
  pub some_node : pos 1 ≤ℤ s.topology.trainer.nodes
  pub some_gpu : pos 1 ≤ℤ s.topology.trainer.resources.gpus
  pub ordered : Ordered s.topology.rollout
  pub external_apart : s.topology.rollout.external ≡ true → (s.topology.mode == "colocated") ≡ false
  pub asynchronous_apart : s.algorithm.strategy ≡ "asynchronous" → s.topology.mode ≡ "disaggregated"
  pub slime_allowed : Allowed s.security.image_allowlist s.image.slime
  pub sglang_allowed : Allowed s.security.image_allowlist s.image.sglang

record SoundAlgorithm (a : AlgorithmSpec) : Type 0 where
  known_action : contains a.off_policy_action actions ≡ true
  lag_bound : pos 0 ≤ℤ a.max_policy_lag_steps
  age_bound : pos 0 ≤ℤ a.max_queue_age_seconds

algorithm_checks-SoundAlgorithm :
    (a : AlgorithmSpec) → Quiet (algorithm_checks a) → SoundAlgorithm a
unfolding algorithm_checks
algorithm_checks-SoundAlgorithm a (name, (strategy, (action, (bounds, rest)))) = record {
  known_action = ground arith;
  lag_bound = ground arith;
  age_bound = ground arith;
}

record SoundTrainer (t : TopologySpec) : Type 0 where
  some_node : pos 1 ≤ℤ t.trainer.nodes
  some_gpu : pos 1 ≤ℤ t.trainer.resources.gpus

trainer_checks-SoundTrainer : (t : TopologySpec) → Quiet (trainer_checks t) → SoundTrainer t
unfolding trainer_checks
trainer_checks-SoundTrainer t (mode, (nodes, (gpus, rest))) = record {
  some_node = ground arith;
  some_gpu = ground arith;
}

record SoundPlacement (strategy : String) (t : TopologySpec) : Type 0 where
  external_apart : t.rollout.external ≡ true → (t.mode == "colocated") ≡ false
  asynchronous_apart : strategy ≡ "asynchronous" → t.mode ≡ "disaggregated"

placement_checks-SoundPlacement :
    (strategy : String) (t : TopologySpec)
    → Quiet (placement_checks strategy t)
    → SoundPlacement strategy t
unfolding placement_checks
placement_checks-SoundPlacement strategy t (external, (asynchronous, rest)) = record {
  external_apart = λ x. ground arith;
  asynchronous_apart =
      λ x. ground (arith, eq_iff t.mode "disaggregated", eq_iff strategy "asynchronous");
}

-- A spec without problems has, whatever its other parts: a known off-policy action, bounds of lag and
-- age that are not negative, a trainer with at least one node and one GPU on each, replica counts in
-- order, no colocated topology where the rollout is external, a disaggregated one where the strategy
-- is asynchronous, and images under a prefix of the allowlist.
pub validate_spec-Admissible :
    (is_cidr : String → Bool) (s : RlRunSpec) → validate_spec is_cidr s ≡ [] → Admissible s
unfolding validate_spec all_checks image_checks
validate_spec-Admissible is_cidr s h =
    let quiet = failing-Quiet (all_checks is_cidr s) h in
    let h₁ = (parts (identity_checks s) _ quiet).1 in
    let h₂ = (parts (model_checks s.model) _ h₁).1 in
    let (algorithm, h₃) = parts (algorithm_checks s.algorithm) _ h₂ in
    let (trainer, h₄) = parts (trainer_checks s.topology) _ h₃ in
    let (rollout, h₅) = parts (rollout_checks s.topology.rollout) _ h₄ in
    let (placement, h₆) = parts (placement_checks s.algorithm.strategy s.topology) _ h₅ in
    let images = (parts (image_checks s) _ h₆).0 in
    let a = algorithm_checks-SoundAlgorithm s.algorithm algorithm in
    let t = trainer_checks-SoundTrainer s.topology trainer in
    let p = placement_checks-SoundPlacement s.algorithm.strategy s.topology placement in
    record {
      known_action = a.known_action;
      lag_bound = a.lag_bound;
      age_bound = a.age_bound;
      some_node = t.some_node;
      some_gpu = t.some_gpu;
      ordered = rollout_checks-Ordered s.topology.rollout rollout;
      external_apart = p.external_apart;
      asynchronous_apart = p.asynchronous_apart;
      slime_allowed = is_outside-Allowed s.security.image_allowlist s.image.slime images.1.1.1.0;
      sglang_allowed =
          is_outside-Allowed s.security.image_allowlist s.image.sglang images.1.1.1.1.0;
    }

Problems-cases :
    (ps : List Problem) → (ps ≡ []) ⊎ ((p : Problem) × (rest : List Problem) × (ps ≡ p ∷ rest))
Problems-cases [] = inl refl
Problems-cases (p ∷ rest) = inr (p, rest, refl)

or_default-again :
    (v d : String) → (d == "") ≡ false → or_default (or_default v d) d ≡ or_default v d
or_default-again v d h = elim (Bool-cases (v == "")) [
  | inl e ↦ rw (e, h) refl
  | inr e ↦ rw (e, e) refl
]

normalize-again :
    (now later : ℕ) (s : RlRunSpec) → now ≢ 0 → normalize later (normalize now s) ≡ normalize now s
unfolding normalize
normalize-again now later s set =
    let created = if eqb s.created_at 0 then now else s.created_at in
    let known : eqb created 0 ≡ false = ground arith in
    rw
      (
        known,
        or_default-again s.api_version "rl.skyscale.dev/v1alpha1" refl,
        or_default-again s.kind "RLRun" refl,
        or_default-again s.backend "skyscale" refl,
        sort_strings-again s.security.image_allowlist,
        sort_strings-again s.security.secret_refs,
        sort_strings-again s.security.egress_allowlist,
      )
      refl

hashed_spec :
    (s : RlRunSpec) (sum : Option String) (taken : RunSnapshot)
    → hashed s sum ≡ ok taken
    → taken.spec ≡ s
hashed_spec s none taken h = absurd (cc)
hashed_spec s (some sum) taken h = cc

-- The spec of a snapshot is a fixed point of `Snapshot`: taken again of it, at any later time, the
-- snapshot is the same one, with the same hash, whatever the hash and the CIDR parser are. This is
-- what `Reconcile` relies on where it compares the hash of a snapshot with that of a new one. The
-- clock is not at the zero time when the first is taken.
pub snapshot-again :
    (is_cidr : String → Bool) (digest : RlRunSpec → Option String) (now later : ℕ) (s : RlRunSpec)
    (taken : RunSnapshot)
    → now ≢ 0
    → snapshot is_cidr digest now s ≡ ok taken
    → snapshot is_cidr digest later taken.spec ≡ ok taken
unfolding snapshot
snapshot-again is_cidr digest now later s taken set h =
    elim (Problems-cases (validate_spec is_cidr (normalize now s))) [
      | inr (p, ps, e) ↦ absurd (let bad = rw (e, snapshot) at h in cc)
      | inl fine ↦
          let made = rw (fine, snapshot) at h in
          let spec = hashed_spec (normalize now s) (digest (normalize now s)) taken made in
          let again : snapshot is_cidr digest later (normalize now s) ≡ ok taken =
            rw (snapshot, normalize-again now later s set, fine) made in
          ap (snapshot is_cidr digest later) spec ∙ again
    ]
