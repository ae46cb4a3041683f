-- ===== src/Contracts/Validate.antt =====
-- control-plane/contracts/v1.go: `RLRunSpec.Normalize`, `RLRunSpec.Validate` and `Snapshot`. A problem is
-- a constructor for each message. `net.ParseCIDR` is the parameter `is_cidr`, and the JSON encoding
-- with its SHA-256 the parameter `digest`, which has no value where the encoding fails.
use Prim.Native.Char.{code}
use Prim.Native.String.{String}
use text.Mathlib.Text.{starts_with, find?}
use skyscale.Prelude.{
  ℕ, ◌+◌, Option, none, some, Bool, true, false, not, ◌&&◌, ◌||◌, ◌==◌, List, [], ◌∷◌, ◌++◌, map,
  Dict, contains, sort_strings, length, any, eqb, leb, ltb, if◌then◌else◌, Result, ok, err,
}
use skyscale.Prelude.Int.{pos, ltb_ℤ}
use skyscale.Prelude.Machine.{Float64, rank, float_zero, float_le}
use skyscale.Contracts.{RlRunSpec, ModelSpec, AlgorithmSpec, TopologySpec, RolloutTopology}

pub data Problem : Type 0 where
  bad_api_version bad_kind bad_tenant bad_project bad_backend model_required bad_claim bad_mount
        mount_pair :
      Problem
  bad_algorithm bad_strategy bad_action negative_bounds bad_mode bad_trainer no_trainer_gpu
        bad_replicas :
      Problem
  bad_memory_fraction external_colocated asynchronous_colocated bad_watermarks image_required
        no_allowlist :
      Problem
  image_not_allowed unsafe_argument bad_egress : Problem
  marshal_failed : Problem

abbrev pub codes : String → List ℕ
codes String.[] = []
codes (String.◌∷◌ c s) = code c ∷ codes s

abbrev between : ℕ → ℕ → ℕ → Bool
between low high c = leb low c && leb c high

abbrev is_alphanumeric : ℕ → Bool
is_alphanumeric c = between b'a' b'z' c || between b'0' b'9' c

-- ([-a-z0-9]*[a-z0-9])?$
unfoldable pub label_ends : List ℕ → Bool
label_ends [] = true
label_ends (c ∷ []) = is_alphanumeric c
label_ends (c ∷ d ∷ cs) = (is_alphanumeric c || eqb c b'-') && label_ends (d ∷ cs)

-- dnsLabel
unfoldable pub label_matches : List ℕ → Bool
unfolding label_ends
label_matches [] = false
label_matches (c ∷ cs) = is_alphanumeric c && label_ends cs

unfoldable pub is_dns_label : String → Bool
unfolding label_matches
is_dns_label s = label_matches (codes s)

-- strings.ToLower, as far as the result is compared with ASCII names: two other code points have an
-- ASCII letter as their lower case.
abbrev lower : ℕ → ℕ
lower c =
    if between b'A' b'Z' c
    then c + 32
    else if eqb c 0x130
    then b'i'
    else if eqb c 0x212a
    then b'k'
    else c

abbrev same_codes : List ℕ → List ℕ → Bool
same_codes [] [] = true
same_codes (a ∷ as') (b ∷ bs) = eqb a b && same_codes as' bs
same_codes _ _ = false

abbrev lowers_to : String → String → Bool
lowers_to s name = same_codes (map lower (codes s)) (codes name)

-- The problems whose test succeeds.
unfoldable pub failing : List (Bool × Problem) → List Problem
failing [] = []
failing ((b, p) ∷ checks) = let rest = failing checks in if b then p ∷ rest else rest

abbrev includes : String → String → Bool
includes s part = elim (find? s part) [ none ↦ false | some _ ↦ true ]

-- The problems of one part of a spec, in the order of the code; those of the tenant and the project
-- are reported in either order.
unfoldable pub identity_checks : RlRunSpec → List (Bool × Problem)
identity_checks s =
    (not (s.api_version == "rl.skyscale.dev/v1alpha1"), bad_api_version)
    ∷ (not (s.kind == "RLRun"), bad_kind)
    ∷ (
      ltb 63 (length (codes s.metadata.tenant_id)) || not (is_dns_label s.metadata.tenant_id),
      bad_tenant,
    )
    ∷ (
      ltb 63 (length (codes s.metadata.project_id)) || not (is_dns_label s.metadata.project_id),
      bad_project,
    )
    ∷ (not (s.backend == "slime") && not (s.backend == "skyscale"), bad_backend)
    ∷ []

unfoldable pub model_checks : ModelSpec → List (Bool × Problem)
model_checks m =
    (m.source == "" || m.revision == "", model_required)
    ∷ (not (m.volume_claim == "") && not (is_dns_label m.volume_claim), bad_claim)
    ∷ (not (m.mount_path == "") && not (starts_with m.mount_path "/"), bad_mount)
    ∷ (if m.volume_claim == "" then not (m.mount_path == "") else m.mount_path == "", mount_pair)
    ∷ []

abbrev algorithms : List String
algorithms = "grpo" ∷ "gspo" ∷ "cispo" ∷ "reinforce++" ∷ "ppo" ∷ "sft" ∷ "custom" ∷ []

abbrev pub strategies : List String
strategies = "synchronous" ∷ "overlapped" ∷ "asynchronous" ∷ []

abbrev pub actions : List String
actions = "accept" ∷ "reweight" ∷ "quarantine" ∷ "discard" ∷ []

unfoldable pub algorithm_checks : AlgorithmSpec → List (Bool × Problem)
algorithm_checks a =
    (not (any (lowers_to a.name) algorithms), bad_algorithm)
    ∷ (not (contains a.strategy strategies), bad_strategy)
    ∷ (not (contains a.off_policy_action actions), bad_action)
    ∷ (
      ltb_ℤ a.max_policy_lag_steps (pos 0) || ltb_ℤ a.max_queue_age_seconds (pos 0),
      negative_bounds,
    )
    ∷ []

abbrev float_nine_tenths : Float64
float_nine_tenths = rank (pos 0x3feccccccccccccd)

unfoldable pub rollout_checks : RolloutTopology → List (Bool × Problem)
rollout_checks r =
    (
      ltb_ℤ r.replicas (pos 1)
          || ltb_ℤ r.min_replicas (pos 0)
          || ltb_ℤ r.max_replicas r.min_replicas
          || ltb_ℤ r.replicas r.min_replicas
          || ltb_ℤ r.max_replicas r.replicas,
      bad_replicas,
    )
    ∷ (
      float_le r.memory_fraction float_zero || float_le float_nine_tenths r.memory_fraction,
      bad_memory_fraction,
    )
    ∷ []

unfoldable pub trainer_checks : TopologySpec → List (Bool × Problem)
trainer_checks t =
    (not (t.mode == "colocated") && not (t.mode == "disaggregated"), bad_mode)
    ∷ (
      ltb_ℤ t.trainer.nodes (pos 1)
          || ltb_ℤ t.trainer.tp (pos 1)
          || ltb_ℤ t.trainer.pp (pos 1)
          || ltb_ℤ t.trainer.cp (pos 1),
      bad_trainer,
    )
    ∷ (ltb_ℤ t.trainer.resources.gpus (pos 1), no_trainer_gpu)
    ∷ []

unfoldable pub placement_checks : String → TopologySpec → List (Bool × Problem)
placement_checks strategy t =
    (t.mode == "colocated" && t.rollout.external, external_colocated)
    ∷ (strategy == "asynchronous" && not (t.mode == "disaggregated"), asynchronous_colocated)
    ∷ []

abbrev pub is_outside : List String → String → Bool
is_outside allowlist image = not (image == "") && not (any (starts_with image) allowlist)

unfoldable pub image_checks : RlRunSpec → List (Bool × Problem)
image_checks s =
    (
      ltb_ℤ s.retention.low_watermark_groups (pos 0)
          || not (ltb_ℤ s.retention.low_watermark_groups s.retention.high_watermark_groups),
      bad_watermarks,
    )
    ∷ (
      s.image.slime == "" || (not (includes s.image.slime "@sha256:") && s.image.digest == ""),
      image_required,
    )
    ∷ (s.backend == "slime" && eqb (length s.security.image_allowlist) 0, no_allowlist)
    ∷ (is_outside s.security.image_allowlist s.image.slime, image_not_allowed)
    ∷ (is_outside s.security.image_allowlist s.image.sglang, image_not_allowed)
    ∷ []

is_shell_code : ℕ → Bool
is_shell_code c = any (eqb c) (codes " \t\n;&|`$")

unfoldable pub is_unsafe : String → Bool
unfolding is_shell_code
is_unsafe key =
    not (key == "max_retries") && (not (starts_with key "--") || any is_shell_code (codes key))

abbrev keys : Dict String → List String
keys m = map (λ entry. entry.0) m

module _ (is_cidr : String → Bool) where
  unfoldable pub security_checks : RlRunSpec → List (Bool × Problem)
  security_checks s =
      (any is_unsafe (keys s.algorithm.arguments), unsafe_argument)
      ∷ (any (λ d. not (is_cidr d)) s.security.egress_allowlist, bad_egress)
      ∷ []

  unfoldable pub all_checks : RlRunSpec → List (Bool × Problem)
  all_checks s =
      identity_checks s
      ++ (model_checks s.model
          ++ (algorithm_checks s.algorithm
              ++ (trainer_checks s.topology
                  ++ (rollout_checks s.topology.rollout
                      ++ (placement_checks s.algorithm.strategy s.topology
                          ++ (image_checks s ++ security_checks s))))))

  unfoldable pub validate_spec : RlRunSpec → List Problem
  unfolding all_checks failing
  validate_spec s = failing (all_checks s)

abbrev pub or_default : String → String → String
or_default value default = if value == "" then default else value

-- The clock is read if the spec has no creation time.
unfoldable pub normalize : ℕ → RlRunSpec → RlRunSpec
normalize now s = record s {
  api_version = or_default s.api_version "rl.skyscale.dev/v1alpha1";
  kind = or_default s.kind "RLRun";
  backend = or_default s.backend "skyscale";
  created_at = if eqb s.created_at 0 then now else s.created_at;
  security = record s.security {
    image_allowlist = sort_strings s.security.image_allowlist;
    secret_refs = sort_strings s.security.secret_refs;
    egress_allowlist = sort_strings s.security.egress_allowlist;
  };
}

pub record RunSnapshot : Type 0 where
  pub spec : RlRunSpec
  pub sha256 : String
  pub immutable : Bool

-- The hash, where the encoding of the spec does not fail.
abbrev pub hashed : RlRunSpec → Option String → Result (List Problem) RunSnapshot
hashed s none = err (marshal_failed ∷ [])
hashed s (some sum) = ok (record { spec = s; sha256 = sum; immutable = true })

abbrev pub snapshot_of :
    (RlRunSpec → Option String) → RlRunSpec → List Problem → Result (List Problem) RunSnapshot
snapshot_of digest s [] = hashed s (digest s)
snapshot_of digest s (p ∷ ps) = err (p ∷ ps)

unfoldable pub snapshot :
    (String → Bool)
    → (RlRunSpec → Option String)
    → ℕ
    → RlRunSpec
    → Result (List Problem) RunSnapshot
unfolding normalize validate_spec
snapshot is_cidr digest now s =
    let normal = normalize now s in snapshot_of digest normal (validate_spec is_cidr normal)
