-- ===== src/Weights/Invariant.antt =====
-- An invariant of the state of a run in control-plane/weights/service.go.
pub mod Publications
pub mod Operations
pub mod Expiry
pub mod Materialization
pub mod Acknowledgement
pub mod Collection
pub mod Runs
pub mod Reachable
use skyscale.Prelude.{
  ℕ, ◌≡◌, Result, String, List, Dict, lookup, Option, none, some, Distinct, Within, All,
}
use skyscale.Weights.Types.{EngineState, Publication, RunState, WeightError}
use skyscale.Weights.Stores.{Outcome, saves, leaves}

-- A publication's acknowledgements are from engines that it requires, one from each, and those
-- engines are registered.
pub record Sound (engines : Dict EngineState) (p : Publication) : Type 0 where
  pub one_each : Distinct p.acks
  pub from_required : Within p.acks p.required
  pub registered : Within p.required engines

abbrev pub AllSound : Dict EngineState → Dict Publication → Type 0
AllSound engines m = All (λ entry. Sound engines entry.1) m

-- Every required engine has acknowledged.
abbrev pub Unanimous : Publication → Type 0
Unanimous p = Within p.required p.acks

-- No version, or one that every required engine has acknowledged.
pub data Agreed (m : Dict Publication) (v : String) : Type 0 where
  blank : v ≡ "" → Agreed m v
  agreed : (p : Publication) → lookup v m ≡ some p → Unanimous p → Agreed m v

pub record WellFormed (state : RunState) : Type 0 where
  pub publications : AllSound state.engines state.publications
  pub active : Agreed state.publications state.active
  pub last_good : Agreed state.publications state.last_good

-- What an operation saves is well-formed.
pub data SavesWellFormed {ℓ} {A : Type ℓ} : Outcome A → Type ℓ where
  saved :
      {state : RunState} {r : Result WeightError A}
      → WellFormed state
      → SavesWellFormed (saves state r)
  left : {r : Result WeightError A} → SavesWellFormed (leaves r)
