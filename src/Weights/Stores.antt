-- ===== src/Weights/Stores.antt =====
-- control-plane/weights/service.go: `MemoryRepository`, `MemoryArtifactStore`, and `load` and `save`
-- over the first. The repository keeps the states that the JSON stands for, and has none for a run
-- that was never saved. SHA-256 is the parameter `checksum`.
use skyscale.Prelude.{
  ℕ, ◌≡◌, String, Bool, true, false, not, ◌&&◌, ◌==◌, [], ◌∷◌, none, some, Dict, lookup, insert,
  if◌then◌else◌, Result, ok, err, eqb, arith, eq_refl, eq_iff, lookup-insert, Option-cases, inl,
  inr,
}
use skyscale.Weights.Types.{
  Bytes, RunState, WeightError, run_mismatch, artifact_not_found, artifact_checksum_mismatch,
  immutable_conflict,
}

unfoldable pub bytes_eq : Bytes → Bytes → Bool
bytes_eq [] [] = true
bytes_eq (a ∷ as') (b ∷ bs) = eqb a b && bytes_eq as' bs
bytes_eq _ _ = false

unfoldable pub fetch : String → Dict Bytes → Result WeightError Bytes
fetch uri store = elim (lookup uri store) [
  | none ↦ err artifact_not_found
  | some payload ↦ ok payload
]

module _ (checksum : Bytes → String) where
  -- PutImmutable: the store afterwards, or what was wrong.
  unfoldable pub put_immutable :
      String → Bytes → String → Dict Bytes → Result WeightError (Dict Bytes)
  put_immutable uri payload expected store =
      if not (checksum payload == expected)
      then err artifact_checksum_mismatch
      else elim (lookup uri store) [
        | some existing ↦
            if bytes_eq existing payload
            then ok (insert uri payload store)
            else err immutable_conflict
        | none ↦ ok (insert uri payload store)
      ]

unfoldable pub empty_run : String → RunState
empty_run run_id = record {
  run_id = run_id;
  publications = [];
  engines = [];
  active = "";
  last_good = "";
  updated_at = 0;
}

unfoldable pub load : String → Dict RunState → Result WeightError RunState
load run_id repository = elim (lookup run_id repository) [
  | none ↦ ok (empty_run run_id)
  | some state ↦ if state.run_id == run_id then ok state else err run_mismatch
]

unfoldable pub save : ℕ → RunState → Dict RunState → Dict RunState
save now state repository = insert state.run_id (record state { updated_at = now }) repository

-- What an operation does with the run's state that it loaded: it returns a result, after it saved
-- a state or without saving.
pub data Outcome {ℓ} (A : Type ℓ) : Type ℓ where
  saves : RunState → Result WeightError A → Outcome A
  leaves : Result WeightError A → Outcome A

abbrev pub settle {ℓ} :
    {A : Type ℓ} → ℕ → Outcome A → Dict RunState → Dict RunState × Result WeightError A
settle now (saves state r) repository = (save now state repository, r)
settle now (leaves r) repository = (repository, r)

-- s.mu.Lock(), load, the operation, save.
unfoldable pub with_run {ℓ} :
    {A : Type ℓ}
    → ℕ
    → String
    → (RunState → Outcome A)
    → Dict RunState
    → Dict RunState × Result WeightError A
with_run now run_id operation repository = elim (load run_id repository) [
  | err e ↦ (repository, err e)
  | ok state ↦ settle now (operation state) repository
]

load-found :
    (run_id : String) (m : Dict RunState) (state : RunState)
    → lookup run_id m ≡ some state
    → state.run_id ≡ run_id
    → load run_id m ≡ ok state
unfolding load
load-found run_id m state found e = rw (found, load, e, eq_refl run_id)

-- A state that was loaded for a run is saved under that run, and is what the next load returns.
pub load-save :
    (now : ℕ) (run_id : String) (repository : Dict RunState) (state : RunState)
    → state.run_id ≡ run_id
    → load run_id (save now state repository) ≡ ok (record state { updated_at = now })
unfolding save
load-save now run_id repository state e =
    load-found run_id (save now state repository) (record state { updated_at = now })
      (ground (
        arith,
        lookup-insert state.run_id run_id (record state { updated_at = now }) repository,
        eq_iff state.run_id run_id,
      ))
      e

pub load-run_id :
    (run_id : String) (repository : Dict RunState) (state : RunState)
    → load run_id repository ≡ ok state
    → state.run_id ≡ run_id
unfolding load empty_run
load-run_id run_id repository state h = elim (Option-cases (lookup run_id repository)) [
  | inl e ↦ ground arith
  | inr (found, e) ↦ ground (arith, eq_iff found.run_id run_id)
]
