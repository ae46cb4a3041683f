-- ===== src/Weights/Invariant/Runs.antt =====
-- Every operation of control-plane/weights/service.go, on the runs of the repository.
use skyscale.Prelude.{
  ℕ, ◌+◌, ◌≡◌, ◌⊎◌, inl, inr, subst, String, Bool, ◌||◌, ◌==◌, List, Dict, lookup, some, Result, ok,
  err, arith, lookup-insert, Option-cases, Result-cases, Bool-cases,
}
use skyscale.Prelude.Int.{ℤ, pos, pos_part, ltb_ℤ}
use skyscale.Weights.Types.{Bytes, RunState, Manifest, WeightError}
use skyscale.Weights.Stores.{Outcome, saves, leaves, load, save, settle, with_run, fetch}
use skyscale.Weights.Publish.{register_engine, register_in, publish, validate_manifest, checksum_of}
use skyscale.Weights.Materialize.{Depot}
use skyscale.Weights.Materialize.Service.{Service, materialize, conclude}
use skyscale.Weights.Materialize.Total.{materialize_version-total}
use skyscale.Weights.Collect.{garbage_collect, sweep, kept_versions}
use skyscale.Weights.Invariant.{WellFormed, SavesWellFormed, saved, left}
use skyscale.Weights.Invariant.Operations.{register_in-WellFormed, publish_in-WellFormed}
use skyscale.Weights.Invariant.Materialization.{
  Tended, Tended-WellFormed, mark_failed-Tended, materialize_version-Tended,
}
use skyscale.Weights.Invariant.Collection.{sweep-WellFormed}

-- Every run that the repository can load is well-formed.
abbrev pub AllRuns : Dict RunState → Type 0
AllRuns repository =
    (run_id : String) (state : RunState) → load run_id repository ≡ ok state → WellFormed state

at_time :
    (now : ℕ) (state : RunState) → WellFormed state → WellFormed (record state { updated_at = now })
at_time now state i = record {
  publications = i.publications;
  active = i.active;
  last_good = i.last_good;
}

load-save_cases :
    (now : ℕ) (j : String) (state found : RunState) (repository : Dict RunState)
    → load j (save now state repository) ≡ ok found
    → (record state { updated_at = now } ≡ found) ⊎ (load j repository ≡ ok found)
unfolding load save
load-save_cases now j state found repository h = elim (Bool-cases (state.run_id == j)) [
  | inr other ↦ inr (
      let e : lookup j (save now state repository) ≡ lookup j repository =
        ground
          (arith, lookup-insert state.run_id j (record state { updated_at = now }) repository) in
      rw (← e, load) h)
  | inl same ↦ inl (
      let e : lookup j (save now state repository) ≡ some (record state { updated_at = now }) =
        ground
          (arith, lookup-insert state.run_id j (record state { updated_at = now }) repository) in
      let r : ok (record state { updated_at = now }) ≡ ok found = rw (e, load, same) at h in cc)
]

pub save-AllRuns :
    (now : ℕ) (state : RunState) (repository : Dict RunState)
    → WellFormed state
    → AllRuns repository
    → AllRuns (save now state repository)
save-AllRuns now state repository i all j found h =
    elim (load-save_cases now j state found repository h) [
      | inl e ↦ subst WellFormed e (at_time now state i)
      | inr before ↦ all j found before
    ]

pub settle-AllRuns :
    {A : Type 0} (now : ℕ) (o : Outcome A) (repository : Dict RunState)
    → SavesWellFormed o
    → AllRuns repository
    → AllRuns (settle now o repository).0
settle-AllRuns now (saves state r) repository (saved i) all =
    save-AllRuns now state repository i all
settle-AllRuns now (leaves r) repository left all = all

pub with_run-AllRuns :
    {A : Type 0} (now : ℕ) (run_id : String) (operation : RunState → Outcome A)
    (repository : Dict RunState)
    → ((state : RunState) → WellFormed state → SavesWellFormed (operation state))
    → AllRuns repository
    → AllRuns (with_run now run_id operation repository).0
unfolding with_run
with_run-AllRuns now run_id operation repository keeps all =
    elim (Result-cases (load run_id repository)) [
      | inl (e, failed) ↦ rw (failed, with_run) all
      | inr (state, loaded) ↦
          rw (loaded, with_run)
            (settle-AllRuns now (operation state) repository (keeps state (all run_id state loaded))
              all)
    ]

pub conclude-AllRuns :
    (checksum : Bytes → String) (now : ℕ) (v : String) (state : RunState)
    (repository : Dict RunState) (d : Depot) (x : Result WeightError Bytes) (s' : Service)
    (r : Result WeightError (String × String))
    → conclude checksum now v state repository (d, x) ≡ some (s', r)
    → Tended state.engines state.publications d.publications
    → WellFormed state
    → AllRuns repository
    → AllRuns s'.repository
unfolding conclude
conclude-AllRuns checksum now v state repository d (err e) s' r h t i all =
    let saved_state =
      Tended-WellFormed state _ i
        (mark_failed-Tended state.engines v state.publications d.publications t) in
    subst AllRuns (ground arith) (save-AllRuns now _ repository saved_state all)
conclude-AllRuns checksum now v state repository d (ok payload) s' r h t i all =
    elim (Option-cases (lookup v d.publications)) [
      | inl e ↦ absurd (ground arith)
      | inr (p, e) ↦ subst AllRuns (ground arith) (
          save-AllRuns now (record state { publications = d.publications }) repository
            (Tended-WellFormed state d.publications i t) all)
    ]

module _ (checksum : Bytes → String) where
  pub materialize-AllRuns :
      (now : ℕ) (run_id v : String) (s s' : Service) (r : Result WeightError (String × String))
      → materialize checksum now run_id v s ≡ some (s', r)
      → AllRuns s.repository
      → AllRuns s'.repository
  unfolding materialize
  materialize-AllRuns now run_id v s s' r h all = elim (Result-cases (load run_id s.repository)) [
    | inl (e, failed) ↦ subst AllRuns (ground arith) all
    | inr (state, loaded) ↦
        let depot : Depot = record { artifacts = s.artifacts; publications = state.publications } in
        let ((d, x), run) = materialize_version-total checksum run_id v depot in
        let i = all run_id state loaded in
        conclude-AllRuns checksum now v state s.repository d x s' r
          (rw (loaded, materialize, run) at h)
          (materialize_version-Tended checksum run_id state.engines v depot d x i.publications run)
          i all
  ]

  pub publish-AllRuns :
      (now : ℕ) (m : Manifest) (ids : List String) (timeout : ℤ) (store : Dict Bytes)
      (repository : Dict RunState)
      → AllRuns repository
      → AllRuns (publish checksum now m ids timeout store repository).0
  unfolding publish
  publish-AllRuns now m ids timeout store repository all =
      elim (Option-cases (validate_manifest m)) [
        | inr (e, bad) ↦ rw (bad, publish) all
        | inl valid ↦ elim (Bool-cases (ltb_ℤ (pos 0) timeout)) [
          | inr late ↦ rw (valid, publish, late) all
          | inl timely ↦ elim (Result-cases (fetch m.artifact_uri store)) [
            | inl (e, gone) ↦ rw (valid, publish, timely, gone) all
            | inr (artifact, got) ↦
                elim (Bool-cases (checksum_of "artifact" m == checksum artifact)) [
                  | inr torn ↦ rw (valid, publish, timely, got, torn) all
                  | inl whole ↦
                      rw (valid, publish, timely, got, whole)
                        (with_run-AllRuns now m.run_id _ repository
                          (λ state i.
                            publish_in-WellFormed _ ids (now + pos_part timeout) (checksum artifact)
                              state i)
                          all)
                ]
          ]
        ]
      ]

pub register_engine-AllRuns :
    (now : ℕ) (run_id id version : String) (repository : Dict RunState)
    → AllRuns repository
    → AllRuns (register_engine now run_id id version repository).0
unfolding register_engine
register_engine-AllRuns now run_id id version repository all =
    elim (Bool-cases (run_id == "" || id == "")) [
      | inl unnamed ↦ rw (unnamed, register_engine) all
      | inr named ↦
          rw (named, register_engine)
            (with_run-AllRuns now run_id (register_in id version) repository
              (register_in-WellFormed id version) all)
    ]

pub garbage_collect-AllRuns :
    (fails : String → Bool) (now n : ℕ) (run_id : String) (s : Service)
    → AllRuns s.repository
    → AllRuns (garbage_collect fails now run_id n s).0.repository
unfolding garbage_collect
garbage_collect-AllRuns fails now n run_id s all = elim (Result-cases (load run_id s.repository)) [
  | inl (e, failed) ↦ rw (failed, garbage_collect) all
  | inr (state, loaded) ↦
      elim (Bool-cases
        (sweep fails (kept_versions n state) state.publications s.artifacts).complete) [
          | inr stopped ↦ rw (loaded, garbage_collect, stopped) all
          | inl complete ↦
              rw (loaded, garbage_collect, complete)
                (save-AllRuns now _ s.repository
                  (sweep-WellFormed fails n state s.artifacts complete (all run_id state loaded))
                  all)
        ]
]
