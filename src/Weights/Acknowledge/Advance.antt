-- ===== src/Weights/Acknowledge/Advance.antt =====
-- The versions that engines are on, and `Acknowledge` of control-plane/weights/service.go.
use skyscale.Prelude.{
  ℕ, ◌≡◌, ◌⊎◌, refl, sym, subst, inl, inr, String, Bool, true, false, ◌&&◌, ◌==◌, [], ◌∷◌, Dict,
  lookup, insert, adjust, length, Option, none, some, arith, eq_iff, eqb, ltb, leb, Text-cases,
  Option-cases, Bool-cases, Result, lookup-insert, lookup-adjust,
}
use mathlib.Core.Option
use skyscale.Weights.Types.{EngineState, Publication, RunState, WeightError}
use skyscale.Weights.Stores.{Outcome, saves, leaves}
use skyscale.Weights.Acknowledge.{
  acknowledge_in, consider, rejoin, accept, activate, release_engines, applied, accepts_acks,
  is_true,
}

-- The version that a registered engine is on.
abbrev pub on_version : String → Dict EngineState → Option String
on_version id engines = Option.map (λ (e : EngineState). e.current_version) (lookup id engines)

release_engines-on_version :
    (version id : String) (required : Dict Bool) (engines : Dict EngineState)
    → on_version id (release_engines version required engines) ≡ on_version id engines
unfolding release_engines
release_engines-on_version version id [] engines = refl
release_engines-on_version version id ((k, b) ∷ required) engines =
    let release : EngineState → EngineState =
      λ e. record e { desired_version = version; draining = false } in
    let rest = release_engines-on_version version id required (adjust k release engines) in
    let here : on_version id (adjust k release engines) ≡ on_version id engines =
      elim (Option-cases (lookup id engines)) [
        | inl e ↦ ground (arith, lookup-adjust k id release engines)
        | inr (f, e) ↦ ground (arith, lookup-adjust k id release engines)
      ] in
    cc (rest, here)

-- An acknowledgement in time of what the publication's checksum says.
pub record Confirms (now : ℕ) (id v checksum : String) (state : RunState) : Type 0 where
  pub publication : Publication
  pub published_here : lookup v state.publications ≡ some publication
  pub intact : checksum ≡ publication.result_sha256
  pub expected :
      ((state.active ≡ v)
        × (Option.map (λ (e : EngineState). e.desired_version) (lookup id state.engines) ≡ some v))
      ⊎ ((lookup id publication.required ≡ some true) × (leb now publication.deadline ≡ true))

-- What a step may do to the version of an engine `j`.
abbrev Moves : ℕ → String → String → String → RunState → Outcome Bool → Type 0
Moves now id v checksum state o =
    (state' : RunState) (r : Result WeightError Bool) (j : String)
    → o ≡ saves state' r
    → (on_version j state'.engines ≡ on_version j state.engines)
      ⊎ ((j ≡ id) × (on_version j state'.engines ≡ some v) × Confirms now id v checksum state)

-- An engine is written that is on the version that it was on.
on_version-same :
    (j id : String) (e e' : EngineState) (engines : Dict EngineState)
    → lookup id engines ≡ some e
    → e'.current_version ≡ e.current_version
    → on_version j (insert id e' engines) ≡ on_version j engines
on_version-same j id e e' engines found same = elim (Text-cases id j) [
  | inl i ↦
      let before : lookup j engines ≡ some e = rw i at found in
      let after : lookup j (insert id e' engines) ≡ some e' =
        ground (arith, lookup-insert id j e' engines, eq_iff id j) in
      rw (before, after, same) refl
  | inr other ↦
      let after : lookup j (insert id e' engines) ≡ lookup j engines =
        ground (arith, lookup-insert id j e' engines, eq_iff id j) in
      rw after refl
]

-- An engine is written that is on `v` now.
on_version-new :
    (j id v : String) (e' : EngineState) (engines : Dict EngineState)
    → e'.current_version ≡ v
    → (on_version j (insert id e' engines) ≡ on_version j engines)
      ⊎ ((j ≡ id) × (on_version j (insert id e' engines) ≡ some v))
on_version-new j id v e' engines now_on = elim (Text-cases id j) [
  | inl i ↦
      let after : lookup j (insert id e' engines) ≡ some e' =
        ground (arith, lookup-insert id j e' engines, eq_iff id j) in
      inr (sym i, rw (after, now_on) refl)
  | inr other ↦
      let after : lookup j (insert id e' engines) ≡ lookup j engines =
        ground (arith, lookup-insert id j e' engines, eq_iff id j) in
      inl (rw after refl)
]

-- What is saved has these engines.
Moves-saves :
    (now : ℕ) (id v checksum : String) (state saved : RunState) (r : Result WeightError Bool)
    → ((j : String)
        → (on_version j saved.engines ≡ on_version j state.engines)
          ⊎ ((j ≡ id) × (on_version j saved.engines ≡ some v) × Confirms now id v checksum state))
    → Moves now id v checksum state (saves saved r)
Moves-saves now id v checksum state saved r moves state' r' j e =
    let same : saved ≡ state' = cc in
    subst
      (λ s.
        (on_version j s.engines ≡ on_version j state.engines)
        ⊎ ((j ≡ id) × (on_version j s.engines ≡ some v) × Confirms now id v checksum state))
      same (moves j)

Moves-leaves :
    (now : ℕ) (id v checksum : String) (state : RunState) (r : Result WeightError Bool)
    → Moves now id v checksum state (leaves r)
Moves-leaves now id v checksum state r state' r' j e = absurd (cc)

confirmed : {S A B C : Type 0} → S ⊎ (A × B) → C → S ⊎ (A × B × C)
confirmed (inl s) c = inl s
confirmed (inr (a, b)) c = inr (a, b, c)

required_true : (b : Option Bool) → is_true b ≡ true → b ≡ some true
required_true none h = absurd (ground arith)
required_true (some b) h = cc

accept-Moves :
    (now : ℕ) (id v checksum : String) (p : Publication) (engine : EngineState) (state : RunState)
    → Confirms now id v checksum state
    → Moves now id v checksum state (accept now id v p engine state)
unfolding accept activate
accept-Moves now id v checksum p engine state c =
    let engines' = insert id (applied v now engine) state.engines in
    elim (Bool-cases (eqb (length (insert id now p.acks)) (length p.required))) [
      | inr some_missing ↦
          rw (accept, some_missing)
            (Moves-saves now id v checksum state _ _
              (λ j. confirmed (on_version-new j id v (applied v now engine) state.engines refl) c))
      | inl complete ↦
          rw (accept, complete)
            (Moves-saves now id v checksum state _ _ (λ j.
              rw (release_engines-on_version v j p.required engines')
                (confirmed (on_version-new j id v (applied v now engine) state.engines refl) c)))
    ]

consider-Moves :
    (now : ℕ) (id v checksum : String) (p : Publication) (engine : EngineState) (state : RunState)
    → lookup v state.publications ≡ some p
    → lookup id state.engines ≡ some engine
    → Moves now id v checksum state (consider now id v checksum p engine state)
unfolding consider rejoin
consider-Moves now id v checksum p engine state found at =
    elim (Bool-cases (state.active == v && engine.desired_version == v)) [
      | inl back ↦ elim (Bool-cases (checksum == p.result_sha256)) [
        | inr bad ↦
            rw (back, consider, bad)
              (Moves-saves now id v checksum state _ _
                (λ j. inl (on_version-same j id engine _ state.engines at refl)))
        | inl good ↦
            let c : Confirms now id v checksum state = record {
              publication = p;
              published_here = found;
              intact = (eq_iff checksum p.result_sha256).0 good;
              expected =
                  inl (ground (arith, eq_iff state.active v, eq_iff engine.desired_version v));
            } in
            rw (back, consider, good)
              (Moves-saves now id v checksum state _ _
                (λ j. confirmed (on_version-new j id v _ state.engines refl) c))
      ]
      | inr new ↦ elim (Bool-cases (is_true (lookup id p.required))) [
        | inr stranger ↦ rw (new, consider, stranger) (Moves-leaves now id v checksum state _)
        | inl r ↦ elim (Bool-cases (accepts_acks p.state)) [
          | inr unready ↦ rw (new, consider, r, unready) (Moves-leaves now id v checksum state _)
          | inl accepting ↦ elim (Bool-cases (ltb p.deadline now)) [
            | inl late ↦
                rw (new, consider, r, accepting, late)
                  (Moves-saves now id v checksum state _ _
                    (λ j. inl (on_version-same j id engine _ state.engines at refl)))
            | inr in_time ↦ elim (Bool-cases (checksum == p.result_sha256)) [
              | inr bad ↦
                  rw (new, consider, r, accepting, in_time, bad)
                    (Moves-saves now id v checksum state _ _
                      (λ j. inl (on_version-same j id engine _ state.engines at refl)))
              | inl good ↦
                  rw (new, consider, r, accepting, in_time, good)
                    (accept-Moves now id v checksum p engine state (record {
                      publication = p;
                      published_here = found;
                      intact = (eq_iff checksum p.result_sha256).0 good;
                      expected = inr (required_true (lookup id p.required) r, ground arith);
                    }))
            ]
          ]
        ]
      ]
    ]

-- Where `Acknowledge` saves a state, every engine of the run is on the version that it was on, but
-- for the acknowledging one, which may be on the acknowledged version: only if the version is
-- published, the applied checksum is its result's, and either the run is on that version and the
-- engine is to go to it, or the publication requires the engine and its deadline is not over.
pub acknowledge_in-Moves :
    (now : ℕ) (id v checksum : String) (state state' : RunState) (r : Result WeightError Bool)
    (j : String)
    → acknowledge_in now id v checksum state ≡ saves state' r
    → (on_version j state'.engines ≡ on_version j state.engines)
      ⊎ ((j ≡ id) × (on_version j state'.engines ≡ some v) × Confirms now id v checksum state)
unfolding acknowledge_in
acknowledge_in-Moves now id v checksum state state' r j h =
    elim (Option-cases (lookup v state.publications)) [
      | inl e ↦ absurd (ground arith)
      | inr (p, found) ↦ elim (Option-cases (lookup id state.engines)) [
        | inl e ↦ absurd (ground arith)
        | inr (engine, at) ↦
            consider-Moves now id v checksum p engine state found at state' r j
              (rw (found, acknowledge_in, at) at h)
      ]
    ]
