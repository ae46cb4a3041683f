-- ===== src/Weights/Lifecycle/Rollback.antt =====
-- `Rollback` of control-plane/weights/service.go, and the acknowledgements that follow it.
use skyscale.Prelude.{
  ℕ, ◌≡◌, ◌≢◌, refl, inl, inr, String, true, false, ◌==◌, lookup, insert, map_values, none, some,
  arith, eq_refl, Option-cases, Bool-cases, ok, lookup-insert, lookup-map_values,
}
use skyscale.Weights.Types.{EngineState, EngineInstruction, Publication, RunState}
use skyscale.Weights.Stores.{saves}
use skyscale.Weights.Lifecycle.{rollback_in, engine_instruction, instruction_for}
use skyscale.Weights.Acknowledge.{acknowledge_in, consider, rejoin, applied}

-- What a rollback does to an engine.
abbrev sent_to : String → String → EngineState → EngineState
sent_to version reason e = record e { desired_version = version; error = reason; draining = true }

-- The run is on the last good version, and every engine is to go to it.
record RolledBack (reason : String) (state state' : RunState) (v : String) : Type 0 where
  version : v ≡ state.last_good
  active : state'.active ≡ state.last_good
  sent : state'.engines ≡ map_values (sent_to state.last_good reason) state.engines

rollback_in-RolledBack :
    (reason v : String) (state state' : RunState)
    → rollback_in reason state ≡ saves state' (ok v)
    → RolledBack reason state state' v
unfolding rollback_in
rollback_in-RolledBack reason v state state' h = elim (Bool-cases (state.last_good == "")) [
  | inl blank ↦ absurd (let bad = rw (blank, rollback_in) at h in cc)
  | inr good ↦
      let done = rw (good, rollback_in) at h in
      record { version = cc (done); active = cc (done); sent = cc (done) }
]

-- What the instruction of an engine says, where there is a publication for it.
record Instructs (state : RunState) (id : String) (i : EngineInstruction) : Type 0 where
  engine : EngineState
  publication : Publication
  registered : lookup id state.engines ≡ some engine
  desired : i.desired_version ≡ engine.desired_version
  present : lookup engine.desired_version state.publications ≡ some publication
  sha : i.sha256 ≡ publication.result_sha256

engine_instruction-Instructs :
    (state : RunState) (id : String) (i : EngineInstruction)
    → engine_instruction id state ≡ ok i
    → i.manifest ≢ none
    → Instructs state id i
unfolding engine_instruction
engine_instruction-Instructs state id i h there = elim (Option-cases (lookup id state.engines)) [
  | inl e ↦ absurd (let bad = rw (e, engine_instruction) at h in cc)
  | inr (engine, e) ↦
      let told : ok (instruction_for engine (lookup engine.desired_version state.publications))
          ≡ ok i =
        rw (e, engine_instruction) at h in
      elim (Option-cases (lookup engine.desired_version state.publications)) [
        | inl gone ↦
            absurd
              (there (let blank : ok (instruction_for engine none) ≡ ok i = rw gone at told in cc))
        | inr (p, found) ↦
            let full : ok (instruction_for engine (some p)) ≡ ok i = rw found at told in
            record {
              engine = engine;
              publication = p;
              registered = e;
              desired = cc;
              present = found;
              sha = cc;
            }
      ]
]

desired_after :
    (reason id : String) (state state' : RunState) (v : String) (e : EngineState)
    → RolledBack reason state state' v
    → lookup id state'.engines ≡ some e
    → e.desired_version ≡ state.last_good
desired_after reason id state state' v e r found =
    let sent : lookup id (map_values (sent_to state.last_good reason) state.engines) ≡ some e =
      rw (r.sent) at found in
    let mapped = lookup-map_values id (sent_to state.last_good reason) state.engines in
    elim (Option-cases (lookup id state.engines)) [
      | inl gone ↦ absurd (ground arith)
      | inr (f, there) ↦
          let one : some (sent_to state.last_good reason f) ≡ some e = ground arith in
          let body : sent_to state.last_good reason f ≡ e = cc in rw (← body) refl
    ]

-- The engine after an acknowledgement that takes it back.
abbrev rejoined : ℕ → EngineState → EngineState
rejoined now e = record (applied e.desired_version now e) { draining = false }

acknowledge_in-rejoined :
    (now : ℕ) (id : String) (state : RunState) (p : Publication) (e : EngineState)
    → lookup e.desired_version state.publications ≡ some p
    → lookup id state.engines ≡ some e
    → state.active ≡ e.desired_version
    → acknowledge_in now id e.desired_version p.result_sha256 state
      ≡ saves (record state { engines = insert id (rejoined now e) state.engines }) (ok true)
unfolding acknowledge_in consider rejoin
acknowledge_in-rejoined now id state p e present registered on =
    let same : (state.active == e.desired_version) ≡ true = rw on (eq_refl e.desired_version) in
    rw
      (
        present,
        acknowledge_in,
        registered,
        consider,
        same,
        eq_refl e.desired_version,
        rejoin,
        eq_refl p.result_sha256,
      )
      refl

-- A rollback returns the version that was the last good one and makes it the active version, and an
-- engine that follows its instruction afterwards is taken back: where `EngineInstruction` has a
-- manifest for it, the version that it tells is the last good one, and acknowledging it with the
-- checksum that it tells succeeds, and leaves the engine on that version, serving, with no error.
pub rollback-rejoin :
    (now : ℕ) (reason v id : String) (state state' : RunState) (i : EngineInstruction)
    → rollback_in reason state ≡ saves state' (ok v)
    → engine_instruction id state' ≡ ok i
    → i.manifest ≢ none
    → (v ≡ state.last_good)
      × (state'.active ≡ state.last_good)
      × (i.desired_version ≡ state.last_good)
      × (state'' : RunState) × (e : EngineState) × (acknowledge_in now id i.desired_version i.sha256
            state'
          ≡ saves state'' (ok true))
      × (lookup id state''.engines ≡ some e)
      × (e.current_version ≡ state.last_good)
      × (e.draining ≡ false)
      × (e.error ≡ "")
rollback-rejoin now reason v id state state' i back told there =
    let r = rollback_in-RolledBack reason v state state' back in
    let t = engine_instruction-Instructs state' id i told there in
    let target : t.engine.desired_version ≡ state.last_good =
      desired_after reason id state state' v t.engine r t.registered in
    let back_on =
      acknowledge_in-rejoined now id state' t.publication t.engine t.present t.registered
        (cc (r.active, target)) in
    (
      r.version,
      r.active,
      cc (t.desired, target),
      record state' { engines = insert id (rejoined now t.engine) state'.engines },
      rejoined now t.engine,
      cc (t.desired, t.sha, back_on),
      ground (arith, lookup-insert id id (rejoined now t.engine) state'.engines, eq_refl id),
      target,
      refl,
      refl,
    )
