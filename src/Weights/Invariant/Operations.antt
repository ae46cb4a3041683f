-- ===== src/Weights/Invariant/Operations.antt =====
-- `RegisterEngine`, `Publish`, `MarkGood` and `Rollback` of control-plane/weights/service.go, and the
-- state's invariant.
use skyscale.Prelude.{
  ℕ, ◌≡◌, refl, inl, inr, String, Bool, true, not, ◌&&◌, ◌==◌, List, [], ◌∷◌, Dict, lookup, insert,
  adjust, none, Within, arith, eq_iff, Option-cases, Bool-cases, ok, lookup-insert, Result-cases,
}
use skyscale.Weights.Types.{EngineState, Publication, RunState, Manifest, rolled_back}
use skyscale.Weights.Publish.{
  register_in, new_engine, publish_in, require_engines, publication_of, delta_problem,
}
use skyscale.Weights.Lifecycle.{mark_good_in, rollback_in}
use skyscale.Weights.Invariant.{WellFormed, SavesWellFormed, saved, left}
use skyscale.Weights.Invariant.Publications.{
  AllSound-Within, AllSound-insert, AllSound-adjust, KeepsUnanimous, Agreed-Keeps,
  KeepsUnanimous-insert, KeepsUnanimous-adjust, Within-insert, Within-map_values,
}

-- The engines change, and stay registered.
with_engines :
    (state : RunState) (engines : Dict EngineState)
    → Within state.engines engines
    → WellFormed state
    → WellFormed (record state { engines = engines })
with_engines state engines w i = record {
  publications = AllSound-Within state.engines engines state.publications w i.publications;
  active = i.active;
  last_good = i.last_good;
}

pub register_in-WellFormed :
    (id version : String) (state : RunState)
    → WellFormed state
    → SavesWellFormed (register_in id version state)
unfolding register_in new_engine
register_in-WellFormed id version state i = elim (Option-cases (lookup id state.engines)) [
  | inl e ↦
      rw (e, register_in)
        (saved (with_engines state _ (Within-insert id (new_engine id version) state.engines) i))
  | inr (engine, e) ↦ elim (Bool-cases (engine.current_version == "" && not (version == ""))) [
    | inl joins ↦
        rw (e, register_in, joins)
          (saved (
            with_engines state _
              (Within-insert id
                (record engine { current_version = version; last_good_version = version })
                state.engines)
              i))
    | inr stays ↦ rw (e, register_in, stays) (saved i)
  ]
]

-- What the loop over the required engines returns.
record Required (required required' : Dict Bool) (engines engines' : Dict EngineState)
    : Type 0 where
  registered : Within required' engines'
  stays : Within engines engines'

require_engines-Required :
    (version : String) (ids : List String) (required required' : Dict Bool)
    (engines engines' : Dict EngineState)
    → Within required engines
    → require_engines version ids required engines ≡ ok (required', engines')
    → Required required required' engines engines'
unfolding require_engines
require_engines-Required version [] required required' engines engines' w done =
    let r : required ≡ required' = cc in
    let e : engines ≡ engines' = cc in
    record { registered = rw (← r, ← e) w; stays = rw (← e) (λ k missing. missing) }
require_engines-Required version (id ∷ ids) required required' engines engines' w done =
    elim (Option-cases (lookup id engines)) [
      | inl e ↦ absurd (ground arith)
      | inr (engine, e) ↦
          let engine' : EngineState = record engine {
            desired_version = version;
            draining = true;
          } in
          let rest =
            require_engines-Required version ids (insert id true required) required'
              (insert id engine' engines) engines'
              (λ k missing.
                ground (
                  arith,
                  lookup-insert id k engine' engines,
                  lookup-insert id k true required,
                  w k,
                ))
              (rw (e, require_engines) at done) in
          record {
            registered = rest.registered;
            stays = λ k missing. Within-insert id engine' engines k (rest.stays k missing);
          }
    ]

-- A new publication, which nobody has acknowledged, of engines that are registered.
publish_in-stores :
    (manifest : Manifest) (deadline : ℕ) (hash : String) (state : RunState) (required : Dict Bool)
    (engines : Dict EngineState)
    → lookup manifest.version state.publications ≡ none
    → Within state.engines engines
    → Within required engines
    → WellFormed state
    → WellFormed (record state {
      engines = engines;
      publications =
          insert manifest.version
            (publication_of manifest required deadline hash)
            state.publications;
    })
unfolding lookup
publish_in-stores manifest deadline hash state required engines new w r i =
    let p = publication_of manifest required deadline hash in
    let keeps : KeepsUnanimous state.publications (insert manifest.version p state.publications) =
      KeepsUnanimous-insert state.publications manifest.version p
        (λ q found. absurd (ground arith)) in
    record {
      publications =
          AllSound-insert engines state.publications manifest.version p
            (AllSound-Within state.engines engines state.publications w i.publications)
            (record { one_each = tt; from_required = λ k missing. refl; registered = r });
      active = Agreed-Keeps _ _ state.active keeps i.active;
      last_good = Agreed-Keeps _ _ state.last_good keeps i.last_good;
    }

pub publish_in-WellFormed :
    (manifest : Manifest) (ids : List String) (deadline : ℕ) (hash : String) (state : RunState)
    → WellFormed state
    → SavesWellFormed (publish_in manifest ids deadline hash state)
unfolding publish_in lookup
publish_in-WellFormed manifest ids deadline hash state i =
    elim (Option-cases (lookup manifest.version state.publications)) [
      | inr (existing, e) ↦ elim (Bool-cases (existing.artifact_sha256 == hash)) [
        | inl same ↦ rw (e, publish_in, same) left
        | inr other ↦ rw (e, publish_in, other) left
      ]
      | inl new ↦ elim (Option-cases (delta_problem manifest state)) [
        | inr (problem, e) ↦ rw (new, publish_in, e) left
        | inl fine ↦
            rw (new, publish_in, fine)
              (elim (Result-cases (require_engines manifest.version ids [] state.engines)) [
                | inl (e, failed') ↦ rw failed' left
                | inr ((required, engines), done) ↦
                    let r =
                      require_engines-Required manifest.version ids [] required state.engines
                        engines (λ k missing. refl) done in
                    rw done (
                      saved (
                        publish_in-stores manifest deadline hash state required engines new r.stays
                          r.registered i))
              ])
      ]
    ]

pub mark_good_in-WellFormed :
    (version : String) (state : RunState)
    → WellFormed state
    → SavesWellFormed (mark_good_in version state)
unfolding mark_good_in
mark_good_in-WellFormed version state i = elim (Bool-cases (state.active == version)) [
  | inr other ↦ rw (other, mark_good_in) left
  | inl same ↦
      let e : state.active ≡ version = (eq_iff state.active version).0 same in
      rw (same, mark_good_in)
        (saved (record {
          publications =
              AllSound-Within state.engines _ state.publications (Within-map_values _ state.engines)
                i.publications;
          active = i.active;
          last_good = rw (← e) i.active;
        }))
]

pub rollback_in-WellFormed :
    (reason : String) (state : RunState)
    → WellFormed state
    → SavesWellFormed (rollback_in reason state)
unfolding rollback_in
rollback_in-WellFormed reason state i = elim (Bool-cases (state.last_good == "")) [
  | inl none_good ↦ rw (none_good, rollback_in) left
  | inr good ↦
      let withdraw : Publication → Publication = λ p. record p { state = rolled_back } in
      let keeps : KeepsUnanimous state.publications
          (adjust state.active withdraw state.publications) =
        KeepsUnanimous-adjust state.publications state.active withdraw (λ p u. u) in
      rw (good, rollback_in)
        (saved (record {
          publications =
              AllSound-adjust _ state.publications state.active withdraw
                (λ p s. record {
                  one_each = s.one_each;
                  from_required = s.from_required;
                  registered = s.registered;
                })
                (AllSound-Within state.engines _ state.publications
                  (Within-map_values _ state.engines) i.publications);
          active = Agreed-Keeps _ _ state.last_good keeps i.last_good;
          last_good = Agreed-Keeps _ _ state.last_good keeps i.last_good;
        }))
]
