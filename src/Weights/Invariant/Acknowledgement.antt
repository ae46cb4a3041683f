-- ===== src/Weights/Invariant/Acknowledgement.antt =====
-- `Acknowledge` of control-plane/weights/service.go, and the state's invariant.
use skyscale.Prelude.{
  ℕ, ◌≡◌, inl, inr, String, Bool, true, ◌&&◌, ◌==◌, [], ◌∷◌, Dict, lookup, insert, adjust, length,
  some, Within, Within-all, insert-Distinct, arith, eq_iff, eqb, ltb, Option-cases, Bool-cases,
  lookup-insert,
}
use skyscale.Weights.Types.{EngineState, Publication, RunState, active, activating, failed}
use skyscale.Weights.Acknowledge.{
  acknowledge_in, consider, rejoin, accept, activate, release_engines, retire, applied,
  accepts_acks, is_true, supersede,
}
use skyscale.Weights.Invariant.{
  Sound, AllSound, Unanimous, Agreed, agreed, WellFormed, SavesWellFormed, saved, left,
}
use skyscale.Weights.Invariant.Publications.{
  Sound-Within, AllSound-Within, AllSound-lookup, AllSound-insert, AllSound-adjust, KeepsUnanimous,
  Agreed-Keeps, KeepsUnanimous-insert, KeepsUnanimous-adjust, Within-insert, Within-adjust,
}

-- A publication and an engine are written.
with_publication :
    (state : RunState) (v id : String) (p : Publication) (engine : EngineState)
    → ((q : Publication) → lookup v state.publications ≡ some q → Unanimous q → Unanimous p)
    → Sound state.engines p
    → WellFormed state
    → WellFormed (record state {
      publications = insert v p state.publications;
      engines = insert id engine state.engines;
    })
with_publication state v id p engine grows s i =
    let w = Within-insert id engine state.engines in
    let keeps = KeepsUnanimous-insert state.publications v p grows in
    record {
      publications =
          AllSound-Within state.engines _ _ w
            (AllSound-insert state.engines state.publications v p i.publications s);
      active = Agreed-Keeps _ _ state.active keeps i.active;
      last_good = Agreed-Keeps _ _ state.last_good keeps i.last_good;
    }

with_engine :
    (state : RunState) (id : String) (engine : EngineState)
    → WellFormed state
    → WellFormed (record state { engines = insert id engine state.engines })
with_engine state id engine i = record {
  publications =
      AllSound-Within state.engines _ state.publications (Within-insert id engine state.engines)
        i.publications;
  active = i.active;
  last_good = i.last_good;
}

-- A count that is the number of required engines is every one of them.
pub Sound-Unanimous :
    (engines : Dict EngineState) (p : Publication)
    → Sound engines p
    → eqb (length p.acks) (length p.required) ≡ true
    → Unanimous p
Sound-Unanimous engines p s e k missing = elim (Option-cases (lookup k p.required)) [
  | inl gone ↦ gone
  | inr (b, found) ↦
      absurd
        (Within-all p.acks p.required s.one_each s.from_required (ground arith) k b found missing)
]

-- An acknowledgement of a required engine.
Sound-acked :
    (engines : Dict EngineState) (p : Publication) (id : String) (now : ℕ)
    → is_true (lookup id p.required) ≡ true
    → Sound engines p
    → Sound engines (record p { state = activating; acks = insert id now p.acks })
Sound-acked engines p id now r s = record {
  one_each = insert-Distinct id now p.acks s.one_each;
  from_required = λ k missing.
      ground (arith, lookup-insert id k now p.acks, eq_iff id k, s.from_required k missing);
  registered = s.registered;
}

Unanimous-acked :
    (p : Publication) (id : String) (now : ℕ)
    → Unanimous p
    → Unanimous (record p { state = activating; acks = insert id now p.acks })
Unanimous-acked p id now u k missing = u k (Within-insert id now p.acks k missing)

release_engines-Within :
    (version : String) (required : Dict Bool) (engines : Dict EngineState)
    → Within engines (release_engines version required engines)
unfolding release_engines
release_engines-Within version [] engines = λ k missing. missing
release_engines-Within version ((id, b) ∷ required) engines =
    λ k missing. Within-adjust id _ engines k (release_engines-Within version required _ k missing)

-- The previous version gives way, and the new one is written.
retire-keeps :
    (old v : String) (p : Publication) (m : Dict Publication)
    → Unanimous p
    → KeepsUnanimous m (insert v (record p { state = active }) (retire old v m))
retire-keeps old v p m all w q found u = elim (Bool-cases (old == v)) [
  | inl same ↦
      rw same (KeepsUnanimous-insert m v (record p { state = active }) (λ r _ _. all) w q found u)
  | inr other ↦
      let (q', found', u') = KeepsUnanimous-adjust m old supersede (λ r ur. ur) w q found u in
      rw other (
        KeepsUnanimous-insert (adjust old supersede m) v (record p { state = active })
          (λ r _ _. all) w q' found' u')
]

retire-AllSound :
    (engines : Dict EngineState) (old v : String) (m : Dict Publication)
    → AllSound engines m
    → AllSound engines (retire old v m)
retire-AllSound engines old v m s = elim (Bool-cases (old == v)) [
  | inl same ↦ rw same s
  | inr other ↦ rw other (
      AllSound-adjust engines m old supersede
        (λ p sp. record {
          one_each = sp.one_each;
          from_required = sp.from_required;
          registered = sp.registered;
        })
        s)
]

activate-WellFormed :
    (v : String) (p : Publication) (state : RunState)
    → Sound state.engines p
    → Unanimous p
    → WellFormed state
    → WellFormed (activate v p state)
unfolding activate
activate-WellFormed v p state s u i =
    let engines' = release_engines v p.required state.engines in
    let w = release_engines-Within v p.required state.engines in
    let p' : Publication = record p { state = active } in
    let m' = insert v p' (retire state.active v state.publications) in
    let keeps : KeepsUnanimous state.publications m' =
      retire-keeps state.active v p state.publications u in
    let now_active : Agreed m' v =
      agreed p'
        (ground
          (arith, lookup-insert v v p' (retire state.active v state.publications), eq_iff v v))
        u in
    let sound : Sound state.engines p' = record {
      one_each = s.one_each;
      from_required = s.from_required;
      registered = s.registered;
    } in
    record {
      publications = AllSound-Within state.engines engines' m' w (
          AllSound-insert state.engines (retire state.active v state.publications) v p'
            (retire-AllSound state.engines state.active v state.publications i.publications) sound);
      active = now_active;
      last_good = elim (Bool-cases (state.last_good == "")) [
        | inl first ↦ rw first now_active
        | inr later ↦ rw later (Agreed-Keeps _ _ state.last_good keeps i.last_good)
      ];
    }

accept-WellFormed :
    (now : ℕ) (id v : String) (p : Publication) (engine : EngineState) (state : RunState)
    → lookup v state.publications ≡ some p
    → is_true (lookup id p.required) ≡ true
    → WellFormed state
    → SavesWellFormed (accept now id v p engine state)
unfolding accept
accept-WellFormed now id v p engine state found r i =
    let p' : Publication = record p { state = activating; acks = insert id now p.acks } in
    let engine' = applied v now engine in
    let s : Sound state.engines p' =
      Sound-acked state.engines p id now r
        (AllSound-lookup state.engines state.publications v p i.publications found) in
    let i' =
      with_publication state v id p' engine'
        (λ q found' u.
          Unanimous-acked p id now
            (let one : some q ≡ some p = cc in let body : q ≡ p = cc in rw (← body) u))
        s i in
    elim (Bool-cases (eqb (length p'.acks) (length p'.required))) [
      | inr some_missing ↦ rw (some_missing, accept) (saved i')
      | inl complete ↦
          rw (complete, accept)
            (saved (
              activate-WellFormed v p' _
                (Sound-Within state.engines _ p' (Within-insert id engine' state.engines) s)
                (Sound-Unanimous state.engines p' s complete) i'))
    ]

late-WellFormed :
    (v id : String) (p : Publication) (engine : EngineState) (state : RunState)
    → lookup v state.publications ≡ some p
    → WellFormed state
    → WellFormed (record state {
      publications = insert v (record p { state = failed }) state.publications;
      engines = insert id engine state.engines;
    })
late-WellFormed v id p engine state found i =
    let s = AllSound-lookup state.engines state.publications v p i.publications found in
    with_publication state v id (record p { state = failed }) engine
      (λ q found' u. let one : some q ≡ some p = cc in let body : q ≡ p = cc in rw (← body) u)
      (record { one_each = s.one_each; from_required = s.from_required; registered = s.registered })
      i

consider-WellFormed :
    (now : ℕ) (id v checksum : String) (p : Publication) (engine : EngineState) (state : RunState)
    → lookup v state.publications ≡ some p
    → WellFormed state
    → SavesWellFormed (consider now id v checksum p engine state)
unfolding consider rejoin
consider-WellFormed now id v checksum p engine state found i =
    elim (Bool-cases (state.active == v && engine.desired_version == v)) [
      | inl back ↦ elim (Bool-cases (checksum == p.result_sha256)) [
        | inl good ↦ rw (back, consider, good) (saved (with_engine state id _ i))
        | inr bad ↦ rw (back, consider, bad) (saved (with_engine state id _ i))
      ]
      | inr new ↦ elim (Bool-cases (is_true (lookup id p.required))) [
        | inr stranger ↦ rw (new, consider, stranger) left
        | inl r ↦ elim (Bool-cases (accepts_acks p.state)) [
          | inr unready ↦ rw (new, consider, r, unready) left
          | inl opened ↦ elim (Bool-cases (ltb p.deadline now)) [
            | inl late ↦
                rw (new, consider, r, opened, late) (saved (late-WellFormed v id p _ state found i))
            | inr in_time ↦ elim (Bool-cases (checksum == p.result_sha256)) [
              | inr bad ↦
                  rw (new, consider, r, opened, in_time, bad) (saved (with_engine state id _ i))
              | inl good ↦
                  rw (new, consider, r, opened, in_time, good)
                    (accept-WellFormed now id v p engine state found r i)
            ]
          ]
        ]
      ]
    ]

pub acknowledge_in-WellFormed :
    (now : ℕ) (id v checksum : String) (state : RunState)
    → WellFormed state
    → SavesWellFormed (acknowledge_in now id v checksum state)
unfolding acknowledge_in
acknowledge_in-WellFormed now id v checksum state i =
    elim (Option-cases (lookup v state.publications)) [
      | inl e ↦ rw (e, acknowledge_in) left
      | inr (p, found) ↦ elim (Option-cases (lookup id state.engines)) [
        | inl e ↦ rw (found, acknowledge_in, e) left
        | inr (engine, e) ↦
            rw (found, acknowledge_in, e)
              (consider-WellFormed now id v checksum p engine state found i)
      ]
    ]
