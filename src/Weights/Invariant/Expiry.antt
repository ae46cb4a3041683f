-- ===== src/Weights/Invariant/Expiry.antt =====
-- `Expire` of control-plane/weights/service.go, and the state's invariant.
use skyscale.Prelude.{
  ℕ, ◌≡◌, refl, inl, inr, String, Bool, ◌==◌, [], ◌∷◌, Dict, lookup, adjust, some, Within,
  Bool-cases,
}
use skyscale.Weights.Types.{EngineState, Publication, RunState, failed}
use skyscale.Weights.Lifecycle.{
  expire_in, expire_all, time_out_missing, time_out, is_missing, is_overdue, fallback,
}
use skyscale.Weights.Invariant.{AllSound, WellFormed, SavesWellFormed, saved}
use skyscale.Weights.Invariant.Publications.{
  AllSound-Within, KeepsUnanimous, Agreed-Keeps, Within-adjust,
}

time_out_missing-Within :
    (version : String) (acks : Dict ℕ) (required : Dict Bool) (engines : Dict EngineState)
    → Within engines (time_out_missing version acks required engines)
unfolding time_out_missing
time_out_missing-Within version acks [] engines = λ k missing. missing
time_out_missing-Within version acks ((id, b) ∷ required) engines =
    elim (Bool-cases (is_missing (lookup id acks))) [
      | inl late ↦
          rw (late, time_out_missing)
            (λ k missing. Within-adjust id (time_out version) engines k (
              time_out_missing-Within version acks required (adjust id (time_out version) engines) k
                missing))
      | inr came ↦
          rw (came, time_out_missing) (time_out_missing-Within version acks required engines)
    ]

-- What one run of the outer loop over `m` makes of the publications and the engines.
record Expiry (m m' : Dict Publication) (engines engines' : Dict EngineState) : Type 0 where
  stays : Within engines engines'
  sound : AllSound engines m → AllSound engines' m'
  keeps : KeepsUnanimous m m'

-- The head is kept, or marked; its acknowledgements stay.
Expiry-head :
    (v : String) (p p' : Publication) (m m' : Dict Publication)
    (engines between engines' : Dict EngineState)
    → Within engines between
    → p'.acks ≡ p.acks
    → p'.required ≡ p.required
    → Expiry m m' between engines'
    → Expiry ((v, p) ∷ m) ((v, p') ∷ m') engines engines'
unfolding lookup
Expiry-head v p p' m m' engines between engines' w a r rest = record {
  stays = λ k missing. w k (rest.stays k missing);
  sound = λ s. (
    record {
      one_each = rw a s.0.one_each;
      from_required = rw (a, r) s.0.from_required;
      registered = rw r (λ k missing. s.0.registered k (w k (rest.stays k missing)));
    },
    rest.sound (AllSound-Within engines between m w s.1),
  );
  keeps = λ u q found all. elim (Bool-cases (v == u)) [
    | inl same ↦ (
      p',
      rw (same, lookup) refl,
      (let one : some p ≡ some q = rw (same, lookup) at found in
          let body : p ≡ q = cc in rw (a, r, body) all),
    )
    | inr other ↦
        let (q', found', all') = rest.keeps u q (rw (other, lookup) at found) all in
        (q', rw (other, lookup) found', all')
  ];
}

expire_all-Expiry :
    (now : ℕ) (version : String) (m : Dict Publication) (engines : Dict EngineState)
    → Expiry m (expire_all now version m engines).0 engines (expire_all now version m engines).1
unfolding expire_all
expire_all-Expiry now version [] engines = record {
  stays = λ k missing. missing;
  sound = λ s. s;
  keeps = λ v p found u. (p, found, u);
}
expire_all-Expiry now version ((v, p) ∷ m) engines = elim (Bool-cases (is_overdue now p)) [
  | inl late ↦
      let engines' = time_out_missing version p.acks p.required engines in
      rw (late, expire_all)
        (Expiry-head v p (record p { state = failed }) m _ engines engines' _
          (time_out_missing-Within version p.acks p.required engines) refl refl
          (expire_all-Expiry now version m engines'))
  | inr in_time ↦
      rw (in_time, expire_all)
        (Expiry-head v p p m _ engines engines _ (λ k missing. missing) refl refl
          (expire_all-Expiry now version m engines))
]

pub expire_in-WellFormed :
    (now : ℕ) (state : RunState) → WellFormed state → SavesWellFormed (expire_in now state)
unfolding expire_in
expire_in-WellFormed now state i =
    let e = expire_all-Expiry now (fallback state) state.publications state.engines in
    saved (record {
      publications = e.sound i.publications;
      active = Agreed-Keeps _ _ state.active e.keeps i.active;
      last_good = Agreed-Keeps _ _ state.last_good e.keeps i.last_good;
    })
