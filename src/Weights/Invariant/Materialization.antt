-- ===== src/Weights/Invariant/Materialization.antt =====
-- `Materialize` of control-plane/weights/service.go, and the state's invariant.
use skyscale.Prelude.{
  ℕ, zero, suc, ◌≡◌, refl, subst, inl, inr, String, ◌==◌, List, [], ◌∷◌, Dict, lookup, insert,
  Option, none, some, arith, eq_iff, contains, length, Text-cases, Option-cases, Bool-cases, Result,
  ok, err, Result-cases, lookup-insert,
}
use mathlib.Core.Option
use skyscale.Weights.Types.{Bytes, EngineState, Publication, RunState, WeightError, failed}
use skyscale.Weights.Stores.{fetch, put_immutable}
use skyscale.Weights.Materialize.{
  Depot, expected_checksum, materialized_key, cached, finish, combine, materialize_from,
  materialize_version, apply_xor_delta,
}
use skyscale.Weights.Materialize.Service.{mark_failed}
use skyscale.Weights.Invariant.{AllSound, WellFormed}
use skyscale.Weights.Invariant.Publications.{
  AllSound-lookup, AllSound-insert, KeepsUnanimous, Agreed-Keeps,
}

-- What a change of the publications has to keep.
pub record Tended (engines : Dict EngineState) (m m' : Dict Publication) : Type 0 where
  pub sound : AllSound engines m'
  pub keeps : KeepsUnanimous m m'

pub Tended-WellFormed :
    (state : RunState) (m : Dict Publication)
    → WellFormed state
    → Tended state.engines state.publications m
    → WellFormed (record state { publications = m })
Tended-WellFormed state m i t = record {
  publications = t.sound;
  active = Agreed-Keeps state.publications m state.active t.keeps i.active;
  last_good = Agreed-Keeps state.publications m state.last_good t.keeps i.last_good;
}

untouched :
    (engines : Dict EngineState) (m : Dict Publication) → AllSound engines m → Tended engines m m
untouched engines m s = record { sound = s; keeps = λ v p found u. (p, found, u) }

-- A publication is written over the one that `m` has, with the same engines and acknowledgements.
written :
    (engines : Dict EngineState) (v : String) (p p' : Publication) (m m' : Dict Publication)
    → lookup v m ≡ some p
    → p'.acks ≡ p.acks
    → p'.required ≡ p.required
    → AllSound engines m
    → Tended engines m m'
    → Tended engines m (insert v p' m')
written engines v p p' m m' found a r all t =
    let s = AllSound-lookup engines m v p all found in
    record {
      sound = AllSound-insert engines m' v p' t.sound (record {
        one_each = rw a s.one_each;
        from_required = rw (a, r) s.from_required;
        registered = rw r s.registered;
      });
      keeps = λ w q found' u. elim (Text-cases v w) [
        | inl e ↦ (
          p',
          ground (arith, lookup-insert v w p' m', eq_iff v w),
          (let same_key : lookup v m ≡ some q = rw e found' in
              let one : some p ≡ some q = cc in let body : p ≡ q = cc in rw (a, r, body) u),
        )
        | inr ne ↦
            let (q', there, u') = t.keeps w q found' u in
            (q', ground (arith, lookup-insert v w p' m', eq_iff v w), u')
      ];
    }

pub Tended-trans :
    (engines : Dict EngineState) (m m' m'' : Dict Publication)
    → Tended engines m m'
    → Tended engines m' m''
    → Tended engines m m''
Tended-trans engines m m' m'' t t' = record {
  sound = t'.sound;
  keeps = λ v p found u. let (p', found', u') = t.keeps v p found u in t'.keeps v p' found' u';
}

pub mark_failed-Tended :
    (engines : Dict EngineState) (v : String) (m m' : Dict Publication)
    → Tended engines m m'
    → Tended engines m (mark_failed v m')
mark_failed-Tended engines v m m' t = elim (Option-cases (lookup v m')) [
  | inl e ↦ rw (e, mark_failed) t
  | inr (p, found) ↦
      rw (found, mark_failed)
        (Tended-trans engines m m' _ t (
          written engines v p (record p { state = failed }) m' m' found refl refl t.sound
            (untouched engines m' t.sound)))
]

module _ (checksum : Bytes → String) (run_id : String) (engines : Dict EngineState) where
  finish-Tended :
      (v : String) (p : Publication) (result : Bytes) (m : Dict Publication) (depot : Depot)
      → lookup v m ≡ some p
      → AllSound engines m
      → Tended engines m depot.publications
      → Tended engines m (finish checksum run_id v p result depot).0.publications
  unfolding finish
  finish-Tended v p result m depot found s t =
      elim (Bool-cases (checksum result == expected_checksum p)) [
        | inr other ↦ rw (finish, other) t
        | inl same ↦
            elim (Result-cases (
              put_immutable checksum (materialized_key run_id v) result (expected_checksum p)
                depot.artifacts)) [
                  | inl (e, failed') ↦ rw (finish, same, failed') t
                  | inr (store, put) ↦
                      rw (finish, same, put)
                        (written engines v p _ m depot.publications found refl refl s t)
                ]
      ]

  combine-Tended :
      (v : String) (p : Publication) (artifact : Bytes) (m : Dict Publication)
      (r : Depot × Result WeightError Bytes)
      → lookup v m ≡ some p
      → AllSound engines m
      → Tended engines m r.0.publications
      → Tended engines m (combine checksum run_id v p artifact r).0.publications
  unfolding combine
  combine-Tended v p artifact m (depot, err e) found s t = t
  combine-Tended v p artifact m (depot, ok parent) found s t =
      elim (Result-cases (apply_xor_delta parent artifact)) [
        | inl (e, failed') ↦ rw (failed', combine) t
        | inr (result, done) ↦ rw (done, combine) (finish-Tended v p result m depot found s t)
      ]

  -- What a call that ends leaves.
  abbrev Leaves : Dict Publication → Option (Depot × Result WeightError Bytes) → Type 0
  Leaves m r =
      (d : Depot) (x : Result WeightError Bytes) → r ≡ some (d, x) → Tended engines m d.publications

  Leaves-some :
      (m : Dict Publication) (r : Depot × Result WeightError Bytes)
      → Tended engines m r.0.publications
      → Leaves m (some r)
  Leaves-some m r t d x e =
      let same : r ≡ (d, x) = cc in subst (λ q. Tended engines m q.0.publications) same t

  combine-Leaves :
      (v : String) (p : Publication) (artifact : Bytes) (m : Dict Publication)
      (inner : Option (Depot × Result WeightError Bytes))
      → lookup v m ≡ some p
      → AllSound engines m
      → Leaves m inner
      → Leaves m (Option.map (combine checksum run_id v p artifact) inner)
  combine-Leaves v p artifact m none found s l = λ d x e. absurd (ground arith)
  combine-Leaves v p artifact m (some r) found s l =
      Leaves-some m (combine checksum run_id v p artifact r)
        (combine-Tended v p artifact m r found s (l r.0 r.1 refl))

  materialize_from-Leaves :
      (fuel : ℕ) (v : String) (visiting : List String) (depot : Depot)
      → AllSound engines depot.publications
      → Leaves depot.publications (materialize_from checksum run_id fuel v visiting depot)
  unfolding materialize_from
  materialize_from-Leaves zero v visiting depot s = λ d x e. absurd (ground arith)
  materialize_from-Leaves (suc fuel) v visiting depot s =
      let m = depot.publications in
      let same : Tended engines m m = untouched engines m s in
      elim (Bool-cases (contains v visiting)) [
        | inl cycle ↦ rw (cycle, materialize_from) (Leaves-some m _ same)
        | inr fresh ↦ elim (Option-cases (lookup v m)) [
          | inl e ↦ rw (fresh, materialize_from, e) (Leaves-some m _ same)
          | inr (p, found) ↦ elim (Option-cases (cached checksum run_id p depot)) [
            | inr (hit, c) ↦ rw (fresh, materialize_from, found, c) (Leaves-some m _ same)
            | inl c ↦ elim (Result-cases (fetch p.manifest.artifact_uri depot.artifacts)) [
              | inl (e, gone) ↦ rw (fresh, materialize_from, found, c, gone) (Leaves-some m _ same)
              | inr (artifact, got) ↦ elim (Bool-cases (checksum artifact == p.artifact_sha256)) [
                | inr torn ↦
                    rw (fresh, materialize_from, found, c, got, torn) (Leaves-some m _ same)
                | inl whole ↦ elim (Bool-cases (p.manifest.format == "delta")) [
                  | inl delta ↦
                      rw (fresh, materialize_from, found, c, got, whole, delta)
                        (combine-Leaves v p artifact m _ found s (
                          materialize_from-Leaves fuel p.manifest.parent_version (v ∷ visiting)
                            depot s))
                  | inr full ↦
                      rw (fresh, materialize_from, found, c, got, whole, full)
                        (Leaves-some m _ (finish-Tended v p artifact m depot found s same))
                ]
              ]
            ]
          ]
        ]
      ]

  pub materialize_version-Tended :
      (v : String) (depot d : Depot) (x : Result WeightError Bytes)
      → AllSound engines depot.publications
      → materialize_version checksum run_id v depot ≡ some (d, x)
      → Tended engines depot.publications d.publications
  unfolding materialize_version
  materialize_version-Tended v depot d x s e =
      materialize_from-Leaves (suc (length depot.publications)) v [] depot s d x e
