-- ===== src/Weights/Invariant/Collection.antt =====
-- `GarbageCollect` of control-plane/weights/service.go, and the state's invariant.
use skyscale.Prelude.{
  ℕ, ◌≡◌, refl, inl, inr, String, Bool, true, List, [], ◌∷◌, Dict, arith, Bool-cases, Text-cases,
}
use skyscale.Weights.Types.{Bytes, EngineState, Publication, RunState}
use skyscale.Weights.Collect.{sweep, is_kept, kept_versions}
use skyscale.Weights.Collect.Roots.{kept_versions-KeepsRoots}
use skyscale.Weights.Collect.Safety.{
  lookup-sweep, sweep-keep, sweep-take, IsRoot, is_active, is_last_good, root_kept,
}
use skyscale.Weights.Invariant.{AllSound, Agreed, blank, agreed, WellFormed}

module _ (fails : String → Bool) where
  sweep-AllSound :
      (engines : Dict EngineState) (keep : List String) (m : Dict Publication) (store : Dict Bytes)
      → (sweep fails keep m store).complete ≡ true
      → AllSound engines m
      → AllSound engines (sweep fails keep m store).publications
  unfolding sweep
  sweep-AllSound engines keep [] store c s = tt
  sweep-AllSound engines keep ((v, p) ∷ m) store c s = elim (Bool-cases (is_kept keep v p)) [
    | inl kept ↦
        let e = sweep-keep fails keep v p m store kept in
        rw e (s.0, sweep-AllSound engines keep m store (rw e at c) s.1)
    | inr taken ↦
        let e = sweep-take fails keep v p m store taken c in
        rw e (sweep-AllSound engines keep m _ (rw e at c) s.1)
  ]

  root-Agreed :
      (n : ℕ) (state : RunState) (store : Dict Bytes) (v : String)
      → (sweep fails (kept_versions n state) state.publications store).complete ≡ true
      → IsRoot state v
      → Agreed state.publications v
      → Agreed (sweep fails (kept_versions n state) state.publications store).publications v
  root-Agreed n state store v c root (blank e) = blank e
  root-Agreed n state store v c root (agreed p found u) = elim (Text-cases v "") [
    | inl e ↦ blank e
    | inr named ↦
        let kept =
          root_kept (kept_versions n state) state v (kept_versions-KeepsRoots n state) named root in
        agreed p
          (lookup-sweep fails (kept_versions n state) v p state.publications store (ground arith)
            found c)
          u
  ]

  pub sweep-WellFormed :
      (n : ℕ) (state : RunState) (store : Dict Bytes)
      → (sweep fails (kept_versions n state) state.publications store).complete ≡ true
      → WellFormed state
      → WellFormed (record state {
        publications = (sweep fails (kept_versions n state) state.publications store).publications;
      })
  sweep-WellFormed n state store c i = record {
    publications =
        sweep-AllSound state.engines (kept_versions n state) state.publications store c
          i.publications;
    active = root-Agreed n state store state.active c (is_active refl) i.active;
    last_good = root-Agreed n state store state.last_good c (is_last_good refl) i.last_good;
  }
