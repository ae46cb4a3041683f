-- ===== src/Weights/Collect/Roots.antt =====
-- The versions that `GarbageCollect` of control-plane/weights/service.go keeps.
use skyscale.Prelude.{
  ℕ, zero, suc, ◌≡◌, inl, inr, String, ◌==◌, List, [], ◌∷◌, some, Dict, lookup, contains, arith,
  Bool-cases,
}
use skyscale.Weights.Types.{Publication, RunState, EngineState}
use skyscale.Weights.Collect.{retain, retain_engines, retain_newest, newest_first, kept_versions}
use skyscale.Weights.Collect.Chain.{IsClosed, Kept, Grows, Kept-Grows, EngineKept, retain-Retained}

-- What a step of the collection does to the list of kept versions.
record Keeps (m : Dict Publication) (keep keep' : List String) : Type 0 where
  closed : IsClosed m keep'
  grows : Grows keep keep'

retain-Keeps :
    (m : Dict Publication) (v : String) (keep : List String)
    → IsClosed m keep
    → Keeps m keep (retain m v keep)
retain-Keeps m v keep c =
    let r = retain-Retained m v keep c in record { closed = r.closed; grows = r.grows }

retain_newest-Keeps :
    (n : ℕ) (m : Dict Publication) (all : List Publication) (keep : List String)
    → IsClosed m keep
    → Keeps m keep (retain_newest n m all keep)
unfolding retain_newest
retain_newest-Keeps zero m all keep c = record { closed = c; grows = λ v k. k }
retain_newest-Keeps (suc n) m [] keep c = record { closed = c; grows = λ v k. k }
retain_newest-Keeps (suc n) m (p ∷ all) keep c =
    let first = retain-Keeps m p.manifest.version keep c in
    let rest = retain_newest-Keeps n m all (retain m p.manifest.version keep) first.closed in
    record { closed = rest.closed; grows = λ v k. rest.grows v (first.grows v k) }

-- The three versions of one engine.
record EngineRetained (m : Dict Publication) (keep keep' : List String) (e : EngineState)
    : Type 0 where
  closed : IsClosed m keep'
  grows : Grows keep keep'
  kept : EngineKept keep' e

retain_engine :
    (m : Dict Publication) (e : EngineState) (keep : List String)
    → IsClosed m keep
    → EngineRetained m keep
        (retain m e.last_good_version
          (retain m e.current_version (retain m e.desired_version keep)))
        e
retain_engine m e keep c =
    let k₁ = retain m e.desired_version keep in
    let k₂ = retain m e.current_version k₁ in
    let k₃ = retain m e.last_good_version k₂ in
    let d = retain-Retained m e.desired_version keep c in
    let u = retain-Retained m e.current_version k₁ d.closed in
    let g = retain-Retained m e.last_good_version k₂ u.closed in
    record {
      closed = g.closed;
      grows = λ v k. g.grows v (u.grows v (d.grows v k));
      kept = (
        Kept-Grows k₂ k₃ e.desired_version g.grows
            (Kept-Grows k₁ k₂ e.desired_version u.grows d.has_next),
        Kept-Grows k₂ k₃ e.current_version g.grows u.has_next,
        g.has_next,
      );
    }

record EnginesRetained (m : Dict Publication) (keep keep' : List String)
    (engines : Dict EngineState) : Type 0 where
  closed : IsClosed m keep'
  grows : Grows keep keep'
  kept : (id : String) (e : EngineState) → lookup id engines ≡ some e → EngineKept keep' e

EngineKept-Grows :
    (keep keep' : List String) (e : EngineState)
    → Grows keep keep'
    → EngineKept keep e
    → EngineKept keep' e
EngineKept-Grows keep keep' e g (d, u, l) =
    (Kept-Grows keep keep' _ g d, Kept-Grows keep keep' _ g u, Kept-Grows keep keep' _ g l)

retain_engines-EnginesRetained :
    (m : Dict Publication) (engines : Dict EngineState) (keep : List String)
    → IsClosed m keep
    → EnginesRetained m keep (retain_engines m engines keep) engines
unfolding retain_engines lookup
retain_engines-EnginesRetained m [] keep c = record {
  closed = c;
  grows = λ v k. k;
  kept = λ id e h. absurd (ground arith);
}
retain_engines-EnginesRetained m ((j, f) ∷ engines) keep c =
    let first = retain_engine m f keep c in
    let keep₁ =
      retain m f.last_good_version (retain m f.current_version (retain m f.desired_version keep)) in
    let rest = retain_engines-EnginesRetained m engines keep₁ first.closed in
    record {
      closed = rest.closed;
      grows = λ v k. rest.grows v (first.grows v k);
      kept = λ id e h. elim (Bool-cases (j == id)) [
        | inl same ↦
            let one : f ≡ e = ground arith in
            rw (← one)
              (EngineKept-Grows keep₁ (retain_engines m engines keep₁) f rest.grows first.kept)
        | inr other ↦ rest.kept id e (ground arith)
      ];
    }

-- What the list of kept versions promises: it holds the active and the last good version, those of
-- every engine, and with a version its parent.
pub record KeepsRoots (keep : List String) (state : RunState) : Type 0 where
  pub closed : IsClosed state.publications keep
  pub active : Kept keep state.active
  pub last_good : Kept keep state.last_good
  pub engines :
      (id : String) (e : EngineState) → lookup id state.engines ≡ some e → EngineKept keep e

nothing_open : (m : Dict Publication) → IsClosed m []
unfolding contains
nothing_open m v p k e = absurd (ground arith)

pub kept_versions-KeepsRoots : (n : ℕ) (state : RunState) → KeepsRoots (kept_versions n state) state
unfolding kept_versions
kept_versions-KeepsRoots n state =
    let m = state.publications in
    let k₁ = retain m state.active [] in
    let k₂ = retain m state.last_good k₁ in
    let k₃ = retain_engines m state.engines k₂ in
    let k₄ = retain_newest n m (newest_first m) k₃ in
    let a = retain-Retained m state.active [] (nothing_open m) in
    let g = retain-Retained m state.last_good k₁ a.closed in
    let e = retain_engines-EnginesRetained m state.engines k₂ g.closed in
    let r = retain_newest-Keeps n m (newest_first m) k₃ e.closed in
    let last : Grows k₂ k₄ = λ v k. r.grows v (e.grows v k) in
    record {
      closed = r.closed;
      active =
          Kept-Grows k₂ k₄ state.active last (Kept-Grows k₁ k₂ state.active g.grows a.has_next);
      last_good = Kept-Grows k₂ k₄ state.last_good last g.has_next;
      engines = λ id f h. EngineKept-Grows k₃ k₄ f r.grows (e.kept id f h);
    }
