-- ===== src/Weights/Collect/Safety.antt =====
-- `GarbageCollect` of control-plane/weights/service.go, and the versions that are in use.
use skyscale.Prelude.{
  ℕ, ◌≡◌, ap, ◌∙◌, ◌≢◌, inl, inr, String, Bool, true, false, ◌==◌, List, [], ◌∷◌, some, Dict,
  lookup, contains, ok, arith, eq_iff, Bool-cases,
}
use skyscale.Weights.Types.{Bytes, Manifest, Publication, RunState, EngineState}
use skyscale.Weights.Stores.{load, save, load-save, load-run_id}
use skyscale.Weights.Materialize.Service.{Service}
use skyscale.Weights.Collect.{
  Sweep, is_kept, keep_entry, drop_entry, delete_files, sweep, kept_versions, garbage_collect,
}
use skyscale.Weights.Collect.Chain.{IsClosed, Kept}
use skyscale.Weights.Collect.Roots.{KeepsRoots, kept_versions-KeepsRoots}

-- `w` is `v` or an ancestor of it.
pub data Ancestor (m : Dict Publication) (w : String) : String → Type 0 where
  itself : {v : String} → v ≡ w → Ancestor m w v
  above :
      {v : String} (p : Publication)
      → lookup v m ≡ some p
      → p.manifest.parent_version ≢ ""
      → Ancestor m w p.manifest.parent_version
      → Ancestor m w v

Ancestor-kept :
    (m : Dict Publication) (keep : List String) {w v : String}
    → IsClosed m keep
    → contains v keep ≡ true
    → Ancestor m w v
    → contains w keep ≡ true
Ancestor-kept m keep c k (itself e) = rw e at k
Ancestor-kept m keep c k (above p e named a) = elim (c _ p k e) [
  | inl blank ↦ absurd (named blank)
  | inr kept ↦ Ancestor-kept m keep c kept a
]

-- A version that the run or one of its engines is on, or is to go to.
pub data IsRoot (state : RunState) (v : String) : Type 0 where
  is_active : v ≡ state.active → IsRoot state v
  is_last_good : v ≡ state.last_good → IsRoot state v
  is_desired :
      (id : String) (e : EngineState)
      → lookup id state.engines ≡ some e
      → v ≡ e.desired_version
      → IsRoot state v
  is_current :
      (id : String) (e : EngineState)
      → lookup id state.engines ≡ some e
      → v ≡ e.current_version
      → IsRoot state v
  is_fallback :
      (id : String) (e : EngineState)
      → lookup id state.engines ≡ some e
      → v ≡ e.last_good_version
      → IsRoot state v

named-Kept :
    (keep : List String) (v u : String) → v ≢ "" → v ≡ u → Kept keep u → contains v keep ≡ true
named-Kept keep v u named e (inl blank) = absurd (named (e ∙ blank))
named-Kept keep v u named e (inr kept) = rw e kept

pub root_kept :
    (keep : List String) (state : RunState) (v : String)
    → KeepsRoots keep state
    → v ≢ ""
    → IsRoot state v
    → contains v keep ≡ true
root_kept keep state v k named (is_active e) = named-Kept keep v _ named e k.active
root_kept keep state v k named (is_last_good e) = named-Kept keep v _ named e k.last_good
root_kept keep state v k named (is_desired id f h e) =
    named-Kept keep v _ named e (k.engines id f h).0
root_kept keep state v k named (is_current id f h e) =
    named-Kept keep v _ named e (k.engines id f h).1
root_kept keep state v k named (is_fallback id f h e) =
    named-Kept keep v _ named e (k.engines id f h).2

lookup-skip :
    (v w : String) (p q : Publication) (m m' : Dict Publication)
    → (lookup v m ≡ some p → lookup v m' ≡ some p)
    → lookup v ((w, q) ∷ m) ≡ some p
    → lookup v ((w, q) ∷ m') ≡ some p
unfolding lookup
lookup-skip v w p q m m' ih h = elim (Bool-cases (w == v)) [
  | inl same ↦ rw same (rw (same, lookup) at h)
  | inr other ↦ rw other (ih (rw (other, lookup) at h))
]

-- An entry that may be taken is not the one that may not.
not_taken :
    (keep : List String) (v w : String) (p q : Publication) (m : Dict Publication)
    → is_kept keep v p ≡ true
    → is_kept keep w q ≡ false
    → lookup v ((w, q) ∷ m) ≡ some p
    → lookup v m ≡ some p
unfolding lookup
not_taken keep v w p q m k taken h = elim (Bool-cases (w == v)) [
  | inl same ↦
      let one : some q ≡ some p = rw (same, lookup) at h in
      let names : w ≡ v = (eq_iff w v).0 same in
      let body : q ≡ p = cc in
      absurd (let twice : is_kept keep w q ≡ true = rw (names, body) k in cc)
  | inr other ↦ rw (other, lookup) at h
]

module _ (fails : String → Bool) where
  pub sweep-keep :
      (keep : List String) (w : String) (q : Publication) (m : Dict Publication)
      (store : Dict Bytes)
      → is_kept keep w q ≡ true
      → sweep fails keep ((w, q) ∷ m) store ≡ keep_entry w q (sweep fails keep m store)
  unfolding sweep
  sweep-keep keep w q m store e = rw (e, sweep)

  pub sweep-take :
      (keep : List String) (w : String) (q : Publication) (m : Dict Publication)
      (store : Dict Bytes)
      → is_kept keep w q ≡ false
      → (sweep fails keep ((w, q) ∷ m) store).complete ≡ true
      → sweep fails keep ((w, q) ∷ m) store
        ≡ drop_entry q (sweep fails keep m (delete_files fails q store).0)
  unfolding sweep
  sweep-take keep w q m store e c = elim (Bool-cases (delete_files fails q store).1) [
    | inl gone ↦ rw (e, sweep, gone)
    | inr stuck ↦ absurd (let no_end : false ≡ true = rw (e, sweep, stuck) at c in cc)
  ]

  pub lookup-sweep :
      (keep : List String) (v : String) (p : Publication) (m : Dict Publication)
      (store : Dict Bytes)
      → is_kept keep v p ≡ true
      → lookup v m ≡ some p
      → (sweep fails keep m store).complete ≡ true
      → lookup v (sweep fails keep m store).publications ≡ some p
  unfolding sweep lookup
  lookup-sweep keep v p [] store k h c = absurd (ground arith)
  lookup-sweep keep v p ((w, q) ∷ m) store k h c = elim (Bool-cases (is_kept keep w q)) [
    | inl kept ↦
        let e = sweep-keep keep w q m store kept in
        rw e
          (lookup-skip v w p q m _ (λ found. lookup-sweep keep v p m store k found (rw e at c)) h)
    | inr taken ↦
        let e = sweep-take keep w q m store taken c in
        rw e (lookup-sweep keep v p m _ k (not_taken keep v w p q m k taken h) (rw e at c))
  ]

  abbrev pub swept_of : ℕ → RunState → Service → Sweep
  swept_of n state s = sweep fails (kept_versions n state) state.publications s.artifacts

  abbrev pub collected : ℕ → Service → RunState → Sweep → Service
  collected now s state swept = record {
    artifacts = swept.store;
    repository = save now (record state { publications = swept.publications }) s.repository;
  }

  -- What a collection that succeeds saved.
  pub garbage_collect-saved :
      (now n : ℕ) (run_id : String) (s s' : Service) (state : RunState) (removed : List Manifest)
      → load run_id s.repository ≡ ok state
      → garbage_collect fails now run_id n s ≡ (s', ok removed)
      → ((swept_of n state s).complete ≡ true) × (collected now s state (swept_of n state s) ≡ s')
  unfolding garbage_collect
  garbage_collect-saved now n run_id s s' state removed loaded done =
      elim (Bool-cases
        (sweep fails (kept_versions n state) state.publications s.artifacts).complete) [
          | inl complete ↦
              (complete, ap (λ r. r.0) (rw (loaded, garbage_collect, complete) at done))
          | inr stopped ↦
              absurd
                (let no_end = ap (λ r. r.1) (rw (loaded, garbage_collect, stopped) at done) in cc)
        ]

  -- A version that a collection may not take, and that it finds, is there afterwards as it was.
  garbage_collect-keeps :
      (now n : ℕ) (run_id v : String) (s s' : Service) (state : RunState) (p : Publication)
      (removed : List Manifest)
      → load run_id s.repository ≡ ok state
      → is_kept (kept_versions n state) v p ≡ true
      → lookup v state.publications ≡ some p
      → garbage_collect fails now run_id n s ≡ (s', ok removed)
      → (state' : RunState) × (load run_id s'.repository ≡ ok state')
        × (lookup v state'.publications ≡ some p)
  garbage_collect-keeps now n run_id v s s' state p removed loaded k h done =
      let (complete, saved) = garbage_collect-saved now n run_id s s' state removed loaded done in
      let swept = sweep fails (kept_versions n state) state.publications s.artifacts in
      (
        record state { publications = swept.publications; updated_at = now },
        rw (← saved) (
            load-save now run_id s.repository (record state { publications = swept.publications })
              (load-run_id run_id s.repository state loaded)),
        lookup-sweep (kept_versions n state) v p state.publications s.artifacts k h complete,
      )

  -- A collection that succeeds loses nothing in use: a version that the run is on or may go back
  -- to, or that an engine is on, is to go to or may go back to, and every ancestor of it, is in the
  -- saved state as it was in the loaded one.
  pub garbage_collect-safe :
      (now n : ℕ) (run_id v w : String) (s s' : Service) (state : RunState) (p : Publication)
      (removed : List Manifest)
      → load run_id s.repository ≡ ok state
      → v ≢ ""
      → IsRoot state v
      → Ancestor state.publications w v
      → lookup w state.publications ≡ some p
      → garbage_collect fails now run_id n s ≡ (s', ok removed)
      → (state' : RunState) × (load run_id s'.repository ≡ ok state')
        × (lookup w state'.publications ≡ some p)
  garbage_collect-safe now n run_id v w s s' state p removed loaded named root line found done =
      let roots = kept_versions-KeepsRoots n state in
      let kept : contains w (kept_versions n state) ≡ true =
        Ancestor-kept state.publications (kept_versions n state) roots.closed
          (root_kept (kept_versions n state) state v roots named root) line in
      garbage_collect-keeps now n run_id w s s' state p removed loaded (ground arith) found done
