-- ===== src/Reconciler/Deletion/Trace.antt =====
-- The calls before a deletion of control-plane/rlservice/reconciler.go: what justifies it.
use skyscale.Prelude.{
  ◌≡◌, ◌⊎◌, sym, subst, inl, inr, String, true, false, List, [], ◌∷◌, some, Result, ok, err,
}
use skyscale.Reconciler.Types.{BackendResource, Gvr, Object, ApiError, not_found, refused}
use skyscale.Reconciler.Monad.{Call, saw, applies, deletes, marks_good, rolls_back}
use skyscale.Reconciler.Ownership.{gvr_for_kind, is_owned, is_replaced}
use skyscale.Reconciler.Logic.{IsPlain}

-- The reconciler may delete what the answer shows: nothing is there, or an object that carries the
-- run's labels and the recorded UID.
abbrev pub Allows : String → BackendResource → Result ApiError Object → Type 0
Allows run_id r (ok o) = (is_owned run_id o ≡ true) × (is_replaced r o ≡ false)
Allows run_id r (err not_found) = Unit
Allows run_id r (err (refused _)) = ⊥

-- The last call but updates of objects read this object, with an answer that allows the deletion.
abbrev pub Backed : String → BackendResource → Gvr → List Call → Type 0
Backed run_id r gvr (saw g ns name answer ∷ _) =
    (g ≡ gvr) × (ns ≡ r.namespace) × (name ≡ r.name) × Allows run_id r answer
Backed run_id r gvr (applies _ _ ∷ calls) = Backed run_id r gvr calls
Backed run_id r gvr _ = ⊥

-- The deletion is of an object that a row records, one of those for which `Row` holds.
pub record Recorded (Row : BackendResource → Type 0) (run_id : String) (gvr : Gvr)
    (ns name : String) (calls : List Call) : Type 0 where
  pub resource : BackendResource
  pub row : Row resource
  pub kind : gvr_for_kind resource.kind ≡ some gvr
  pub namespace : resource.namespace ≡ ns
  pub name_of : resource.name ≡ name
  pub seen : Backed run_id resource gvr calls

-- Every deletion of the trace is one that the calls before it justify.
abbrev pub Justified : (BackendResource → Type 0) → String → List Call → Type 0
Justified Row run_id [] = Unit
Justified Row run_id (deletes gvr ns name ∷ calls) =
    Recorded Row run_id gvr ns name calls × Justified Row run_id calls
Justified Row run_id (saw _ _ _ _ ∷ calls) = Justified Row run_id calls
Justified Row run_id (applies _ _ ∷ calls) = Justified Row run_id calls
Justified Row run_id (marks_good _ _ ∷ calls) = Justified Row run_id calls
Justified Row run_id (rolls_back _ _ ∷ calls) = Justified Row run_id calls

plain-Justified :
    (Row : BackendResource → Type 0) (id : String) (c : Call) (calls : List Call)
    → IsPlain c
    → Justified Row id calls
    → Justified Row id (c ∷ calls)
plain-Justified Row id (saw _ _ _ _) calls p h = h
plain-Justified Row id (applies _ _) calls p h = h
plain-Justified Row id (deletes _ _ _) calls p h = elim p [ ]
plain-Justified Row id (marks_good _ _) calls p h = elim p [ ]
plain-Justified Row id (rolls_back _ _) calls p h = elim p [ ]

pub extended :
    (Row : BackendResource → Type 0) (id : String) (c d : List Call)
    → (d ≡ c) ⊎ ((x : Call) × IsPlain x × (d ≡ x ∷ c))
    → Justified Row id c
    → Justified Row id d
extended Row id c d (inl e) h = subst (Justified Row id) (sym e) h
extended Row id c d (inr (x, p, e)) h =
    subst (Justified Row id) (sym e) (plain-Justified Row id x c p h)
