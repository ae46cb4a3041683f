-- ===== src/Reconciler/Cancellation/Waiting.antt =====
-- What a pass of control-plane/rlservice/reconciler.go has seen of an object that it deleted and that
-- is still there.
use mathlib.Core.List.{Memᴰ}
use skyscale.Prelude.{false, ◌≡◌, sym, subst, String, Bool, List, ◌∷◌, some, ok, inl, inr}
use skyscale.Reconciler.Types.{BackendResource, Gvr, Object}
use skyscale.Reconciler.Monad.{Call, saw, deletes, Pass}
use skyscale.Reconciler.Environment.{delete_object}
use skyscale.Reconciler.Ownership.{gvr_for_kind}
use skyscale.Reconciler.Logic.{Extends, IsQuiet, AllowsDelete}

-- The calls, the last one first, show an object that was still there right after its deletion.
pub data LeftAfter (gvr : Gvr) (ns name : String) (object : Object) : List Call → Type 0 where
  now :
      {calls : List Call}
      → LeftAfter gvr ns name object (saw gvr ns name (ok object) ∷ deletes gvr ns name ∷ calls)
  before :
      {call : Call} {calls : List Call}
      → LeftAfter gvr ns name object calls
      → LeftAfter gvr ns name object (call ∷ calls)

-- The object that a row of the list names was still there right after its deletion.
pub record StillThere (rows : List BackendResource) (calls : List Call) : Type 0 where
  pub row : BackendResource
  pub listed : Memᴰ row rows
  pub gvr : Gvr
  pub kind : gvr_for_kind row.kind ≡ some gvr
  pub object : Object
  pub left : LeftAfter gvr row.namespace row.name object calls

-- One more call does not take it back.
StillThere-before :
    (rows : List BackendResource) (call : Call) (calls : List Call)
    → StillThere rows calls
    → StillThere rows (call ∷ calls)
StillThere-before rows call calls h = record {
  row = h.row;
  listed = h.listed;
  gvr = h.gvr;
  kind = h.kind;
  object = h.object;
  left = before h.left;
}

module _ {K : Type 0} (rows : List BackendResource) (flag : Bool) where
  -- What a flag that is down stands for.
  abbrev pub Explained : Pass K → Type 0
  Explained t = flag ≡ false → StillThere rows t.trace

  pub Explained-IsQuiet : IsQuiet Explained
  Explained-IsQuiet = record { kept = λ s t q h down. extended s.trace t.trace q.trace (h down) }
    where
      extended : (c d : List Call) → Extends c d → StillThere rows c → StillThere rows d
      extended c d (inl e) h = subst (StillThere rows) (sym e) h
      extended c d (inr (x, p, e)) h =
          subst (StillThere rows) (sym e) (StillThere-before rows x c h)

  pub Explained-AllowsDelete : AllowsDelete Explained
  unfolding delete_object
  Explained-AllowsDelete = record {
    kept = λ env gvr ns name. record {
      after = λ s h down. StillThere-before rows (deletes gvr ns name) s.trace (h down);
    };
  }
