-- ===== src/Reconciler/Logic/Quiet.antt =====
-- The steps of control-plane/rlservice/reconciler.go that leave the runs alone, and the properties that such a step keeps.
use skyscale.Prelude.{◌≡◌, ◌⊎◌, refl, inl, inr, String, Bool, true, false, List, [], ◌∷◌, Result}
use skyscale.Reconciler.Types.{RlRun, Gvr, Object, ReconcileError}
use skyscale.Reconciler.Store.{Database}
use skyscale.Reconciler.Monad.{
  Pass, Call, saw, applies, connected, connect, reads, writes, save_run, set_run,
}
use skyscale.Reconciler.Environment.{
  Environment, get_object, list_objects, apply_object, delete_object,
}
use skyscale.Reconciler.Logic.Preserve.{Keeps, then-Keeps}

abbrev pub IsPlain : Call → Type 0
IsPlain (saw _ _ _ _) = Unit
IsPlain (applies _ _) = Unit
IsPlain _ = ⊥

-- The call that was made, if any, deletes nothing and is not one of the promotion controller.
abbrev pub Extends : List Call → List Call → Type 0
Extends before after = (after ≡ before) ⊎ ((c : Call) × IsPlain c × (after ≡ c ∷ before))

module _ {K : Type 0} where
  -- A step that leaves the run and the table of runs alone.
  pub record Quietly (s t : Pass K) : Type 0 where
    pub run : t.run ≡ s.run
    pub runs : t.db.runs ≡ s.db.runs
    pub trace : Extends s.trace t.trace

  -- A property of which every quiet step is one that keeps it.
  pub record IsQuiet (I : Pass K → Type 0) : Type 0 where
    pub kept : (s t : Pass K) → Quietly s t → I s → I t

  module _ {I : Pass K → Type 0} (quiet : IsQuiet I) where
    same_calls :
        (s t : Pass K) → t.run ≡ s.run → t.db.runs ≡ s.db.runs → t.trace ≡ s.trace → I s → I t
    same_calls s t r d e = quiet.kept s t (record { run = r; runs = d; trace = inl e })

    connected-Keeps : (fs : List Bool) → Keeps I (connected {K = K} fs)
    unfolding connected
    connected-Keeps [] = record { after = λ s p. p }
    connected-Keeps (true ∷ rest) = record {
      after = λ s. same_calls s (record s { faults = rest }) refl refl refl;
    }
    connected-Keeps (false ∷ rest) = record {
      after = λ s. same_calls s (record s { faults = rest }) refl refl refl;
    }

    pub connect-Keeps : Keeps I (connect {K = K})
    unfolding connect
    connect-Keeps = record { after = λ s. (connected-Keeps s.faults).after s }

    pub reads-Keeps :
        {A : Type 0} (query : Database → Result ReconcileError A) → Keeps I (reads {K = K} query)
    unfolding reads
    reads-Keeps query = then-Keeps connect-Keeps (record { after = λ s p. p })

    pub writes-Keeps :
        (change : Database → Database)
        → ((db : Database) → (change db).runs ≡ db.runs)
        → Keeps I (writes {K = K} change)
    unfolding writes
    writes-Keeps change same =
        then-Keeps connect-Keeps (record {
          after = λ s. same_calls s (record s { db = change s.db }) refl (same s.db) refl;
        })

    module _ (env : Environment K) where
      pub get_object-Keeps : (gvr : Gvr) (ns name : String) → Keeps I (get_object env gvr ns name)
      unfolding get_object
      get_object-Keeps gvr ns name = record {
        after = λ s. quiet.kept s (get_object env gvr ns name s).0 (record {
          run = refl;
          runs = refl;
          trace = inr (saw gvr ns name (env.client.get gvr ns name s.world).1, tt, refl);
        });
      }

      pub list_objects-Keeps :
          (gvr : Gvr) (ns selector : String) → Keeps I (list_objects env gvr ns selector)
      unfolding list_objects
      list_objects-Keeps gvr ns selector = record {
        after = λ s. same_calls s (list_objects env gvr ns selector s).0 refl refl refl;
      }

      pub apply_object-Keeps : (gvr : Gvr) (o : Object) → Keeps I (apply_object env gvr o)
      unfolding apply_object
      apply_object-Keeps gvr o = record {
        after = λ s.
            quiet.kept s (apply_object env gvr o s).0
              (record { run = refl; runs = refl; trace = inr (applies gvr o, tt, refl) });
      }

  -- A property that the deletion of any object keeps.
  pub record AllowsDelete (I : Pass K → Type 0) : Type 0 where
    pub kept :
        (env : Environment K) (gvr : Gvr) (ns name : String)
        → Keeps I (delete_object env gvr ns name)

  -- A property that every step keeps which tells the promotion controller and the cluster nothing
  -- but what is to be there, and leaves the status of the run alone or gives it one that `P` allows.
  pub record Steady (I : Pass K → Type 0) (P : String → Type 0) : Type 0 where
    pub quiet : IsQuiet I
    pub saved : Keeps I (save_run {K = K})
    pub same :
        (f : RlRun → RlRun)
        → ((r : RlRun) → (f r).id ≡ r.id)
        → ((r : RlRun) → (f r).desired_state ≡ r.desired_state)
        → ((r : RlRun) → (f r).status ≡ r.status)
        → Keeps I (set_run {K = K} f)
    pub status :
        (f : RlRun → RlRun) (t : String)
        → ((r : RlRun) → (f r).id ≡ r.id)
        → ((r : RlRun) → (f r).desired_state ≡ r.desired_state)
        → ((r : RlRun) → (f r).status ≡ t)
        → P t
        → Keeps I (set_run {K = K} f)
