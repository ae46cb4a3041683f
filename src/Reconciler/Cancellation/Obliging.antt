-- ===== src/Reconciler/Cancellation/Obliging.antt =====
-- A cluster that obliges, where control-plane/rlservice/reconciler.go deletes the objects of a run:
-- `deleteOwned` then returns no error. The deletion is one in the foreground, which may take any time:
-- an object whose deletion was accepted may still be there.
use mathlib.Core.List.{Memᴰ}
use skyscale.Prelude.{
  false, ◌≡◌, refl, sym, subst, String, Bool, true, ◌&&◌, List, [], ◌∷◌, Option, none, some, Result,
  ok, err, All, Bool-cases, inl, inr, eqb, length,
}
use skyscale.Reconciler.Types.{
  RlRun, BackendResource, Gvr, Object, ApiError, not_found, refused, ReconcileError,
}
use skyscale.Reconciler.Store.{
  Database, save_rl_run, list_backend_resources, delete_backend_resource,
}
use skyscale.Reconciler.Monad.{
  Call, saw, deletes, Pass, ◌>>=◌, ◌>>◌, resume, save_run, connect, connected, writes, reads,
  the_run, pure,
}
use skyscale.Reconciler.Environment.{Environment, get_object, apply_object, delete_object, or_fail}
use skyscale.Reconciler.Ownership.{
  gvr_for_kind, drop_finalizer, prepare_delete, delete_answer, confirm_delete, delete_and_confirm,
  delete_object_of, delete_at, delete_one, delete_each, delete_owned, without_finalizer,
}
use skyscale.Reconciler.Deletion.{Allows}
use skyscale.Reconciler.Frame.{delete_one-Keeps}
use skyscale.Reconciler.Logic.{After, resume-After, both_After, weaken_After, Keeps-After}
use skyscale.Reconciler.Cancellation.Waiting.{
  LeftAfter, now, StillThere, Explained, Explained-IsQuiet, Explained-AllowsDelete,
}

module _ {K : Type 0} where
  -- The action ends without an error, and `Q` holds then.
  abbrev pub Succeeds :
      {A : Type 0} → (A → Pass K → Type 0) → Pass K × Result ReconcileError A → Type 0
  Succeeds Q r = After Q (λ _. ⊥) r

  pub save_run-Succeeds :
      (s : Pass K)
      → s.faults ≡ []
      → Succeeds (λ _ t. t ≡ record s { db = save_rl_run s.run s.db }) (save_run s)
  unfolding save_run connect connected ◌>>◌
  save_run-Succeeds s w =
      subst
        (λ fs.
          Succeeds (λ _ t. t ≡ record s { db = save_rl_run s.run s.db })
            (resume (connected {K = K} fs s)
              (λ _ t. (record t { db = save_rl_run t.run t.db }, ok tt))))
        (sym w) refl

-- A deletion is accepted where the object is there, or is gone already.
abbrev pub Accepted : Result ApiError (Unit {0}) → Type 0
Accepted (ok _) = Unit
Accepted (err not_found) = Unit
Accepted (err (refused _)) = ⊥

module _ {K : Type 0} (env : Environment K) (Good : K → Type 0) (id : String) where
  -- What the cluster does in the states of `Good`, which its answers do not leave: an update succeeds,
  -- and a deletion is accepted.
  pub record Obliges : Type 0 where
    pub gets :
        (gvr : Gvr) (ns name : String) (k : K) → Good k → Good (env.client.get gvr ns name k).0
    pub applies :
        (gvr : Gvr) (o : Object) (k : K)
        → Good k
        → Good (env.client.apply gvr o k).0 × (x : Object) × ((env.client.apply gvr o k).1 ≡ ok x)
    pub deletes :
        (gvr : Gvr) (ns name : String) (k : K)
        → Good k
        → Good (env.client.delete gvr ns name k).0 × Accepted (env.client.delete gvr ns name k).1

  -- In those states the object that the row names, of the row's kind, is the run's own or is not there.
  abbrev pub Deletable : BackendResource → Type 0
  Deletable r =
      (gvr : Gvr) (k : K)
      → gvr_for_kind r.kind ≡ some gvr
      → Good k
      → Allows id r (env.client.get gvr r.namespace r.name k).1

  module _ (was : RlRun) where
    -- During the pass: the run is as it was, and neither the database nor the cluster fails.
    pub record Works (t : Pass K) : Type 0 where
      pub run : t.run ≡ was
      pub faults : t.faults ≡ []
      pub world : Good t.world

    writes-Works :
        (change : Database → Database) (s : Pass K)
        → Works s
        → Succeeds (λ _ t. Works t × (t.trace ≡ s.trace)) (writes change s)
    unfolding writes connect connected ◌>>◌
    writes-Works change s w =
        subst
          (λ fs.
            Succeeds (λ _ t. Works t × (t.trace ≡ s.trace))
              (resume (connected {K = K} fs s) (λ _ t. (record t { db = change t.db }, ok tt))))
          (sym w.faults) (record { run = w.run; faults = w.faults; world = w.world }, refl)

    answered-Works :
        (wrap : ApiError → ReconcileError) (answer : Result ApiError Object) (x : Object)
        (t : Pass K)
        → answer ≡ ok x
        → Works t
        → Succeeds (λ _ u. Works u) ((or_fail wrap answer >>= (λ _. pure tt)) t)
    unfolding or_fail pure ◌>>=◌
    answered-Works wrap answer x t e w =
        subst (λ a. Succeeds (λ _ u. Works u) ((or_fail wrap a >>= (λ _. pure tt)) t)) (sym e) w

    module _ (obliges : Obliges) (rows : List BackendResource) where
      drop_finalizer-Works :
          (gvr : Gvr) (r : BackendResource) (o : Object) (s : Pass K)
          → Works s
          → Succeeds (λ _ t. Works t) (drop_finalizer env gvr r o s)
      unfolding drop_finalizer pure apply_object ◌>>=◌
      drop_finalizer-Works gvr r o s w =
          elim (Bool-cases (eqb (length (without_finalizer o.finalizers)) (length o.finalizers))) [
            | inl e ↦ rw (drop_finalizer, e) w
            | inr e ↦
                rw (drop_finalizer, e)
                  (let o' : Object = record o { finalizers = without_finalizer o.finalizers } in
                    let (good, x, found) = obliges.applies gvr o' s.world w.world in
                    answered-Works _ _ x _ found
                      (record { run = w.run; faults = w.faults; world = good }))
          ]

      prepare_delete-Works :
          (gvr : Gvr) (r : BackendResource) (found : Result ApiError Object) (s : Pass K)
          → Allows id r found
          → Works s
          → Succeeds (λ _ t. Works t) (prepare_delete env id gvr r found s)
      unfolding prepare_delete pure
      prepare_delete-Works gvr r (err not_found) s a w = w
      prepare_delete-Works gvr r (err (refused e)) s a w = absurd a
      prepare_delete-Works gvr r (ok o) s (own, same) w =
          rw (prepare_delete, same, own) (drop_finalizer-Works gvr r o s w)

      -- The action answers whether all is gone; where it is not, an object is still there.
      abbrev pub Answers : Bool → Pass K → Type 0
      Answers b t = Works t × (b ≡ false → StillThere rows t.trace)

      unfoldable pub Ends : Pass K × Result ReconcileError Bool → Type 0
      Ends r = Succeeds Answers r

      confirm_delete-Ends :
          (r : BackendResource) (left : Result ApiError Object) (s : Pass K)
          → Allows id r left
          → ((o : Object) → left ≡ ok o → StillThere rows s.trace)
          → Works s
          → Ends (confirm_delete env r left s)
      unfolding confirm_delete pure Ends ◌>>◌
      confirm_delete-Ends r (ok o) s a there w =
          resume-After (λ _ t. Works t × (t.trace ≡ s.trace)) Answers (λ _. ⊥) (writes _ s)
            (λ _. pure false) (writes-Works _ s w)
            (λ _ t v. (v.0, λ _. subst (StillThere rows) (sym v.1) (there o refl)))
      confirm_delete-Ends r (err not_found) s a there w =
          resume-After (λ _ t. Works t × (t.trace ≡ s.trace)) Answers (λ _. ⊥)
            (writes (delete_backend_resource r.id) s) (λ _. pure true)
            (writes-Works (delete_backend_resource r.id) s w)
            (λ _ t v. (v.0, λ gone. absurd (let bad : true ≡ false = gone in cc)))
      confirm_delete-Ends r (err (refused e)) s a there w = absurd a

      module _ (r : BackendResource) (own : Deletable r) (listed : Memᴰ r rows) (gvr : Gvr)
          (kind : gvr_for_kind r.kind ≡ some gvr) where
        looks_again :
            (t : Pass K) (calls : List Call)
            → t.trace ≡ deletes gvr r.namespace r.name ∷ calls
            → Works t
            → Ends ((get_object env gvr r.namespace r.name >>= confirm_delete env r) t)
        unfolding get_object ◌>>=◌
        looks_again t calls deleted w =
            confirm_delete-Ends r (env.client.get gvr r.namespace r.name t.world).1
              (get_object env gvr r.namespace r.name t).0 (own gvr t.world kind w.world)
              (λ o e. record {
                row = r;
                listed = listed;
                gvr = gvr;
                kind = kind;
                object = o;
                left =
                    subst
                      (λ a.
                        LeftAfter gvr r.namespace r.name o (saw gvr r.namespace r.name a ∷ t.trace))
                      (sym e)
                      (subst
                        (λ cs.
                          LeftAfter gvr r.namespace r.name o
                            (saw gvr r.namespace r.name (ok o) ∷ cs))
                        (sym deleted) now);
              })
              (record {
                run = w.run;
                faults = w.faults;
                world = obliges.gets gvr r.namespace r.name t.world w.world;
              })

        after_answer :
            (answer : Result ApiError (Unit {0})) (t : Pass K) (calls : List Call)
            → t.trace ≡ deletes gvr r.namespace r.name ∷ calls
            → Accepted answer
            → Works t
            → Ends (
                (delete_answer env r answer
                    >> (get_object env gvr r.namespace r.name >>= confirm_delete env r))
                  t)
        unfolding pure ◌>>◌
        after_answer (ok _) t calls deleted a w = looks_again t calls deleted w
        after_answer (err not_found) t calls deleted a w = looks_again t calls deleted w
        after_answer (err (refused e)) t calls deleted a w = absurd a

        delete_and_confirm-Ends : (s : Pass K) → Works s → Ends (delete_and_confirm env gvr r s)
        unfolding delete_and_confirm delete_object ◌>>=◌
        delete_and_confirm-Ends s w =
            let (good, accepted) = obliges.deletes gvr r.namespace r.name s.world w.world in
            after_answer (env.client.delete gvr r.namespace r.name s.world).1
              (delete_object env gvr r.namespace r.name s).0 s.trace refl accepted
              (record { run = w.run; faults = w.faults; world = good })

        delete_object_of-Ends : (s : Pass K) → Works s → Ends (delete_object_of env id gvr r s)
        unfolding delete_object_of get_object Ends ◌>>=◌ ◌>>◌
        delete_object_of-Ends s w =
            let t : Pass K = (get_object env gvr r.namespace r.name s).0 in
            let found : Result ApiError Object =
              (env.client.get gvr r.namespace r.name s.world).1 in
            resume-After (λ _ u. Works u) Answers (λ _. ⊥) (prepare_delete env id gvr r found t)
              (λ _. delete_and_confirm env gvr r)
              (prepare_delete-Works gvr r found t (own gvr s.world kind w.world) (record {
                run = w.run;
                faults = w.faults;
                world = obliges.gets gvr r.namespace r.name s.world w.world;
              }))
              (λ _ u v. delete_and_confirm-Ends u v)

      delete_at-Ends :
          (r : BackendResource) (at : Option Gvr) (s : Pass K)
          → gvr_for_kind r.kind ≡ at
          → Deletable r
          → Memᴰ r rows
          → Works s
          → Ends (delete_at env id r at s)
      unfolding delete_at pure Ends
      delete_at-Ends r none s e d m w = (w, λ gone. absurd (let bad : true ≡ false = gone in cc))
      delete_at-Ends r (some gvr) s e d m w = delete_object_of-Ends r d m gvr e s w

      delete_each-Ends :
          (acc : Bool) (rs : List BackendResource) (s : Pass K)
          → All Deletable rs
          → ((r : BackendResource) → Memᴰ r rs → Memᴰ r rows)
          → Explained rows acc s
          → Works s
          → Ends (delete_each env id acc rs s)
      unfolding delete_each delete_one pure Ends ◌>>=◌
      delete_each-Ends acc [] s d m b w = (w, b)
      delete_each-Ends acc (r ∷ rs) s d m b w =
          resume-After (λ gone t. (Answers gone t) × (Explained rows acc t)) Answers (λ _. ⊥)
            (delete_one env id r s) (λ gone. delete_each env id (acc && gone) rs)
            (weaken_After (λ gone t. (Answers gone t) × (Explained rows acc t))
              (λ gone t. (Answers gone t) × (Explained rows acc t)) (λ t. ⊥ × Explained rows acc t)
              (λ _. ⊥) (delete_one env id r s)
              (both_After Answers (λ _ t. Explained rows acc t) (λ _. ⊥) (Explained rows acc)
                (delete_one env id r s)
                (delete_at-Ends r (gvr_for_kind r.kind) s refl d.0 (m r (Memᴰ.head refl)) w)
                (Keeps-After s
                  (delete_one-Keeps (Explained-IsQuiet rows acc) env
                    (Explained-AllowsDelete rows acc) id r)
                  b))
              (λ gone t h. h) (λ t h. h.0))
            (λ gone t h.
              delete_each-Ends (acc && gone) rs t d.1 (λ q n. m q (Memᴰ.tail n))
                (either t acc gone h.1 h.0.1) h.0.0)
        where
          either :
              (t : Pass K) (x y : Bool)
              → Explained rows x t
              → (y ≡ false → StillThere rows t.trace)
              → Explained rows (x && y) t
          either t true y f g e = g e
          either t false y f g e = f refl

    pub delete_owned-Ends :
        (obliges : Obliges) (s : Pass K)
        → s.run.id ≡ id
        → All Deletable (list_backend_resources id s.db)
        → Works s
        → Ends obliges (list_backend_resources id s.db) (delete_owned env s)
    unfolding delete_owned the_run reads connect connected Ends ◌>>=◌ ◌>>◌
    delete_owned-Ends obliges s own d w =
        let rows = list_backend_resources id s.db in
        subst
          (λ i.
            Ends obliges rows
              (resume (reads (λ db. ok (list_backend_resources i db)) s) (delete_each env i true)))
          (sym own)
          (subst
            (λ fs. Ends obliges rows (
              resume
                (resume (connected {K = K} fs s) (λ _ t. (t, ok (list_backend_resources id t.db))))
                (delete_each env id true)))
            (sym w.faults)
            (delete_each-Ends obliges rows true rows s d (λ r m. m)
              (λ no_gone. absurd (let bad : true ≡ false = no_gone in cc)) w))
