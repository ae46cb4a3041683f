-- ===== src/Reconciler/Logic/Outcome.antt =====
-- What holds after an action of control-plane/rlservice/reconciler.go, by its result: a value, or an error.
use skyscale.Prelude.{
  ◌≡◌, refl, sym, ap, Bool, true, false, List, [], ◌∷◌, Result, ok, err, if◌then◌else◌,
}
use skyscale.Reconciler.Types.{ReconcileError}
use skyscale.Reconciler.Store.{Database}
use skyscale.Reconciler.Monad.{
  wrapped, reworded, Pass, Action, resume, ◌>>◌, connected, connect, reads, writes,
}

module _ {K : Type 0} where
  -- What holds after an action, by its result.
  abbrev pub After :
      {A : Type 0}
      → (A → Pass K → Type 0)
      → (Pass K → Type 0)
      → Pass K × Result ReconcileError A
      → Type 0
  After Q E (s, ok a) = Q a s
  After Q E (s, err e) = E s

  module _ {A B : Type 0} where
    pub resume-After :
        (Q : A → Pass K → Type 0) (R : B → Pass K → Type 0) (E : Pass K → Type 0)
        (r : Pass K × Result ReconcileError A) (f : A → Action K B)
        → After Q E r
        → ((a : A) (s : Pass K) → Q a s → After R E (f a s))
        → After R E (resume r f)
    resume-After Q R E (s, ok a) f h k = k a s h
    resume-After Q R E (s, err e) f h k = h

    -- The same, where only the pass is of interest in the end.
    pub resume_into :
        (Q : A → Pass K → Type 0) (E P : Pass K → Type 0) (r : Pass K × Result ReconcileError A)
        (f : A → Action K B)
        → After Q E r
        → ((s : Pass K) → E s → P s)
        → ((a : A) (s : Pass K) → Q a s → P (f a s).0)
        → P (resume r f).0
    resume_into Q E P (s, ok a) f h e k = k a s h
    resume_into Q E P (s, err x) f h e k = e s h

  -- A call of the database that goes through and one that fails leave everything else alone.
  pub record Same (s t : Pass K) : Type 0 where
    pub run : t.run ≡ s.run
    pub db : t.db ≡ s.db
    pub trace : t.trace ≡ s.trace

  connected-After :
      (fs : List Bool) (s : Pass K) → After (λ _ t. Same s t) (Same s) (connected {K = K} fs s)
  unfolding connected
  connected-After [] s = record { run = refl; db = refl; trace = refl }
  connected-After (true ∷ fs) s = record { run = refl; db = refl; trace = refl }
  connected-After (false ∷ fs) s = record { run = refl; db = refl; trace = refl }

  pub connect-After : (s : Pass K) → After (λ _ t. Same s t) (Same s) (connect {K = K} s)
  unfolding connect
  connect-After s = connected-After s.faults s

  pub reads-After :
      {A : Type 0} (query : Database → Result ReconcileError A) (s : Pass K)
      → After (λ a t. Same s t × (query s.db ≡ ok a)) (Same s) (reads {K = K} query s)
  unfolding reads ◌>>◌
  reads-After query s =
      resume-After (λ _ t. Same s t) (λ a t. Same s t × (query s.db ≡ ok a)) (Same s)
        (connect {K = K} s) (λ _ t. (t, query t.db)) (connect-After s)
        (λ _ t h. answered t (query t.db) h (ap query h.db))
    where
      answered :
          (t : Pass K) (r : Result ReconcileError _)
          → Same s t
          → r ≡ query s.db
          → After (λ a t. Same s t × (query s.db ≡ ok a)) (Same s) (t, r)
      answered t (ok a) h e = (h, sym e)
      answered t (err x) h e = h

  -- An error in other words is the same outcome.
  reworded-After :
      {A : Type 0} (wrap : ReconcileError → ReconcileError) (Q : A → Pass K → Type 0)
      (E : Pass K → Type 0) (r : Pass K × Result ReconcileError A)
      → After Q E r
      → After Q E (reworded wrap r)
  unfolding reworded
  reworded-After wrap Q E (s, ok a) h = h
  reworded-After wrap Q E (s, err e) h = h

  pub wrapped-After :
      {A : Type 0} (wrap : ReconcileError → ReconcileError) (Q : A → Pass K → Type 0)
      (E : Pass K → Type 0) (m : Action K A) (s : Pass K)
      → After Q E (m s)
      → After Q E (wrapped wrap m s)
  unfolding wrapped
  wrapped-After wrap Q E m s h = reworded-After wrap Q E (m s) h

  -- Nothing is said of a pass that an error ends.
  pub forget_error :
      {A : Type 0} (Q : A → Pass K → Type 0) (E : Pass K → Type 0)
      (r : Pass K × Result ReconcileError A)
      → After Q E r
      → After Q (λ _. Unit {0}) r
  forget_error Q E (s, ok a) h = h
  forget_error Q E (s, err e) h = tt

  pub writes-After :
      (change : Database → Database) (s : Pass K)
      → After (λ _ t. t.db ≡ change s.db) (λ t. t.db ≡ s.db) (writes {K = K} change s)
  unfolding writes ◌>>◌
  writes-After change s =
      resume-After (λ _ t. Same s t) (λ _ t. t.db ≡ change s.db) (λ t. t.db ≡ s.db)
        (connect {K = K} s) (λ _ t. (record t { db = change t.db }, ok tt))
        (weaken_error (connect {K = K} s) (connect-After s)) (λ _ t h. ap change h.db)
    where
      weaken_error :
          (r : Pass K × Result ReconcileError (Unit {0}))
          → After (λ _ t. Same s t) (Same s) r
          → After (λ _ t. Same s t) (λ t. t.db ≡ s.db) r
      weaken_error (t, ok a) h = h
      weaken_error (t, err e) h = h.db

  -- Two things that hold after the same action.
  pub both_After :
      {A : Type 0} (Q R : A → Pass K → Type 0) (E F : Pass K → Type 0)
      (r : Pass K × Result ReconcileError A)
      → After Q E r
      → After R F r
      → After (λ a t. Q a t × R a t) (λ t. E t × F t) r
  both_After Q R E F (s, ok a) h k = (h, k)
  both_After Q R E F (s, err e) h k = (h, k)

  pub if-After :
      {A : Type 0} (Q : A → Pass K → Type 0) (E : Pass K → Type 0) (b : Bool) (m n : Action K A)
      (s : Pass K)
      → (b ≡ true → After Q E (m s))
      → (b ≡ false → After Q E (n s))
      → After Q E ((if b then m else n) s)
  if-After Q E true m n s h k = h refl
  if-After Q E false m n s h k = k refl

  pub weaken_After :
      {A : Type 0} (Q R : A → Pass K → Type 0) (E F : Pass K → Type 0)
      (r : Pass K × Result ReconcileError A)
      → After Q E r
      → ((a : A) (s : Pass K) → Q a s → R a s)
      → ((s : Pass K) → E s → F s)
      → After R F r
  weaken_After Q R E F (s, ok a) h f g = f a s h
  weaken_After Q R E F (s, err e) h f g = g s h
