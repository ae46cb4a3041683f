-- ===== src/Reconciler/Logic/Preserve.antt =====
-- The properties that an action of control-plane/rlservice/reconciler.go keeps, whether it succeeds or returns an error.
use skyscale.Prelude.{◌≡◌, refl, Bool, true, false, List, [], ◌∷◌, Result, ok, err, if◌then◌else◌}
use skyscale.Reconciler.Types.{ReconcileError}
use skyscale.Reconciler.Monad.{
  wrapped, reworded, Pass, Action, resume, ◌>>=◌, ◌>>◌, pure, fail, the_run, for_each,
}
use skyscale.Reconciler.Environment.{or_fail}
use skyscale.Reconciler.Logic.Outcome.{After}

module _ {K : Type 0} where
  pub record Keeps {A : Type 0} (I : Pass K → Type 0) (m : Action K A) : Type 0 where
    pub after : (s : Pass K) → I s → I (m s).0

  module _ {A B : Type 0} where
    resume-Keeps :
        (I : Pass K → Type 0) (r : Pass K × Result ReconcileError A) (f : A → Action K B)
        → I r.0
        → ((a : A) → Keeps I (f a))
        → I (resume r f).0
    resume-Keeps I (s, ok a) f h k = (k a).after s h
    resume-Keeps I (s, err e) f h k = h

    pub bind-Keeps :
        {I : Pass K → Type 0} {m : Action K A} {f : A → Action K B}
        → Keeps I m
        → ((a : A) → Keeps I (f a))
        → Keeps I (m >>= f)
    unfolding ◌>>=◌
    bind-Keeps {I = I} {m = m} {f = f} h k = record {
      after = λ s p. resume-Keeps I (m s) f (h.after s p) k;
    }

    pub then-Keeps :
        {I : Pass K → Type 0} {m : Action K A} {k : Action K B}
        → Keeps I m
        → Keeps I k
        → Keeps I (m >> k)
    unfolding ◌>>◌
    then-Keeps {I = I} {m = m} {k = k} h q = record {
      after = λ s p. resume-Keeps I (m s) (λ _. k) (h.after s p) (λ _. q);
    }

  -- From `I` before the action to `J` after it.
  pub record Leads {A : Type 0} (I J : Pass K → Type 0) (m : Action K A) : Type 0 where
    pub after : (s : Pass K) → I s → J (m s).0

  module _ {A B : Type 0} {I J : Pass K → Type 0} (weaken : (s : Pass K) → I s → J s) where
    resume-Leads :
        (r : Pass K × Result ReconcileError A) (f : A → Action K B)
        → I r.0
        → ((a : A) → Leads I J (f a))
        → J (resume r f).0
    resume-Leads (s, ok a) f h k = (k a).after s h
    resume-Leads (s, err e) f h k = weaken s h

    pub bind-Leads :
        {m : Action K A} {f : A → Action K B}
        → Keeps I m
        → ((a : A) → Leads I J (f a))
        → Leads I J (m >>= f)
    unfolding ◌>>=◌
    bind-Leads {m = m} {f = f} h k = record { after = λ s p. resume-Leads (m s) f (h.after s p) k }

    pub then-Leads :
        {m : Action K A} {k : Action K B} → Keeps I m → Leads I J k → Leads I J (m >> k)
    unfolding ◌>>◌
    then-Leads {m = m} {k = k} h q = record {
      after = λ s p. resume-Leads (m s) (λ _. k) (h.after s p) (λ _. q);
    }

  module _ {A B : Type 0} {I J : Pass K → Type 0} where
    pub lead_bind :
        {m : Action K A} {f : A → Action K B}
        → Leads I J m
        → ((a : A) → Keeps J (f a))
        → Leads I J (m >>= f)
    unfolding ◌>>=◌
    lead_bind {m = m} {f = f} h k = record { after = λ s p. resume-Keeps J (m s) f (h.after s p) k }

  reworded-Keeps :
      {A : Type 0} (I : Pass K → Type 0) (wrap : ReconcileError → ReconcileError)
      (r : Pass K × Result ReconcileError A)
      → I r.0
      → I (reworded wrap r).0
  unfolding reworded
  reworded-Keeps I wrap (s, ok a) h = h
  reworded-Keeps I wrap (s, err e) h = h

  module _ {A : Type 0} {I : Pass K → Type 0} where
    pub pure-Keeps : (a : A) → Keeps I (pure {K = K} a)
    unfolding pure
    pure-Keeps a = record { after = λ s p. p }

    pub fail-Keeps : (e : ReconcileError) → Keeps I (fail {K = K} {A = A} e)
    unfolding fail
    fail-Keeps e = record { after = λ s p. p }

    pub or_fail-Keeps :
        {E : Type 0} (wrap : E → ReconcileError) (r : Result E A) → Keeps I (or_fail {K = K} wrap r)
    unfolding or_fail
    or_fail-Keeps wrap (ok a) = record { after = λ s p. p }
    or_fail-Keeps wrap (err e) = record { after = λ s p. p }

    pub wrapped-Keeps :
        (wrap : ReconcileError → ReconcileError) {m : Action K A}
        → Keeps I m
        → Keeps I (wrapped wrap m)
    unfolding wrapped
    wrapped-Keeps wrap {m = m} h = record {
      after = λ s p. reworded-Keeps I wrap (m s) (h.after s p);
    }

    pub if-Keeps :
        (b : Bool) {m n : Action K A}
        → (b ≡ true → Keeps I m)
        → (b ≡ false → Keeps I n)
        → Keeps I (if b then m else n)
    if-Keeps true h k = h refl
    if-Keeps false h k = k refl

  pub for_each-Keeps :
      {A : Type 0} {I : Pass K → Type 0} {body : A → Action K (Unit {0})}
      → ((a : A) → Keeps I (body a))
      → (xs : List A) → Keeps I (for_each body xs)
  unfolding for_each
  for_each-Keeps h [] = pure-Keeps tt
  for_each-Keeps h (x ∷ xs) = then-Keeps (h x) (for_each-Keeps h xs)

  pub the_run-Keeps : {I : Pass K → Type 0} → Keeps I (the_run {K = K})
  unfolding the_run
  the_run-Keeps = record { after = λ s p. p }

  pub ends_in :
      {A : Type 0} (I : Pass K → Type 0) (r : Pass K × Result ReconcileError A)
      → I r.0
      → After (λ _ t. I t) I r
  ends_in I (s, ok a) h = h
  ends_in I (s, err e) h = h

  pub Keeps-After :
      {A : Type 0} {I : Pass K → Type 0} {m : Action K A} (s : Pass K)
      → Keeps I m
      → I s
      → After (λ _ t. I t) I (m s)
  Keeps-After {I = I} {m = m} s k h = ends_in I (m s) (k.after s h)
