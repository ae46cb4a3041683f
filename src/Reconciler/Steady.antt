-- ===== src/Reconciler/Steady.antt =====
-- What `Reconcile` of control-plane/rlservice/reconciler.go keeps of a pass, by the statuses that it
-- may give the run: a cancellation and a suspension here, and the rest in the modules below.
pub mod Training
pub mod Judgement
pub mod Dispatch
use skyscale.Prelude.{
  ℕ, ◌≡◌, ◌≢◌, ◌⊎◌, refl, inl, inr, String, Bool, true, false, ◌==◌, List, [], ◌∷◌, Option, none,
  some,
}
use skyscale.Reconciler.Types.{RlRun}
use skyscale.Reconciler.Monad.{Pass, Action, save_run, set_run, ◌>>=◌, ◌>>◌}
use skyscale.Reconciler.Environment.{Environment}
use skyscale.Reconciler.Passes.{
  begin_cancel, save_run_anyway, finish_cancel, go_on_cancelling, suspend_run,
}
use skyscale.Reconciler.Ownership.{delete_owned}
use skyscale.Reconciler.Frame.{suspend_owned-Keeps}
use skyscale.Reconciler.Logic.{Keeps, Steady, bind-Keeps, then-Keeps}

module _ {K : Type 0} (env : Environment K) {I : Pass K → Type 0} {P : String → Type 0}
    (steady : Steady I P) where
  pub begin_cancel-Keeps : P "cancelling" → Keeps I (begin_cancel env)
  unfolding begin_cancel
  begin_cancel-Keeps c =
      then-Keeps (suspend_owned-Keeps steady.quiet env) (
        then-Keeps (steady.status _ "cancelling" (λ r. refl) (λ r. refl) (λ r. refl) c)
          steady.saved)

  pub save_run_anyway-Keeps : Keeps I (save_run_anyway env)
  unfolding save_run_anyway
  save_run_anyway-Keeps = record { after = steady.saved.after }

  pub finish_cancel-Keeps : (done : Bool) → P "cancelled" → Keeps I (finish_cancel env done)
  unfolding finish_cancel
  finish_cancel-Keeps true c =
      then-Keeps (steady.status _ "cancelled" (λ r. refl) (λ r. refl) (λ r. refl) c) steady.saved
  finish_cancel-Keeps false c =
      then-Keeps (steady.same _ (λ r. refl) (λ r. refl) (λ r. refl)) steady.saved

  pub go_on_cancelling-Keeps :
      Keeps I (delete_owned env) → P "cancelling" → P "cancelled" → Keeps I (go_on_cancelling env)
  unfolding go_on_cancelling
  go_on_cancelling-Keeps deletion c e =
      then-Keeps (steady.status _ "cancelling" (λ r. refl) (λ r. refl) (λ r. refl) c) (
        then-Keeps save_run_anyway-Keeps (bind-Keeps deletion (λ done. finish_cancel-Keeps done e)))

  pub suspend_run-Keeps : P "suspended" → Keeps I (suspend_run env)
  unfolding suspend_run
  suspend_run-Keeps c =
      then-Keeps (suspend_owned-Keeps steady.quiet env) (
        then-Keeps (steady.status _ "suspended" (λ r. refl) (λ r. refl) (λ r. refl) c) steady.saved)
