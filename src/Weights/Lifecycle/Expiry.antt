-- ===== src/Weights/Lifecycle/Expiry.antt =====
-- What `Expire` of control-plane/weights/service.go does to every publication and every engine.
use skyscale.Prelude.{
  ℕ, String, Bool, true, false, ◌&&◌, ◌||◌, [], ◌∷◌, Dict, lookup, Option, none, some,
  if◌then◌else◌,
}
use mathlib.Core.Option
use skyscale.Weights.Types.{EngineState, Publication, failed}
use skyscale.Weights.Lifecycle.{time_out, is_missing, is_overdue}

abbrev is_present {ℓ} : {V : Type ℓ} → Option V → Bool
is_present none = false
is_present (some _) = true

-- The engine has not acknowledged a publication that is overdue and requires it.
unfoldable pub owes : ℕ → String → Dict Publication → Bool
owes now id [] = false
owes now id ((_, p) ∷ m) =
    (is_overdue now p && is_present (lookup id p.required) && is_missing (lookup id p.acks))
    || owes now id m

-- The engine, sent back or not.
abbrev pub sent_back : Bool → String → Option EngineState → Option EngineState
sent_back b version o = if b then Option.map (time_out version) o else o

abbrev pub expired_publication : ℕ → Publication → Publication
expired_publication now p = if is_overdue now p then record p { state = failed } else p
