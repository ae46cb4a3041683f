-- ===== src/Weights/Delta.antt =====
-- `applyXORDelta` of control-plane/weights/service.go as a codec.
use Prim.Native.Nat.{bit_xor}
use skyscale.Prelude.{
  ℕ, zero, suc, ◌<◌, ◌≡◌, refl, ◌≢◌, inl, inr, Result-cases, Bool, true, false, if◌then◌else◌, [],
  ◌∷◌, Result, ok, err, All, length, arith, eqb,
}
use skyscale.Weights.Types.{Bytes, WeightError, sizes_differ}
use skyscale.Weights.Materialize.{apply_xor_delta}

-- A test that every number under a bound passes.
passes_under : (ℕ → Bool) → ℕ → Bool
passes_under test zero = true
passes_under test (suc i) = if test i then passes_under test i else false

table : (ℕ → Bool) → Bool
unfolding passes_under
table test = passes_under test 256

passes_under-get :
    (test : ℕ → Bool) (bound i : ℕ) → i < bound → passes_under test bound ≡ true → test i ≡ true
unfolding passes_under
passes_under-get test zero i lt all = absurd (omega arith)
passes_under-get test (suc k) i lt all = ground (arith, passes_under-get test k i)

abbrev cancels : ℕ → ℕ → Bool
cancels a b = eqb (bit_xor a (bit_xor a b)) b

xor_table : table (λ a. table (cancels a)) ≡ true
unfolding table passes_under
xor_table = refl

cancels_eq : (a b : ℕ) → cancels a b ≡ true → bit_xor a (bit_xor a b) ≡ b
cancels_eq a b e = ground arith

xor_cancel : (a b : ℕ) → a < 256 → b < 256 → bit_xor a (bit_xor a b) ≡ b
unfolding table
xor_cancel a b h k =
    let row : table (cancels a) ≡ true =
      passes_under-get (λ x. table (cancels x)) 256 a h xor_table in
    cancels_eq a b (passes_under-get (cancels a) 256 b k row)

abbrev pub IsBytes : Bytes → Type 0
IsBytes = All (λ b. b < 256)

-- A delta that was made of two versions of one size gives the second back from the first: the
-- operation is its own inverse.
pub apply_xor_delta-self_inverse :
    (parent target delta : Bytes)
    → IsBytes parent
    → IsBytes target
    → apply_xor_delta parent target ≡ ok delta
    → apply_xor_delta parent delta ≡ ok target
unfolding apply_xor_delta
apply_xor_delta-self_inverse [] [] delta hp ht h = ground arith
apply_xor_delta-self_inverse [] (t ∷ target) delta hp ht h = absurd (ground arith)
apply_xor_delta-self_inverse (p ∷ parent) [] delta hp ht h = absurd (ground arith)
apply_xor_delta-self_inverse (p ∷ parent) (t ∷ target) delta hp ht h =
    elim (Result-cases (apply_xor_delta parent target)) [
      | inl (e, differ) ↦ absurd (ground arith)
      | inr (rest, e) ↦
          let same : delta ≡ bit_xor p t ∷ rest = ground arith in
          rw (
            same,
            apply_xor_delta-self_inverse parent target rest hp.1 ht.1 e,
            xor_cancel p t hp.0 ht.0,
          )
    ]

abbrev pub SameSize : Bytes → Bytes → Result WeightError Bytes → Type 0
SameSize parent delta (ok r) = (length parent ≡ length delta) × (length r ≡ length parent)
SameSize parent delta (err e) = (length parent ≢ length delta) × (e ≡ sizes_differ)

-- The operation succeeds exactly on artifacts of one size, and the result has that size.
pub apply_xor_delta-SameSize :
    (parent delta : Bytes) → SameSize parent delta (apply_xor_delta parent delta)
unfolding apply_xor_delta
apply_xor_delta-SameSize [] [] = omega arith
apply_xor_delta-SameSize [] (d ∷ delta) = (omega arith, refl)
apply_xor_delta-SameSize (p ∷ parent) [] = (omega arith, refl)
apply_xor_delta-SameSize (p ∷ parent) (d ∷ delta) =
    ground (arith, apply_xor_delta-SameSize parent delta)
