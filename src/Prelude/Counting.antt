-- ===== src/Prelude/Counting.antt =====
-- The pigeonhole principle on maps.
use Prim.Native.Nat.{◌≤◌, ◌<◌}
use Prim.Native.String.{String}
use mathlib.Core.Path.{◌≡◌}
use mathlib.Core.Logic.{◌≢◌, inl, inr}
use mathlib.Core.List.{[], ◌∷◌}
use mathlib.Core.Option.{none, some}
use native.Mathlib.Omega.{arith}
use text.Mathlib.TextEquality.{eq_iff}
use text.Mathlib.TextPositions.{eq_refl}
use skyscale.Prelude.Tests.{Option-cases}
use skyscale.Prelude.Lists.{length}
use skyscale.Prelude.Texts.{Text-cases}
use skyscale.Prelude.Maps.{Dict, lookup, delete, lookup-delete, Distinct}

module _ {V W : Type 0} where
  -- Every key of `m` is one of `n`.
  abbrev pub Within : Dict V → Dict W → Type 0
  Within m n = (k : String) → lookup k n ≡ none → lookup k m ≡ none

length-delete-le : {W : Type 0} (k : String) (n : Dict W) → length (delete k n) ≤ length n
unfolding delete
length-delete-le k [] = omega arith
length-delete-le k ((j, w) ∷ n) = ground (arith, length-delete-le k n)

length-delete-lt :
    {W : Type 0} (k : String) (w : W) (n : Dict W)
    → lookup k n ≡ some w
    → length (delete k n) < length n
unfolding lookup delete
length-delete-lt k w [] h = absurd (ground arith)
length-delete-lt k w ((j, x) ∷ n) h = ground (arith, length-delete-le k n, length-delete-lt k w n)

module _ {V W : Type 0} where
  Within-tail :
      (k : String) (v : V) (m : Dict V) (n : Dict W)
      → Distinct ((k, v) ∷ m)
      → Within ((k, v) ∷ m) n
      → Within m (delete k n)
  unfolding lookup
  Within-tail k v m n d s j h = elim (Text-cases k j) [
    | inl e ↦ rw (← e) d.0
    | inr ne ↦ ground (arith, lookup-delete k j n, eq_iff k j, s j)
  ]

  head_within :
      (k : String) (v : V) (m : Dict V) (n : Dict W)
      → Within ((k, v) ∷ m) n
      → (w : W) × (lookup k n ≡ some w)
  unfolding lookup
  head_within k v m n s = elim (Option-cases (lookup k n)) [
    | inl e ↦ absurd (ground (arith, s k e, eq_refl k))
    | inr found ↦ found
  ]

  pub length-Within : (m : Dict V) (n : Dict W) → Distinct m → Within m n → length m ≤ length n
  length-Within [] n d s = omega arith
  length-Within ((k, v) ∷ m) n d s =
      let (w, found) = head_within k v m n s in
      omega (
        arith,
        length-delete-lt k w n found,
        length-Within m (delete k n) d.1 (Within-tail k v m n d s),
      )

  Within-delete :
      (k : String) (m : Dict V) (n : Dict W)
      → lookup k m ≡ none
      → Within m n
      → Within m (delete k n)
  Within-delete k m n missing s j h = elim (Text-cases k j) [
    | inl e ↦ rw (← e) missing
    | inr ne ↦ s j (ground (arith, lookup-delete k j n, eq_iff k j))
  ]

  -- As many entries, so all the keys.
  pub Within-all :
      (m : Dict V) (n : Dict W)
      → Distinct m
      → Within m n
      → length m ≡ length n
      → (k : String) (w : W) → lookup k n ≡ some w
      → lookup k m ≢ none
  Within-all m n d s e k w found missing = absurd (
      omega (
        arith,
        length-delete-lt k w n found,
        length-Within m (delete k n) d (Within-delete k m n missing s),
      ))
