-- ===== src/Prelude/Texts.antt =====
-- Lists of texts: Go's order on strings, membership, and `sort.Strings`.
use Prim.Native.String.{String, compare}
use mathlib.Core.Path.{◌≡◌, refl}
use mathlib.Core.Logic.{◌≢◌, ◌⊎◌, inl, inr}
use mathlib.Core.Bool.{Bool, false, ◌||◌}
use mathlib.Core.List.{List, [], ◌∷◌, ◌++◌}
use native.Mathlib.Omega.{arith}
use text.Mathlib.Text.{◌==◌, is_le}
use text.Mathlib.TextEquality.{eq_iff}
use skyscale.Prelude.Tests.{if◌then◌else◌, Bool-cases}

-- s <= t, by code points.
abbrev pub text_leb : String → String → Bool
text_leb s t = is_le (compare s t)

unfoldable pub contains : String → List String → Bool
contains t [] = false
contains t (x ∷ xs) = x == t || contains t xs

pub Text-cases : (s t : String) → (s ≡ t) ⊎ (s ≢ t)
Text-cases s t = elim (Bool-cases (s == t)) [
  | inl e ↦ inl ((eq_iff s t).0 e)
  | inr ne ↦ inr (λ e. ground (arith, eq_iff s t))
]

unfoldable pub insert_sorted : String → List String → List String
insert_sorted t [] = t ∷ []
insert_sorted t (x ∷ xs) =
    let rest = insert_sorted t xs in if text_leb t x then t ∷ x ∷ xs else x ∷ rest

-- sort.Strings, as an insertion sort: equal texts cannot be told apart, so every sort agrees.
unfoldable pub sort_strings : List String → List String
unfolding insert_sorted
sort_strings [] = []
sort_strings (x ∷ xs) = insert_sorted x (sort_strings xs)

pub contains-append :
    (t : String) (xs ys : List String) → contains t (xs ++ ys) ≡ (contains t xs || contains t ys)
unfolding contains
contains-append t [] ys = refl
contains-append t (x ∷ xs) ys = ground (arith, contains-append t xs ys)

contains-insert_sorted :
    (t x : String) (xs : List String) → contains t (insert_sorted x xs) ≡ (x == t || contains t xs)
unfolding contains insert_sorted
contains-insert_sorted t x [] = refl
contains-insert_sorted t x (y ∷ ys) = ground (arith, contains-insert_sorted t x ys)

pub contains-sort_strings :
    (t : String) (xs : List String) → contains t (sort_strings xs) ≡ contains t xs
unfolding contains sort_strings
contains-sort_strings t [] = refl
contains-sort_strings t (x ∷ xs) =
    ground (arith, contains-insert_sorted t x (sort_strings xs), contains-sort_strings t xs)
