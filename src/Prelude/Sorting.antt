-- ===== src/Prelude/Sorting.antt =====
-- `sort.Strings` sorts, so that it leaves a list that it has sorted as it is.
use Prim.Native.Nat.compare as compare_ℕ
use Prim.Native.Nat.{ℕ, zero, suc, Ordering, compare as compare_ℕ}
use Prim.Native.Char.{code}
use Prim.Native.String.compare
use Prim.Native.String.{String, compare, then as first_of}
use mathlib.Core.Path.{◌≡◌, refl, sym, ap, ◌∙◌}
use mathlib.Core.Logic.{inl, inr}
use mathlib.Core.Bool.{true, false}
use mathlib.Core.List.{List, [], ◌∷◌}
use text.Mathlib.Text.{is_le}
use skyscale.Prelude.Tests.{Bool-cases}
use skyscale.Prelude.Texts.{text_leb, insert_sorted, sort_strings}

abbrev flip : Ordering → Ordering
flip Ordering.lt = Ordering.gt
flip Ordering.eq = Ordering.eq
flip Ordering.gt = Ordering.lt

then-flip : (o r : Ordering) → first_of (flip o) (flip r) ≡ flip (first_of o r)
then-flip Ordering.lt r = refl
then-flip Ordering.eq r = refl
then-flip Ordering.gt r = refl

compare_numbers-flip : (m n : ℕ) → compare_ℕ n m ≡ flip (compare_ℕ m n)
compare_numbers-flip zero zero = compare_ℕ.zero-zero ∙ ap flip (sym compare_ℕ.zero-zero)
compare_numbers-flip zero (suc n) = compare_ℕ.suc-zero n ∙ ap flip (sym (compare_ℕ.zero-suc n))
compare_numbers-flip (suc m) zero = compare_ℕ.zero-suc m ∙ ap flip (sym (compare_ℕ.suc-zero m))
compare_numbers-flip (suc m) (suc n) =
    compare_ℕ.suc-suc n m ∙ compare_numbers-flip m n ∙ ap flip (sym (compare_ℕ.suc-suc m n))

compare-flip : (s t : String) → compare t s ≡ flip (compare s t)
compare-flip String.[] String.[] = compare.nil-nil ∙ ap flip (sym compare.nil-nil)
compare-flip String.[] (String.◌∷◌ d t) =
    compare.cons-nil d t ∙ ap flip (sym (compare.nil-cons d t))
compare-flip (String.◌∷◌ c s) String.[] =
    compare.nil-cons c s ∙ ap flip (sym (compare.cons-nil c s))
compare-flip (String.◌∷◌ c s) (String.◌∷◌ d t) =
    compare.cons-cons d c t s
    ∙ ap (λ o. first_of o (compare t s)) (compare_numbers-flip (code c) (code d))
    ∙ ap (first_of (flip (compare_ℕ (code c) (code d)))) (compare-flip s t)
    ∙ then-flip (compare_ℕ (code c) (code d)) (compare s t)
    ∙ ap flip (sym (compare.cons-cons c d s t))

text_leb-total : (s t : String) → text_leb s t ≡ false → text_leb t s ≡ true
text_leb-total s t h = other (compare s t) (compare t s) (compare-flip s t) h
  where
    other : (o p : Ordering) → p ≡ flip o → is_le o ≡ false → is_le p ≡ true
    other Ordering.lt p e bad = absurd (cc)
    other Ordering.eq p e bad = absurd (cc)
    other Ordering.gt p e bad = ap is_le e

-- The text is not above the first of the list.
abbrev Precedes : String → List String → Type 0
Precedes x [] = Unit
Precedes x (y ∷ ys) = text_leb x y ≡ true

abbrev IsSorted : List String → Type 0
IsSorted [] = Unit
IsSorted (x ∷ xs) = Precedes x xs × IsSorted xs

Precedes-insert_sorted :
    (x t : String) (xs : List String)
    → text_leb x t ≡ true
    → Precedes x xs
    → Precedes x (insert_sorted t xs)
unfolding insert_sorted
Precedes-insert_sorted x t [] h p = h
Precedes-insert_sorted x t (y ∷ ys) h p = elim (Bool-cases (text_leb t y)) [
  | inl e ↦ rw e h
  | inr e ↦ rw e p
]

insert_sorted-IsSorted :
    (t : String) (xs : List String) → IsSorted xs → IsSorted (insert_sorted t xs)
unfolding insert_sorted
insert_sorted-IsSorted t [] s = (tt, tt)
insert_sorted-IsSorted t (x ∷ xs) (p, s) = elim (Bool-cases (text_leb t x)) [
  | inl e ↦ rw e (e, (p, s))
  | inr e ↦
      rw e (Precedes-insert_sorted x t xs (text_leb-total t x e) p, insert_sorted-IsSorted t xs s)
]

sort_strings-IsSorted : (xs : List String) → IsSorted (sort_strings xs)
unfolding sort_strings
sort_strings-IsSorted [] = tt
sort_strings-IsSorted (x ∷ xs) =
    insert_sorted-IsSorted x (sort_strings xs) (sort_strings-IsSorted xs)

insert_sorted-first : (x : String) (xs : List String) → Precedes x xs → insert_sorted x xs ≡ x ∷ xs
unfolding insert_sorted
insert_sorted-first x [] p = refl
insert_sorted-first x (y ∷ ys) p = rw p refl

IsSorted-fixed : (xs : List String) → IsSorted xs → sort_strings xs ≡ xs
unfolding sort_strings
IsSorted-fixed [] s = refl
IsSorted-fixed (x ∷ xs) (p, s) =
    ap (insert_sorted x) (IsSorted-fixed xs s) ∙ insert_sorted-first x xs p

pub sort_strings-again : (xs : List String) → sort_strings (sort_strings xs) ≡ sort_strings xs
sort_strings-again xs = IsSorted-fixed (sort_strings xs) (sort_strings-IsSorted xs)
