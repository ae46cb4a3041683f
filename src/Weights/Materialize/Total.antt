-- ===== src/Weights/Materialize/Total.antt =====
-- The fuel of `materialize_version`, and the versions that `materializeLocked`
-- (control-plane/weights/service.go) is visiting.
use mathlib.Core.Option
use skyscale.Prelude.{
  ℕ, zero, suc, ◌<◌, ◌≤◌, ◌≡◌, refl, ◌≢◌, inl, inr, String, false, ◌==◌, List, [], ◌∷◌, Option,
  none, some, Dict, lookup, contains, length, if◌then◌else◌, Result, arith, eq_iff, eq_refl,
  Bool-cases, Option-cases,
}
use skyscale.Weights.Types.{Bytes, Publication, WeightError}
use skyscale.Weights.Materialize.{Depot, combine, materialize_from, materialize_version}

-- The entries whose key is not being visited.
pub unvisited : List String → Dict Publication → ℕ
unvisited visiting [] = 0
unvisited visiting ((v, p) ∷ m) =
    let rest = unvisited visiting m in if contains v visiting then rest else suc rest

unvisited-cons-le :
    (v : String) (visiting : List String) (m : Dict Publication)
    → unvisited (v ∷ visiting) m ≤ unvisited visiting m
unfolding unvisited contains
unvisited-cons-le v visiting [] = omega arith
unvisited-cons-le v visiting ((w, p) ∷ m) = ground (arith, unvisited-cons-le v visiting m)

-- To visit a key that is not visited yet leaves fewer.
pub unvisited-cons-lt :
    (v : String) (visiting : List String) (m : Dict Publication) (p : Publication)
    → contains v visiting ≡ false
    → lookup v m ≡ some p
    → unvisited (v ∷ visiting) m < unvisited visiting m
unfolding unvisited contains lookup
unvisited-cons-lt v visiting [] p h e = absurd (ground arith)
unvisited-cons-lt v visiting ((w, q) ∷ m) p h e = elim (Bool-cases (w == v)) [
  | inl same ↦
      let s : w ≡ v = (eq_iff w v).0 same in
      rw s (ground (arith, unvisited-cons-le v visiting m, eq_refl v))
  | inr other ↦ ground (arith, eq_iff w v, eq_iff v w, unvisited-cons-lt v visiting m p h)
]

pub unvisited-le : (visiting : List String) (m : Dict Publication) → unvisited visiting m ≤ length m
unfolding unvisited
unvisited-le visiting [] = omega arith
unvisited-le visiting ((v, p) ∷ m) = ground (arith, unvisited-le visiting m)

map-ne-none : {A B : Type 0} (f : A → B) (o : Option A) → o ≢ none → Option.map f o ≢ none
map-ne-none f none h e = h refl
map-ne-none f (some a) h e = cc

module _ (checksum : Bytes → String) (run_id : String) where
  materialize_from-ne-none :
      (fuel : ℕ) (version : String) (visiting : List String) (depot : Depot)
      → unvisited visiting depot.publications < fuel
      → materialize_from checksum run_id fuel version visiting depot ≢ none
  unfolding materialize_from
  materialize_from-ne-none zero version visiting depot h = absurd (omega arith)
  materialize_from-ne-none (suc fuel) version visiting depot h =
      elim (Bool-cases (contains version visiting)) [
        | inl seen ↦ rw seen (λ e. cc)
        | inr new ↦ elim (Option-cases (lookup version depot.publications)) [
          | inl e ↦ ground arith
          | inr (p, e) ↦
              let deeper =
                materialize_from-ne-none fuel p.manifest.parent_version (version ∷ visiting) depot
                  (omega (arith, unvisited-cons-lt version visiting depot.publications p new e)) in
              ground (
                arith,
                map-ne-none (combine checksum run_id version p _)
                    (materialize_from checksum run_id fuel p.manifest.parent_version
                      (version ∷ visiting) depot)
                    deeper,
              )
        ]
      ]

  -- Materializing a version always returns, with the bytes or with an error: the fuel, one more
  -- than there are publications, is never used up, whatever the parents of the publications are.
  pub materialize_version-total :
      (version : String) (depot : Depot)
      → (r : Depot × Result WeightError Bytes) × (materialize_version checksum run_id version depot
          ≡ some r)
  unfolding materialize_version
  materialize_version-total version depot =
      let enough =
        materialize_from-ne-none (suc (length depot.publications)) version [] depot
          (omega (arith, unvisited-le [] depot.publications)) in
      elim (Option-cases
        (materialize_from checksum run_id (suc (length depot.publications)) version [] depot)) [
          | inl e ↦ absurd (enough e)
          | inr found ↦ found
        ]
