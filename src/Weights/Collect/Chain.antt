-- ===== src/Weights/Collect/Chain.antt =====
-- `retainChain` of control-plane/weights/service.go, and chains of parents.
use skyscale.Prelude.{
  ℕ, zero, suc, ◌<◌, ◌≡◌, refl, ap, ◌≢◌, ◌⊎◌, inl, inr, String, true, ◌||◌, ◌==◌, List, ◌∷◌, none,
  some, Dict, lookup, contains, length, arith, eq_iff, eq_refl, Bool-cases, Option-cases,
  Text-cases,
}
use skyscale.Weights.Types.{Publication, EngineState}
use skyscale.Weights.Materialize.Total.{unvisited, unvisited-cons-lt, unvisited-le}
use skyscale.Weights.Collect.{retain_chain, retain}

-- The parent of a kept version is kept, or is the version at hand.
abbrev Open : Dict Publication → List String → String → Type 0
Open m keep next =
    (v : String) (p : Publication)
    → contains v keep ≡ true
    → lookup v m ≡ some p
    → (p.manifest.parent_version ≡ next)
      ⊎ (p.manifest.parent_version ≡ "")
      ⊎ (contains p.manifest.parent_version keep ≡ true)

-- The parent of a kept version is kept, if it has one.
abbrev pub IsClosed : Dict Publication → List String → Type 0
IsClosed m keep =
    (v : String) (p : Publication)
    → contains v keep ≡ true
    → lookup v m ≡ some p
    → (p.manifest.parent_version ≡ "") ⊎ (contains p.manifest.parent_version keep ≡ true)

-- What a list of kept versions has to offer after `next` was retained.
pub record Retained (m : Dict Publication) (keep keep' : List String) (next : String) : Type 0 where
  pub closed : IsClosed m keep'
  pub grows : (v : String) → contains v keep ≡ true → contains v keep' ≡ true
  pub has_next : (next ≡ "") ⊎ (contains next keep' ≡ true)

close_now :
    (m : Dict Publication) (keep : List String) (next : String)
    → Open m keep next
    → (next ≡ "") ⊎ (contains next keep ≡ true)
    → Retained m keep keep next
close_now m keep next o h = record {
  closed = λ v p k e. ground (arith, o v p k e);
  grows = λ v k. k;
  has_next = h;
}

contains-cons :
    (v w : String) (keep : List String) → contains v (w ∷ keep) ≡ (w == v || contains v keep)
unfolding contains
contains-cons v w keep = refl

contains-cons_self : (v : String) (keep : List String) → contains v (v ∷ keep) ≡ true
unfolding contains
contains-cons_self v keep = rw (eq_refl v)

contains-cons_of :
    (v w : String) (keep : List String) → contains v keep ≡ true → contains v (w ∷ keep) ≡ true
unfolding contains
contains-cons_of v w keep h = ground arith

-- The parent of a version that was open before is not open once the version at hand is kept.
Open-tail :
    (m : Dict Publication) (keep : List String) (next : String) (v : String) (q : Publication)
    → Open m keep next
    → contains v keep ≡ true
    → lookup v m ≡ some q
    → (q.manifest.parent_version ≡ "") ⊎ (contains q.manifest.parent_version (next ∷ keep) ≡ true)
Open-tail m keep next v q o k e = elim (o v q k e) [
  | inl is_next ↦ inr (rw is_next (contains-cons_self next keep))
  | inr (inl blank) ↦ inl blank
  | inr (inr kept) ↦ inr (contains-cons_of q.manifest.parent_version next keep kept)
]

contains-cons_other :
    (v next : String) (keep : List String)
    → next ≢ v
    → contains v (next ∷ keep) ≡ true
    → contains v keep ≡ true
unfolding contains
contains-cons_other v next keep ne h = ground (arith, eq_iff next v)

stop_absent :
    (m : Dict Publication) (keep : List String) (next : String)
    → Open m keep next
    → lookup next m ≡ none
    → Retained m keep (next ∷ keep) next
stop_absent m keep next o absent = record {
  closed = λ v q k e. elim (Text-cases next v) [
    | inl same ↦ absurd (let missing : lookup v m ≡ none = rw same at absent in cc)
    | inr ne ↦ Open-tail m keep next v q o (contains-cons_other v next keep ne k) e
  ];
  grows = λ v k. contains-cons_of v next keep k;
  has_next = inr (contains-cons_self next keep);
}

Open-parent :
    (m : Dict Publication) (keep : List String) (next : String) (p : Publication)
    → Open m keep next
    → lookup next m ≡ some p
    → Open m (next ∷ keep) p.manifest.parent_version
Open-parent m keep next p o at v q k e = elim (Text-cases next v) [
  | inl same ↦
      let there : lookup v m ≡ some p = rw same at at in
      let one : q ≡ p = cc (e, there) in
      inl (ap (λ (x : Publication). x.manifest.parent_version) one)
  | inr ne ↦ inr (Open-tail m keep next v q o (contains-cons_other v next keep ne k) e)
]

retain_chain-Retained :
    (fuel : ℕ) (m : Dict Publication) (next : String) (keep : List String)
    → unvisited keep m < fuel
    → Open m keep next
    → Retained m keep (retain_chain fuel m next keep) next
unfolding retain_chain
retain_chain-Retained zero m next keep h o = absurd (omega arith)
retain_chain-Retained (suc fuel) m next keep h o =
    elim (Bool-cases (next == "" || contains next keep)) [
      | inl done ↦ rw done (close_now m keep next o (ground (arith, eq_iff next "")))
      | inr new ↦ elim (Option-cases (lookup next m)) [
        | inl e ↦ rw (new, e, retain_chain) (stop_absent m keep next o e)
        | inr (p, e) ↦
            let fewer = unvisited-cons-lt next keep m p (ground arith) e in
            let r =
              retain_chain-Retained fuel m p.manifest.parent_version (next ∷ keep)
                (omega (arith, fewer)) (Open-parent m keep next p o e) in
            rw (new, e, retain_chain)
              (record {
                closed = r.closed;
                grows = λ v k. r.grows v (contains-cons_of v next keep k);
                has_next = inr (r.grows next (contains-cons_self next keep));
              })
      ]
    ]

pub retain-Retained :
    (m : Dict Publication) (next : String) (keep : List String)
    → IsClosed m keep
    → Retained m keep (retain m next keep) next
unfolding retain
retain-Retained m next keep c =
    retain_chain-Retained (suc (length m)) m next keep (omega (arith, unvisited-le keep m))
      (λ v p k e. inr (c v p k e))

-- Every version that is asked for is kept, unless it is blank.
abbrev pub Kept : List String → String → Type 0
Kept keep v = (v ≡ "") ⊎ (contains v keep ≡ true)

abbrev pub Grows : List String → List String → Type 0
Grows keep keep' = (v : String) → contains v keep ≡ true → contains v keep' ≡ true

pub Kept-Grows :
    (keep keep' : List String) (v : String) → Grows keep keep' → Kept keep v → Kept keep' v
Kept-Grows keep keep' v g (inl e) = inl e
Kept-Grows keep keep' v g (inr k) = inr (g v k)

-- Each engine's desired, current and last good versions.
abbrev pub EngineKept : List String → EngineState → Type 0
EngineKept keep e =
    Kept keep e.desired_version × Kept keep e.current_version × Kept keep e.last_good_version
