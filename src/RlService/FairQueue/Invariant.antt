-- ===== src/RlService/FairQueue/Invariant.antt =====
-- `FairQueue` of control-plane/rlservice/policy.go over any history of calls: the tenants in rotation.
use skyscale.Prelude.{
  ℕ, ◌≡◌, refl, sym, subst, ◌∙◌, ◌↔◌, inl, inr, String, Bool, true, false, ◌==◌, List, [], ◌∷◌,
  ◌++◌, Option, none, some, lookup, lookup-insert, length, arith, eq_iff, eq_refl, Bool-cases,
  Text-cases, if◌then◌else◌, contains, contains-append, contains-sort_strings,
}
use skyscale.RlService.FairQueue.{
  FairQueue, new_fair_queue, items_of, or_nil, order_after, push, pop,
}
use skyscale.RlService.FairQueue.Fairness.{slot_of}
use skyscale.RlService.FairQueue.Pop.{visit, IdleBefore, Serves, idle, serves, pop-Outcome}

abbrev is_some : Option (List String) → Bool
is_some none = false
is_some (some _) = true

-- The tenants in rotation are the keys of the map.
abbrev pub Rotates : FairQueue → Type 0
Rotates q = (t : String) → contains t q.order ≡ is_some (lookup t q.by_tenant)

pub new-Rotates : Rotates new_fair_queue
unfolding new_fair_queue contains lookup
new-Rotates t = refl

contains_self : (t : String) → contains t (t ∷ []) ≡ true
unfolding contains
contains_self t = rw (eq_refl t)

contains_other : (t u : String) → contains u (t ∷ []) ≡ (t == u)
unfolding contains
contains_other t u = ground arith

order_after-contains :
    (o : Option (List String)) (t u : String) (order : List String)
    → contains t order ≡ is_some o
    → contains u (order_after o t order) ≡ (if t == u then true else contains u order)
order_after-contains none t u order h =
    rw
      (
        contains-sort_strings u (order ++ t ∷ []),
        contains-append u order (t ∷ []),
        contains_other t u,
      )
      (ground arith)
order_after-contains (some _) t u order h = ground (arith, eq_iff t u)

pub push-Rotates : (t x : String) (q : FairQueue) → Rotates q → Rotates (push t x q)
unfolding push
push-Rotates t x q r u = ground (
  arith,
  order_after-contains (lookup t q.by_tenant) t u q.order,
  lookup-insert t u (items_of t q.by_tenant ++ x ∷ []) q.by_tenant,
  r t,
  r u,
)

is_some_of_items :
    (o : Option (List String)) (x : String) (xs : List String)
    → or_nil o ≡ x ∷ xs
    → is_some o ≡ true
is_some_of_items none x xs e = cc
is_some_of_items (some items) x xs e = refl

Serves-Rotates :
    (q q' : FairQueue) (k : ℕ) (item : String) → Serves q q' k item → Rotates q → Rotates q'
Serves-Rotates q q' k item s r t = elim (Text-cases (visit q k) t) [
  | inl e ↦
      subst (λ u. contains u q'.order ≡ is_some (lookup u q'.by_tenant)) e
        (rw (s.order, s.present) (r (visit q k) ∙ is_some_of_items _ item _ s.front))
  | inr ne ↦ rw (s.order, s.others t (ground (arith, eq_iff (visit q k) t))) (r t)
]

pub pop-Rotates : (q : FairQueue) → Rotates q → Rotates (pop q).0
pop-Rotates q r = elim (pop-Outcome q) [
  | idle i n m o ↦ λ t. rw (o, m) (r t)
  | serves k item h found s ↦ Serves-Rotates q (pop q).0 k item s r
]

no_items : (o : Option (List String)) → false ≡ is_some o → or_nil o ≡ []
no_items none e = refl
no_items (some items) e = cc

idle-no_items :
    (q : FairQueue)
    → Rotates q
    → IdleBefore q (length q.order)
    → (t : String) → items_of t q.by_tenant ≡ []
idle-no_items q r i t = elim (Bool-cases (contains t q.order)) [
  | inl h ↦ let (w, near, e) = slot_of q t h in rw e at (i w near)
  | inr h ↦ no_items (lookup t q.by_tenant) (sym h ∙ r t)
]

-- `Pop` comes back empty exactly when no tenant has an item left, in a queue whose rotation lists
-- the keys of its map, as every queue that calls of `Push` and `Pop` have made.
pub pop-none_iff :
    (q : FairQueue) → Rotates q → ((pop q).1 ≡ none) ↔ ((t : String) → items_of t q.by_tenant ≡ [])
pop-none_iff q r = elim (pop-Outcome q) [
  | idle i n m o ↦ (λ _ t. idle-no_items q r i t, λ _. n)
  | serves k item h found s ↦ (
    λ e. absurd (cc),
    λ all. let e : items_of (visit q k) q.by_tenant ≡ [] = all (visit q k) in absurd (cc),
  )
]
