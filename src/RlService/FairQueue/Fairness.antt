-- ===== src/RlService/FairQueue/Fairness.antt =====
-- `FairQueue` of control-plane/rlservice/policy.go over several calls of `Pop`: when a tenant is served.
use native.Mathlib.Nat.{mod-lt, mod-add-mod, add-mod-mod, add-mod_right, mod-eq_of_lt}
use skyscale.Prelude.{
  contains, ℕ, zero, suc, ◌+◌, ◌-◌, ◌%◌, ◌<◌, ◌≤◌, ◌≡◌, sym, ap, ◌∙◌, ◌⊎◌, inl, inr, String, true,
  Bool-cases, ◌==◌, ◌≢◌, List, [], ◌∷◌, Option, some, length, arith, eq_iff, Text-cases,
}
use skyscale.RlService.FairQueue.{FairQueue, items_of, tenant_at, pop, or_nil}
use skyscale.RlService.FairQueue.Pop.{
  visit, IdleBefore, Serves, Outcome, idle, serves, mod-shift, pop-Outcome,
}

-- The queue after `m` calls of `Pop`.
pub pops : ℕ → FairQueue → FairQueue
pops zero q = q
pops (suc m) q = pops m (pop q).0

-- Tenant `t` has `x` first in its queue, and its slot is `w` steps from the cursor.
pub record Waits (q : FairQueue) (t : String) (x : String) (rest : List String) (w : ℕ)
    : Type 0 where
  pub near : w < length q.order
  pub slot : visit q w ≡ t
  pub queue : items_of t q.by_tenant ≡ x ∷ rest

abbrev Advanced : FairQueue → FairQueue × Option String → String → String → List String → ℕ → Type 0
Advanced q r t x rest w =
    ((r.1 ≡ some x) × (items_of t r.0.by_tenant ≡ rest))
    ⊎ ((v : ℕ) × (v < w) × Waits r.0 t x rest v)

cons-injective : {x y : String} {xs ys : List String} → x ∷ xs ≡ y ∷ ys → (x ≡ y) × (xs ≡ ys)
cons-injective e = (cc, cc)

pub same_slot : (c k v n : ℕ) → ((c + k) % n + 1 + v) % n ≡ (c + (k + 1 + v)) % n
same_slot c k v n =
    let e : c + k + (v + 1) ≡ c + (k + 1 + v) = omega arith in
    mod-shift (c + k) v n ∙ ap (λ s. s % n) e

order-cases : (k w : ℕ) → (w < k) ⊎ (k ≡ w) ⊎ (k < w)
order-cases k w = grind arith

not_idle :
    (q : FairQueue) (t x : String) (rest : List String) (w k : ℕ)
    → w < k
    → IdleBefore q k
    → Waits q t x rest w
    → ⊥
not_idle q t x rest w k h i a = let e : items_of t q.by_tenant ≡ [] = rw a.slot at (i w h) in cc

module _ (q : FairQueue) (r : FairQueue × Option String) (k : ℕ) (item t x : String)
    (rest : List String) (found : r.1 ≡ some item) (s : Serves q r.0 k item) where
  served_now :
      visit q k ≡ t
      → items_of t q.by_tenant ≡ x ∷ rest
      → (r.1 ≡ some x) × (items_of t r.0.by_tenant ≡ rest)
  served_now e queue =
      let front : items_of t q.by_tenant ≡ item ∷ items_of t r.0.by_tenant = rw e at s.front in
      (cc, cc)

  keeps_waiting : (v : ℕ) → visit q k ≢ t → Waits q t x rest (k + 1 + v) → Waits r.0 t x rest v
  keeps_waiting v ne a = record {
    near = rw s.order (omega arith);
    slot =
        rw (s.order, s.cursor)
          (ap (tenant_at q.order) (same_slot q.cursor k v (length q.order)) ∙ a.slot);
    queue = ap or_nil (s.others t (ground (arith, eq_iff (visit q k) t))) ∙ a.queue;
  }

  Serves-Advanced : (w : ℕ) → Waits q t x rest w → Advanced q r t x rest w
  Serves-Advanced w a = elim (Text-cases (visit q k) t) [
    | inl e ↦ inl (served_now e a.queue)
    | inr ne ↦ elim (order-cases k w) [
      | inl after ↦ absurd (not_idle q t x rest w k after s.idle_before a)
      | inr (inl e) ↦ absurd (ne (ap (visit q) e ∙ a.slot))
      | inr (inr before) ↦
          let e : w ≡ k + 1 + (w - (k + 1)) = omega arith in
          inr (w - (k + 1), omega arith, keeps_waiting (w - (k + 1)) ne (rw e at a))
    ]
  ]

pop-Advanced :
    (q : FairQueue) (t x : String) (rest : List String) (w : ℕ)
    → Waits q t x rest w
    → Advanced q (pop q) t x rest w
pop-Advanced q t x rest w a = by_outcome (pop-Outcome q)
  where
    by_outcome : Outcome q (length q.order) (pop q) → Advanced q (pop q) t x rest w
    by_outcome (idle i n m o) = absurd (not_idle q t x rest w (length q.order) a.near i a)
    by_outcome (serves k item h found s) = Serves-Advanced q (pop q) k item t x rest found s w a

abbrev ServedBy : FairQueue → String → String → List String → ℕ → Type 0
ServedBy q t x rest m =
    ((pop (pops m q)).1 ≡ some x) × (items_of t (pop (pops m q)).0.by_tenant ≡ rest)

served_from :
    (bound w : ℕ) (q : FairQueue) (t x : String) (rest : List String)
    → w < bound
    → Waits q t x rest w
    → (m : ℕ) × (m ≤ w) × ServedBy q t x rest m
unfolding pops
served_from zero w q t x rest h a = absurd (omega arith)
served_from (suc bound) w q t x rest h a = elim (pop-Advanced q t x rest w a) [
  | inl now ↦ (0, omega arith, now)
  | inr (v, near, later) ↦
      let (m, le, done) = served_from bound v (pop q).0 t x rest (omega arith) later in
      (suc m, omega arith, done)
]

position :
    (t : String) (order : List String)
    → contains t order ≡ true
    → (i : ℕ) × (i < length order) × (tenant_at order i ≡ t)
unfolding contains tenant_at
position t [] h = cc
position t (y ∷ ys) h = elim (Bool-cases (y == t)) [
  | inl e ↦ (0, omega arith, (eq_iff y t).0 e)
  | inr ne ↦ let (i, lt, e) = position t ys (ground arith) in (suc i, omega arith, e)
]

steps_to_slot : (c i n : ℕ) → i < n → (c + (i + n - c % n) % n) % n ≡ i
steps_to_slot c i n h =
    add-mod-mod c (i + n - c % n) n
    ∙ sym (mod-add-mod c n (i + n - c % n))
    ∙ ap (λ s. s % n) (sum_lem (mod-lt c {m = n} (omega arith)))
    ∙ add-mod_right i n
    ∙ mod-eq_of_lt h
  where
    sum_lem : c % n < n → c % n + (i + n - c % n) ≡ i + n
    sum_lem lt = omega arith

-- A tenant in rotation has a slot less than a round away from the cursor.
pub slot_of :
    (q : FairQueue) (t : String)
    → contains t q.order ≡ true
    → (w : ℕ) × (w < length q.order) × (visit q w ≡ t)
slot_of q t h =
    let (i, lt, at_i) = position t q.order h in
    let n = length q.order in
    (
      (i + n - q.cursor % n) % n,
      mod-lt (i + n - q.cursor % n) {m = n} (omega arith),
      ap (tenant_at q.order) (steps_to_slot q.cursor i n lt) ∙ at_i,
    )

-- A tenant in rotation whose oldest item is `x` gets `x` back from one of the next `Pop` calls, at
-- most as many as there are tenants in rotation, whatever the other tenants have queued and
-- wherever the cursor stands, provided that nothing is pushed in between.
pub served_within_a_round :
    (q : FairQueue) (t x : String) (rest : List String)
    → contains t q.order ≡ true
    → items_of t q.by_tenant ≡ x ∷ rest
    → (m : ℕ) × (m < length q.order)
      × ((pop (pops m q)).1 ≡ some x)
      × (items_of t (pop (pops m q)).0.by_tenant ≡ rest)
served_within_a_round q t x rest h e =
    let (w, near, at_t) = slot_of q t h in
    let a : Waits q t x rest w = record { near = near; slot = at_t; queue = e } in
    let (m, le, done) = served_from (suc w) w q t x rest (omega arith) a in
    (m, omega arith, done.0, done.1)
