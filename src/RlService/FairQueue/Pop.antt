-- ===== src/RlService/FairQueue/Pop.antt =====
-- `FairQueue.Pop` of control-plane/rlservice/policy.go against a specification by slots.
use native.Mathlib.Nat.{mod-add-mod, add-zero}
use skyscale.Prelude.{
  ℕ, zero, suc, ◌+◌, ◌%◌, ◌<◌, ◌≡◌, refl, sym, ap, ◌∙◌, subst, ◌⊎◌, inl, inr, String, false, ◌==◌,
  List, [], ◌∷◌, Option, none, some, Dict, lookup, insert, lookup-insert, length, arith, eq_refl,
}
use skyscale.RlService.FairQueue.{FairQueue, items_of, tenant_at, pop_from, pop}

-- The tenant whose slot is `k` steps after the cursor.
abbrev pub visit : FairQueue → ℕ → String
visit q k = tenant_at q.order ((q.cursor + k) % length q.order)

-- Every slot from the cursor up to the `k`-th step belongs to a tenant without work.
abbrev pub IdleBefore : FairQueue → ℕ → Type 0
IdleBefore q k = (j : ℕ) → j < k → items_of (visit q j) q.by_tenant ≡ []

-- `q'` is `q` after the tenant `k` steps on was served its first item.
pub record Serves (q q' : FairQueue) (k : ℕ) (item : String) : Type 0 where
  pub idle_before : IdleBefore q k
  pub front : items_of (visit q k) q.by_tenant ≡ item ∷ items_of (visit q k) q'.by_tenant
  pub present : lookup (visit q k) q'.by_tenant ≡ some (items_of (visit q k) q'.by_tenant)
  pub others :
      (t : String) → (visit q k == t) ≡ false → lookup t q'.by_tenant ≡ lookup t q.by_tenant
  pub order : q'.order ≡ q.order
  pub cursor : q'.cursor ≡ (q.cursor + k) % length q.order + 1

pub data Outcome (q : FairQueue) (left : ℕ) (r : FairQueue × Option String) : Type 0 where
  idle :
      IdleBefore q left
      → r.1 ≡ none
      → r.0.by_tenant ≡ q.by_tenant
      → r.0.order ≡ q.order
      → Outcome q left r
  serves :
      (k : ℕ) (item : String) → k < left → r.1 ≡ some item → Serves q r.0 k item → Outcome q left r

abbrev pub advance : FairQueue → FairQueue
advance q = record q { cursor = q.cursor % length q.order + 1 }

pub mod-shift : (c k n : ℕ) → (c % n + 1 + k) % n ≡ (c + (k + 1)) % n
mod-shift c k n =
    let e : c % n + 1 + k ≡ c % n + (k + 1) = omega arith in rw e (mod-add-mod c n (k + 1))

pub visit-advance : (q : FairQueue) (k : ℕ) → visit (advance q) k ≡ visit q (k + 1)
visit-advance q k = ap (tenant_at q.order) (mod-shift q.cursor k (length q.order))

pub visit-zero : (q : FairQueue) → visit q 0 ≡ tenant_at q.order (q.cursor % length q.order)
visit-zero q =
    let e : q.cursor + 0 ≡ q.cursor = omega arith in
    ap (λ c. tenant_at q.order (c % length q.order)) e

abbrev current : FairQueue → String
current q = tenant_at q.order (q.cursor % length q.order)

IdleBefore-advance :
    (q : FairQueue) (k : ℕ)
    → items_of (current q) q.by_tenant ≡ []
    → IdleBefore (advance q) k
    → IdleBefore q (suc k)
IdleBefore-advance q k e i zero h = rw (visit-zero q) e
IdleBefore-advance q k e i (suc j) h =
    let s : suc j ≡ j + 1 = omega arith in rw (s, ← visit-advance q j) (i j (omega arith))

Outcome-advance :
    (q : FairQueue) (left : ℕ) (r : FairQueue × Option String)
    → items_of (current q) q.by_tenant ≡ []
    → Outcome (advance q) left r
    → Outcome q (suc left) r
Outcome-advance q left r e (idle i none_left same_items same_order) =
    idle (IdleBefore-advance q left e i) none_left same_items same_order
Outcome-advance q left r e (serves k item h found s) =
    serves (suc k) item (omega arith) found (record {
      idle_before = IdleBefore-advance q k e s.idle_before;
      front = rw (step, ← visit-advance q k) s.front;
      present = rw (step, ← visit-advance q k) s.present;
      others = λ t ne. s.others t (rw (visit-advance q k, ← step) ne);
      order = s.order;
      cursor = rw step (s.cursor ∙ ap (λ c. c + 1) (mod-shift q.cursor k (length q.order)));
    })
  where
    step : suc k ≡ k + 1
    step = omega arith

List-cases {ℓ} :
    {A : Type ℓ} (xs : List A) → (xs ≡ []) ⊎ ((x : A) × (rest : List A) × (xs ≡ x ∷ rest))
List-cases [] = inl refl
List-cases (x ∷ rest) = inr (x, rest, refl)

Serves-current :
    (q : FairQueue) (item : String) (rest : List String)
    → items_of (current q) q.by_tenant ≡ item ∷ rest
    → Serves q (record (advance q) { by_tenant = insert (current q) rest q.by_tenant }) 0 item
Serves-current q item rest e = record {
  idle_before = λ j h. elim h [ ];
  front = rw (
    visit-zero q,
    e,
    lookup-insert (current q) (current q) rest q.by_tenant,
    eq_refl (current q),
  );
  present =
      rw
        (visit-zero q, lookup-insert (current q) (current q) rest q.by_tenant, eq_refl (current q));
  others = λ t ne. rw (lookup-insert (current q) t rest q.by_tenant, (rw (visit-zero q) at ne));
  order = refl;
  cursor = ap (λ c. c % length q.order + 1) (sym (add-zero q.cursor));
}

pop_from-Outcome : (left : ℕ) (q : FairQueue) → Outcome q left (pop_from left q)
unfolding pop_from
pop_from-Outcome zero q = idle (λ j h. elim h [ ]) refl refl refl
pop_from-Outcome (suc left) q = elim (List-cases (items_of (current q) q.by_tenant)) [
  | inl e ↦ rw (e, pop_from) (Outcome-advance q left _ e (pop_from-Outcome left (advance q)))
  | inr (item, rest, e) ↦
      rw (e, pop_from) (serves 0 item (omega arith) refl (Serves-current q item rest e))
]

pop-eq :
    (m : Dict (List String)) (order : List String) (cursor : ℕ)
    → let q : FairQueue = record { by_tenant = m; order = order; cursor = cursor } in
      pop q ≡ pop_from (length order) q
unfolding pop pop_from
pop-eq m [] cursor = refl
pop-eq m (t ∷ order) cursor = refl

-- `Pop` visits every slot once, from the cursor on: it serves the first tenant that has work, whose
-- oldest item it returns and removes, or it returns nothing and no slot has work.
pub pop-Outcome : (q : FairQueue) → Outcome q (length q.order) (pop q)
pop-Outcome q =
    subst (Outcome q (length q.order)) (sym (pop-eq q.by_tenant q.order q.cursor))
      (pop_from-Outcome (length q.order) q)
