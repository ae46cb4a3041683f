-- ===== src/RlService/FairQueue/History.antt =====
-- What `FairQueue` of control-plane/rlservice/policy.go gives back over a history of calls.
use mathlib.Core.List.{append-nil, append_assoc}
use skyscale.Prelude.{
  Bool-cases, ℕ, zero, suc, ◌+◌, ◌<◌, ◌≡◌, refl, sym, subst, ap, ◌∙◌, inl, inr, String, false, ◌==◌,
  List, [], ◌∷◌, ◌++◌, Option, none, some, lookup, lookup-insert, length, arith, eq_iff, eq_refl,
  Text-cases, if◌then◌else◌,
}
use skyscale.RlService.FairQueue.{FairQueue, new_fair_queue, items_of, or_nil, push, pop}
use skyscale.RlService.FairQueue.Pop.{
  visit, visit-advance, advance, IdleBefore, Serves, idle, serves, pop-Outcome,
}
use skyscale.RlService.FairQueue.Invariant.{Rotates, new-Rotates, push-Rotates, pop-Rotates}

pub data Call : Type 0 where
  pushes : String → String → Call
  takes : Call

-- The tenant whose turn it is: the first with work, from the cursor on.
turn_from : ℕ → FairQueue → String
turn_from zero q = ""
turn_from (suc left) q = elim (items_of (visit q 0) q.by_tenant) [
  | [] ↦ turn_from left (advance q)
  | _ ∷ _ ↦ visit q 0
]

pub turn : FairQueue → String
unfolding turn_from
turn q = turn_from (length q.order) q

abbrev credit : String → Option String → List (String × String)
credit t none = []
credit t (some x) = (t, x) ∷ []

-- A history's end, and the items that came back, each beside the tenant whose turn it was.
pub run : FairQueue → List Call → FairQueue × List (String × String)
run q [] = (q, [])
run q (pushes t x ∷ cs) = run (push t x q) cs
run q (takes ∷ cs) = let (q', given) = run (pop q).0 cs in (q', credit (turn q) (pop q).1 ++ given)

-- What was pushed for `t`, oldest first.
pub pushed_for : String → List Call → List String
pushed_for t [] = []
pushed_for t (pushes u x ∷ cs) = let later = pushed_for t cs in if u == t then x ∷ later else later
pushed_for t (takes ∷ cs) = pushed_for t cs

-- What came back for `t`, in that order.
pub given_to : String → List (String × String) → List String
given_to t [] = []
given_to t ((u, x) ∷ rest) = let later = given_to t rest in if u == t then x ∷ later else later

turn_from-visit :
    (left : ℕ) (q : FairQueue) (k : ℕ) (x : String) (rest : List String)
    → k < left
    → IdleBefore q k
    → items_of (visit q k) q.by_tenant ≡ x ∷ rest
    → turn_from left q ≡ visit q k
unfolding turn_from
turn_from-visit zero q k x rest h i e = absurd (omega arith)
turn_from-visit (suc left) q zero x rest h i e = rw (e, turn_from) refl
turn_from-visit (suc left) q (suc k) x rest h i e =
    let step : suc k ≡ k + 1 = omega arith in
    let there : visit q (suc k) ≡ visit (advance q) k = rw step (sym (visit-advance q k)) in
    rw (i 0 (omega arith), turn_from, there)
      (turn_from-visit left (advance q) k x rest (omega arith)
        (λ j lt. rw (visit-advance q j) (i (j + 1) (omega arith)))
        (rw (visit-advance q k, ← step) e))

given_to-append :
    (t : String) (xs ys : List (String × String))
    → given_to t (xs ++ ys) ≡ given_to t xs ++ given_to t ys
unfolding given_to
given_to-append t [] ys = refl
given_to-append t ((u, x) ∷ xs) ys = ground (arith, given_to-append t xs ys)

push-items :
    (t u x : String) (q : FairQueue)
    → items_of t (push u x q).by_tenant
      ≡ (if u == t then items_of t q.by_tenant ++ x ∷ [] else items_of t q.by_tenant)
unfolding push
push-items t u x q =
    ground (arith, lookup-insert u t (items_of u q.by_tenant ++ x ∷ []) q.by_tenant, eq_iff u t)

Serves-items :
    (t : String) (q q' : FairQueue) (k : ℕ) (item : String)
    → Serves q q' k item
    → items_of t q.by_tenant ≡ (if visit q k == t then item ∷ [] else []) ++ items_of t q'.by_tenant
Serves-items t q q' k item s = elim (Text-cases (visit q k) t) [
  | inl e ↦
      subst
        (λ u.
          items_of u q.by_tenant
          ≡ (if visit q k == u then item ∷ [] else []) ++ items_of u q'.by_tenant)
        e (rw (eq_refl (visit q k)) s.front)
  | inr ne ↦
      let off : (visit q k == t) ≡ false = ground (arith, eq_iff (visit q k) t) in
      rw off (ap or_nil (sym (s.others t off)))
]

pop-items :
    (t : String) (q : FairQueue)
    → items_of t q.by_tenant
      ≡ given_to t (credit (turn q) (pop q).1) ++ items_of t (pop q).0.by_tenant
unfolding given_to turn
pop-items t q = elim (pop-Outcome q) [
  | idle i n m o ↦ rw (n, m)
  | serves k item h found s ↦
      rw (found, turn_from-visit (length q.order) q k item _ h s.idle_before s.front)
        (Serves-items t q (pop q).0 k item s)
]

run-items :
    (t : String) (cs : List Call) (q : FairQueue)
    → items_of t q.by_tenant ++ pushed_for t cs
      ≡ given_to t (run q cs).1 ++ items_of t (run q cs).0.by_tenant
unfolding run pushed_for given_to
run-items t [] q = append-nil (items_of t q.by_tenant)
run-items t (pushes u x ∷ cs) q = elim (Bool-cases (u == t)) [
  | inl e ↦
      let h : items_of t (push u x q).by_tenant ≡ items_of t q.by_tenant ++ x ∷ [] =
        push-items t u x q ∙ (rw e) in
      rw e (
        sym (append_assoc (items_of t q.by_tenant) (x ∷ []) (pushed_for t cs))
        ∙ ap (λ l. l ++ pushed_for t cs) (sym h)
        ∙ run-items t cs (push u x q))
  | inr ne ↦
      let h : items_of t (push u x q).by_tenant ≡ items_of t q.by_tenant =
        push-items t u x q ∙ (rw ne) in
      rw ne (ap (λ l. l ++ pushed_for t cs) (sym h) ∙ run-items t cs (push u x q))
]
run-items t (takes ∷ cs) q =
    let c = given_to t (credit (turn q) (pop q).1) in
    let left = items_of t (pop q).0.by_tenant in
    let after = run (pop q).0 cs in
    ap (λ l. l ++ pushed_for t cs) (pop-items t q)
    ∙ append_assoc c left (pushed_for t cs)
    ∙ ap (λ l. c ++ l) (run-items t cs (pop q).0)
    ∙ sym (append_assoc c (given_to t after.1) (items_of t after.0.by_tenant))
    ∙ ap (λ l. l ++ items_of t after.0.by_tenant)
        (sym (given_to-append t (credit (turn q) (pop q).1) after.1))

-- In every history of calls from an empty queue, each tenant's items come back in the order in
-- which they were pushed for it, each once: what came back in its turns, followed by what is still
-- queued for it, is what was pushed for it.
pub tenant_fifo :
    (t : String) (cs : List Call)
    → pushed_for t cs
      ≡ given_to t (run new_fair_queue cs).1 ++ items_of t (run new_fair_queue cs).0.by_tenant
unfolding new_fair_queue lookup
tenant_fifo t cs = run-items t cs new_fair_queue

run-Rotates : (cs : List Call) (q : FairQueue) → Rotates q → Rotates (run q cs).0
unfolding run
run-Rotates [] q r = r
run-Rotates (pushes t x ∷ cs) q r = run-Rotates cs (push t x q) (push-Rotates t x q r)
run-Rotates (takes ∷ cs) q r = run-Rotates cs (pop q).0 (pop-Rotates q r)

-- After every history of calls from an empty queue the rotation lists exactly the keys of the map,
-- so no item is filed under a tenant that `Pop` never visits.
pub run-new-Rotates : (cs : List Call) → Rotates (run new_fair_queue cs).0
run-new-Rotates cs = run-Rotates cs new_fair_queue new-Rotates
