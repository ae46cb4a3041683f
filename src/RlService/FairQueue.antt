-- ===== src/RlService/FairQueue.antt =====
-- control-plane/rlservice/policy.go, `FairQueue`: one FIFO for each tenant, served in rotation. A
-- method that mutates `*FairQueue` under its mutex returns the new record, so a sequence of calls
-- is the sequence in which the lock was taken.
pub mod Pop
pub mod Fairness
pub mod Invariant
pub mod History
use skyscale.Prelude.{
  ℕ, zero, suc, ◌+◌, ◌%◌, ◌≡◌, refl, String, List, [], ◌∷◌, ◌++◌, Option, none, some, Dict, lookup,
  insert, length, get_elem?, sort_strings,
}

pub record FairQueue : Type 0 where
  pub by_tenant : Dict (List String)
  pub order : List String
  pub cursor : ℕ

unfoldable pub new_fair_queue : FairQueue
new_fair_queue = record { by_tenant = []; order = []; cursor = 0 }

abbrev or_nil : Option (List String) → List String
or_nil none = []
or_nil (some items) = items

-- q.byTenant[tenant]: a missing key reads as the nil slice.
abbrev pub items_of : String → Dict (List String) → List String
items_of tenant m = or_nil (lookup tenant m)

abbrev or_empty : Option String → String
or_empty none = ""
or_empty (some t) = t

-- q.order[i], where i is below the length.
unfoldable pub tenant_at : List String → ℕ → String
tenant_at order i = or_empty (get_elem? order i)

abbrev order_after : Option (List String) → String → List String → List String
order_after none tenant order = sort_strings (order ++ tenant ∷ [])
order_after (some _) tenant order = order

unfoldable pub push : String → String → FairQueue → FairQueue
push tenant item q = record q {
  by_tenant = insert tenant (items_of tenant q.by_tenant ++ item ∷ []) q.by_tenant;
  order = order_after (lookup tenant q.by_tenant) tenant q.order;
}

-- The loop of `Pop`, by the rounds that are left.
unfoldable pub pop_from : ℕ → FairQueue → FairQueue × Option String
pop_from zero q = (q, none)
pop_from (suc left) q =
    let slot = q.cursor % length q.order in
    let tenant = tenant_at q.order slot in
    let next = record q { cursor = slot + 1 } in
    elim (items_of tenant q.by_tenant) [
      | [] ↦ pop_from left next
      | item ∷ rest ↦ (record next { by_tenant = insert tenant rest q.by_tenant }, some item)
    ]

unfoldable pub pop : FairQueue → FairQueue × Option String
unfolding pop_from
pop q = elim q.order [ [] ↦ (q, none) | _ ↦ pop_from (length q.order) q ]
