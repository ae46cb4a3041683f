-- ===== src/DataPlane/Reachable.antt =====
-- `MemoryMetadataStore` of control-plane/dataplane/store.go from its start, under any sequence of its
-- methods.
use skyscale.Prelude.{ℕ, ◌<◌, ◌≡◌, String, Bool, false, [], Dict, ok}
use skyscale.Prelude.Int.{ℤ}
use skyscale.DataPlane.Types.{SampleRecord, Lease}
use skyscale.DataPlane.Metadata.{
  insert_sample, claim_group, finish_lease, release_expired, delete_expired, state_after,
}
use skyscale.DataPlane.Exclusive.{Exclusive, claim_group-Exclusive}
use skyscale.DataPlane.Invariant.{
  IsFree, IsKept, insert_sample-IsKept, claim_group-IsKept, Follows-IsKept, finish_from-Follows,
  release_expired-Follows, delete_expired-Follows,
}

-- One call of the store. A new record belongs to no lease, and the clock reads a time after the zero
-- time.
pub data Step : Dict SampleRecord → Dict SampleRecord → Type 0 where
  inserts : {m : Dict SampleRecord} (r : SampleRecord) → IsFree r → Step m (insert_sample r m).0
  claims :
      {m : Dict SampleRecord} (tenant_id run_id : String) (expected : ℤ) (lease_id owner : String)
      (expires : ℕ)
      → Step m (claim_group tenant_id run_id expected lease_id owner expires m).0
  finishes :
      {m : Dict SampleRecord} (clock : String → ℕ) (lease_id owner : String) (ack : Bool)
      (reason : String)
      → ((id : String) → 0 < clock id)
      → Step m (finish_lease clock lease_id owner ack reason m).0
  releases : {m : Dict SampleRecord} (now : ℕ) → Step m (release_expired now m).0
  deletes : {m : Dict SampleRecord} (now : ℕ) → Step m (delete_expired now m).0

-- The stores after any number of calls.
pub data Reachable : Dict SampleRecord → Type 0 where
  start : Reachable []
  step : {m m' : Dict SampleRecord} → Reachable m → Step m m' → Reachable m'

Step-IsKept : {m m' : Dict SampleRecord} → Step m m' → IsKept m → IsKept m'
unfolding finish_lease
Step-IsKept (inserts r f) i = insert_sample-IsKept r _ f i
Step-IsKept (claims tenant_id run_id expected lease_id owner expires) i =
    claim_group-IsKept tenant_id run_id expected lease_id owner expires _ i
Step-IsKept (finishes clock lease_id owner ack reason later) i =
    Follows-IsKept _ _ (finish_from-Follows clock lease_id owner (state_after ack reason) false _) i
Step-IsKept (releases now) i = Follows-IsKept _ _ (release_expired-Follows now _) i
Step-IsKept (deletes now) i = Follows-IsKept _ _ (delete_expired-Follows now _) i

-- In every store that calls of the methods have made, each record stands at its own key, each key
-- once, and a record that is not leased carries no lease.
pub Reachable-IsKept : {m : Dict SampleRecord} → Reachable m → IsKept m
Reachable-IsKept start = record { keyed = tt; distinct = tt; free = tt }
Reachable-IsKept (step r s) = Step-IsKept s (Reachable-IsKept r)

-- A claim that succeeds, in any store that calls of the methods have made, takes one group of the
-- tenant's run to itself: as many records as were expected, each of them stored, available, and of
-- that group, and each stored as leased afterwards, to the owner under the lease's identifier; and no
-- record that was leased, consumed or quarantined is touched.
pub Reachable-Exclusive :
    (tenant_id run_id : String) (expected : ℤ) (lease_id owner : String) (expires : ℕ)
    (samples samples' : Dict SampleRecord) (lease : Lease)
    → Reachable samples
    → claim_group tenant_id run_id expected lease_id owner expires samples ≡ (samples', ok lease)
    → Exclusive tenant_id run_id expected lease_id owner expires samples samples' lease
Reachable-Exclusive tenant_id run_id expected lease_id owner expires samples samples' lease r h =
    let i = Reachable-IsKept r in
    claim_group-Exclusive tenant_id run_id expected lease_id owner expires samples samples' lease
      i.keyed i.distinct h
