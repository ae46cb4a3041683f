-- ===== src/DataPlane/Invariant.antt =====
-- `MemoryMetadataStore` of control-plane/dataplane/store.go under any sequence of its methods.
use skyscale.Prelude.{
  ℕ, ◌≡◌, refl, inl, inr, String, Bool, true, false, not, ◌||◌, ◌==◌, List, [], ◌∷◌, map, none,
  Dict, lookup, insert, ltb, arith, All, Bool-cases, Option-cases, Distinct, insert-Distinct,
}
use skyscale.Prelude.Int.{ℤ}
use skyscale.DataPlane.Types.{SampleState, available, SampleRecord, key_of}
use skyscale.DataPlane.Metadata.{
  insert_sample, claim_group, candidates, of_group, sort_records, complete_groups, lease_to,
  write_all, finish_from, release_expired, delete_expired, is_leased, is_lapsed, is_retired,
  unlease,
}
use skyscale.DataPlane.Claim.{Keyed}
use skyscale.DataPlane.Exclusive.{List-cases}

-- A record that is not leased belongs to no lease.
abbrev pub IsFree : SampleRecord → Type 0
IsFree r = is_leased r.state ≡ false → (r.lease_id ≡ "") × (r.lease_expires_at ≡ 0)

-- Each record stands at its own key, and no key stands twice.
pub record IsKept (samples : Dict SampleRecord) : Type 0 where
  pub keyed : Keyed samples
  pub distinct : Distinct samples
  pub free : All (λ entry. IsFree entry.1) samples

insert-Keyed : (r : SampleRecord) (m : Dict SampleRecord) → Keyed m → Keyed (insert (key_of r) r m)
unfolding insert
insert-Keyed r [] k = (refl, tt)
insert-Keyed r ((j, s) ∷ m) k = elim (Bool-cases (j == key_of r)) [
  | inl same ↦ rw (insert, same) (refl, k.1)
  | inr other ↦ rw (insert, other) (k.0, insert-Keyed r m k.1)
]

insert-IsFree :
    (key : String) (r : SampleRecord) (m : Dict SampleRecord)
    → IsFree r
    → All (λ entry. IsFree entry.1) m
    → All (λ entry. IsFree entry.1) (insert key r m)
unfolding insert
insert-IsFree key r [] f a = (f, tt)
insert-IsFree key r ((j, s) ∷ m) f a = elim (Bool-cases (j == key)) [
  | inl same ↦ rw (insert, same) (f, a.1)
  | inr other ↦ rw (insert, other) (a.0, insert-IsFree key r m f a.1)
]

insert-IsKept :
    (r : SampleRecord) (m : Dict SampleRecord)
    → IsFree r
    → IsKept m
    → IsKept (insert (key_of r) r m)
insert-IsKept r m f i = record {
  keyed = insert-Keyed r m i.keyed;
  distinct = insert-Distinct (key_of r) r m i.distinct;
  free = insert-IsFree (key_of r) r m f i.free;
}

pub insert_sample-IsKept :
    (r : SampleRecord) (m : Dict SampleRecord) → IsFree r → IsKept m → IsKept (insert_sample r m).0
unfolding insert_sample
insert_sample-IsKept r m f i = elim (Option-cases (lookup (key_of r) m)) [
  | inr (existing, e) ↦ rw (e, insert_sample) i
  | inl e ↦ rw (e, insert_sample) (insert-IsKept r m f i)
]

write_all-IsKept :
    (lease_id owner : String) (expires : ℕ) (rs : List SampleRecord) (m : Dict SampleRecord)
    → IsKept m
    → IsKept (write_all (map (lease_to lease_id owner expires) rs) m)
unfolding write_all
write_all-IsKept lease_id owner expires [] m i = i
write_all-IsKept lease_id owner expires (r ∷ rs) m i =
    write_all-IsKept lease_id owner expires rs _
      (insert-IsKept (lease_to lease_id owner expires r) m (λ e. absurd (cc)) i)

pub claim_group-IsKept :
    (tenant_id run_id : String) (expected : ℤ) (lease_id owner : String) (expires : ℕ)
    (m : Dict SampleRecord)
    → IsKept m
    → IsKept (claim_group tenant_id run_id expected lease_id owner expires m).0
unfolding claim_group
claim_group-IsKept tenant_id run_id expected lease_id owner expires m i =
    elim (List-cases (complete_groups expected (candidates tenant_id run_id m))) [
      | inl e ↦ rw (e, claim_group) i
      | inr (g, gs, e) ↦
          rw (e, claim_group)
            (write_all-IsKept lease_id owner expires
              (sort_records (of_group g (candidates tenant_id run_id m))) m i)
    ]

-- A change of the records at their keys, or of fewer of them.
pub record Follows (m m' : Dict SampleRecord) : Type 0 where
  keyed : Keyed m → Keyed m'
  pub missing : (k : String) → lookup k m ≡ none → lookup k m' ≡ none
  distinct : Distinct m → Distinct m'
  free : All (λ entry. IsFree entry.1) m → All (λ entry. IsFree entry.1) m'

same : (m : Dict SampleRecord) → Follows m m
same m = record { keyed = λ k. k; missing = λ k e. e; distinct = λ d. d; free = λ f. f }

changed :
    (id : String) (r r' : SampleRecord) (m m' : Dict SampleRecord)
    → key_of r' ≡ key_of r
    → (IsFree r → IsFree r')
    → Follows m m'
    → Follows ((id, r) ∷ m) ((id, r') ∷ m')
unfolding lookup
changed id r r' m m' at_key frees f = record {
  keyed = λ k. (rw at_key k.0, f.keyed k.1);
  missing = λ k e. ground (arith, f.missing k);
  distinct = λ d. (f.missing id d.0, f.distinct d.1);
  free = λ a. (frees a.0, f.free a.1);
}

dropped :
    (id : String) (r : SampleRecord) (m m' : Dict SampleRecord)
    → Follows m m'
    → Follows ((id, r) ∷ m) m'
unfolding lookup
dropped id r m m' f = record {
  keyed = λ k. f.keyed k.1;
  missing = λ k e. f.missing k (ground arith);
  distinct = λ d. f.distinct d.1;
  free = λ a. f.free a.1;
}

pub Follows-IsKept : (m m' : Dict SampleRecord) → Follows m m' → IsKept m → IsKept m'
Follows-IsKept m m' f i = record {
  keyed = f.keyed i.keyed;
  distinct = f.distinct i.distinct;
  free = f.free i.free;
}

pub finish_from-Follows :
    (clock : String → ℕ) (lease_id owner : String) (state : SampleState) (found : Bool)
    (m : Dict SampleRecord)
    → Follows m (finish_from clock lease_id owner state found m).0
unfolding finish_from
finish_from-Follows clock lease_id owner state found [] = same []
finish_from-Follows clock lease_id owner state found ((id, r) ∷ m) =
    elim (Bool-cases (r.lease_id == lease_id)) [
      | inr other ↦
          rw (finish_from, other)
            (changed id r r m _ refl (λ f. f)
              (finish_from-Follows clock lease_id owner state (found || false) m))
      | inl mine ↦
          elim (Bool-cases (not (r.lease_owner == owner) || ltb r.lease_expires_at (clock id))) [
            | inl lost ↦ rw (finish_from, mine, lost) (same ((id, r) ∷ m))
            | inr held ↦
                rw (finish_from, mine, held)
                  (changed id r (unlease state r) m _ refl (λ f e. (refl, refl))
                    (finish_from-Follows clock lease_id owner state (found || true) m))
          ]
    ]

pub release_expired-Follows :
    (now : ℕ) (m : Dict SampleRecord) → Follows m (release_expired now m).0
unfolding release_expired
release_expired-Follows now [] = same []
release_expired-Follows now ((id, r) ∷ m) = elim (Bool-cases (is_lapsed now r)) [
  | inl lapsed ↦
      rw (release_expired, lapsed)
        (changed id r (unlease available r) m _ refl (λ f e. (refl, refl))
          (release_expired-Follows now m))
  | inr held ↦
      rw (release_expired, held) (changed id r r m _ refl (λ f. f) (release_expired-Follows now m))
]

pub delete_expired-Follows : (now : ℕ) (m : Dict SampleRecord) → Follows m (delete_expired now m).0
unfolding delete_expired
delete_expired-Follows now [] = same []
delete_expired-Follows now ((id, r) ∷ m) = elim (Bool-cases (is_retired now r)) [
  | inl retired ↦ rw (delete_expired, retired) (dropped id r m _ (delete_expired-Follows now m))
  | inr stays ↦
      rw (delete_expired, stays) (changed id r r m _ refl (λ f. f) (delete_expired-Follows now m))
]
