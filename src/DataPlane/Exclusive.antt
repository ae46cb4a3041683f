-- ===== src/DataPlane/Exclusive.antt =====
-- `ClaimGroup` of control-plane/dataplane/store.go, and the records of the lease that it makes.
use skyscale.Prelude.{
  ℕ, ◌≡◌, ◌≢◌, ◌⊎◌, refl, sym, ap, ◌∙◌, inl, inr, String, true, false, ◌==◌, List, [], ◌∷◌, map,
  some, Dict, lookup, insert, length, ok, arith, All, Text-cases, eq_iff, eq_refl, Distinct,
  lookup-insert,
}
use skyscale.Prelude.Int.{ℤ}
use skyscale.DataPlane.Types.{SampleRecord, Lease, key_of}
use skyscale.DataPlane.Metadata.{
  claim_group, candidates, is_candidate, is_available, of_group, is_count, complete_groups,
  sort_records, lease_to, write_all,
}
use skyscale.DataPlane.Claim.{
  Keyed, Stored, All-map, entries_found, Keyed-Stored, candidates-All, select-All, sort_records-All,
  length-sort_records, complete_groups-is_count,
}

module _ (samples : Dict SampleRecord) (lease_id owner : String) (expires : ℕ) where
  abbrev leases : SampleRecord → SampleRecord
  leases r = lease_to lease_id owner expires r

  -- Writing the records of a lease leaves a record at another key.
  write_all-other :
      (k : String) (r : SampleRecord) (claimed : List SampleRecord) (m : Dict SampleRecord)
      → All (λ c. key_of c ≢ k) claimed
      → lookup k m ≡ some r
      → lookup k (write_all (map leases claimed) m) ≡ some r
  unfolding write_all
  write_all-other k r [] m apart found = found
  write_all-other k r (c ∷ cs) m apart found =
      write_all-other k r cs (insert (key_of c) (leases c) m) apart.1
        (ground (arith, lookup-insert (key_of c) k (leases c) m, eq_iff (key_of c) k, apart.0))

  -- What was written at a key stays: two stored records with one key are one.
  write_all-kept :
      (c : SampleRecord) (claimed : List SampleRecord) (m : Dict SampleRecord)
      → Stored samples c
      → All (Stored samples) claimed
      → lookup (key_of c) m ≡ some (leases c)
      → lookup (key_of c) (write_all (map leases claimed) m) ≡ some (leases c)
  unfolding write_all
  write_all-kept c [] m stored all found = found
  write_all-kept c (d ∷ ds) m stored all found =
      write_all-kept c ds (insert (key_of d) (leases d) m) stored all.1
        (elim (Text-cases (key_of d) (key_of c)) [
          | inl e ↦
              let there : lookup (key_of c) samples ≡ some d = rw e at all.0 in
              let one : some c ≡ some d = cc in
              let same : c ≡ d = cc in
              lookup-insert (key_of d) (key_of c) (leases d) m
              ∙ rw (e, eq_refl (key_of c)) (ap (λ r. some (leases r)) (sym same))
          | inr ne ↦ ground (
            arith,
            lookup-insert (key_of d) (key_of c) (leases d) m,
            eq_iff (key_of d) (key_of c),
          )
        ])

  write_all-written :
      (claimed : List SampleRecord) (m : Dict SampleRecord)
      → All (Stored samples) claimed
      → All (λ c. lookup (key_of c) (write_all (map leases claimed) m) ≡ some (leases c)) claimed
  unfolding write_all
  write_all-written [] m all = tt
  write_all-written (c ∷ cs) m all =
      let m' = insert (key_of c) (leases c) m in
      let here : lookup (key_of c) m' ≡ some (leases c) =
        lookup-insert (key_of c) (key_of c) (leases c) m ∙ rw (eq_refl (key_of c)) refl in
      (write_all-kept c cs m' all.0 all.1 here, write_all-written cs m' all.1)

-- A stored record of the run, available, and of group `g`.
abbrev pub Taken : String → String → String → Dict SampleRecord → SampleRecord → Type 0
Taken tenant_id run_id g samples r =
    Stored samples r × (is_candidate tenant_id run_id r ≡ true) × (r.prompt_group_id ≡ g)

-- What a lease took: `claimed` are the records as they were.
pub record Exclusive (tenant_id run_id : String) (expected : ℤ) (lease_id owner : String)
    (expires : ℕ) (samples samples' : Dict SampleRecord) (lease : Lease) : Type 0 where
  pub claimed : List SampleRecord
  pub leased : lease.samples ≡ map (lease_to lease_id owner expires) claimed
  pub whole : is_count expected (length claimed) ≡ true
  pub taken : All (Taken tenant_id run_id lease.prompt_group_id samples) claimed
  pub written :
      All (λ r. lookup (key_of r) samples' ≡ some (lease_to lease_id owner expires r)) claimed
  pub others :
      (k : String) (r : SampleRecord)
      → lookup k samples ≡ some r
      → is_available r.state ≡ false
      → lookup k samples' ≡ some r

sort_records-Taken :
    (tenant_id run_id g : String) (samples : Dict SampleRecord)
    → Keyed samples
    → Distinct samples
    → All
        (Taken tenant_id run_id g samples)
        (sort_records (of_group g (candidates tenant_id run_id samples)))
sort_records-Taken tenant_id run_id g samples keyed distinct =
    let stored = Keyed-Stored samples samples keyed (entries_found samples distinct) in
    let found = candidates-All (Stored samples) tenant_id run_id samples stored in
    let rs = candidates tenant_id run_id samples in
    let grouped =
      select-All (λ r. Stored samples r × (is_candidate tenant_id run_id r ≡ true))
        (λ r. r.prompt_group_id == g) rs found in
    sort_records-All (Taken tenant_id run_id g samples) (of_group g rs)
      (All-map (of_group g rs) (λ r t. (t.0.0, t.0.1, (eq_iff r.prompt_group_id g).0 t.1)) grouped)

pub List-cases :
    {A : Type 0} (xs : List A) → (xs ≡ []) ⊎ ((x : A) × (rest : List A) × (xs ≡ x ∷ rest))
List-cases [] = inl refl
List-cases (x ∷ rest) = inr (x, rest, refl)

-- A record that is not available stands at no claimed key.
claimed_elsewhere :
    (tenant_id run_id g k : String) (samples : Dict SampleRecord) (r : SampleRecord)
    (claimed : List SampleRecord)
    → lookup k samples ≡ some r
    → is_available r.state ≡ false
    → All (Taken tenant_id run_id g samples) claimed
    → All (λ c. key_of c ≢ k) claimed
claimed_elsewhere tenant_id run_id g k samples r claimed found taken all =
    All-map claimed
      (λ c t e.
        let there : lookup k samples ≡ some c = rw e at t.0 in
        let one : some c ≡ some r = cc in
        let same : c ≡ r = cc in
        let off : is_available c.state ≡ false = rw same taken in ground (arith, t.1))
      all

-- The claim of group `g`.
claim_group-first :
    (tenant_id run_id g : String) (gs : List String) (expected : ℤ) (lease_id owner : String)
    (expires : ℕ) (samples samples' : Dict SampleRecord) (lease : Lease)
    → complete_groups expected (candidates tenant_id run_id samples) ≡ g ∷ gs
    → claim_group tenant_id run_id expected lease_id owner expires samples ≡ (samples', ok lease)
    → let claimed =
        map
          (lease_to lease_id owner expires)
          (sort_records (of_group g (candidates tenant_id run_id samples))) in
      (lease.samples ≡ claimed)
      × (lease.prompt_group_id ≡ g)
      × (write_all claimed samples ≡ samples')
unfolding claim_group
claim_group-first tenant_id run_id g gs expected lease_id owner expires samples samples' lease e h =
    let done = rw (e, claim_group) at h in (cc (done), cc (done), cc (done))

-- A claim that succeeds takes one group of the tenant's run to itself: as many records as were
-- expected, each of them stored, available, and of that group, and each stored as leased afterwards,
-- to the owner under the lease's identifier; and no record that was leased, consumed or quarantined
-- is touched. The records stand at their own keys, each key once, as the store keeps them.
pub claim_group-Exclusive :
    (tenant_id run_id : String) (expected : ℤ) (lease_id owner : String) (expires : ℕ)
    (samples samples' : Dict SampleRecord) (lease : Lease)
    → Keyed samples
    → Distinct samples
    → claim_group tenant_id run_id expected lease_id owner expires samples ≡ (samples', ok lease)
    → Exclusive tenant_id run_id expected lease_id owner expires samples samples' lease
unfolding claim_group
claim_group-Exclusive tenant_id run_id expected lease_id owner expires samples samples' lease keyed
      distinct h =
    let rs = candidates tenant_id run_id samples in
    elim (List-cases (complete_groups expected rs)) [
      | inl e ↦ absurd (let bad = rw (e, claim_group) at h in cc)
      | inr (g, gs, e) ↦
          let claimed = sort_records (of_group g rs) in
          let (leased, group, after) =
            claim_group-first tenant_id run_id g gs expected lease_id owner expires samples samples'
              lease e h in
          let all = sort_records-Taken tenant_id run_id g samples keyed distinct in
          record {
            claimed = claimed;
            leased = leased;
            whole =
                rw (length-sort_records (of_group g rs))
                  (complete_groups-is_count expected rs g gs e);
            taken = rw group all;
            written = rw (← after) (
                write_all-written samples lease_id owner expires claimed samples
                  (All-map claimed (λ c t. t.0) all));
            others = λ k r found off. rw (← after) (
                write_all-other samples lease_id owner expires k r claimed samples
                  (claimed_elsewhere tenant_id run_id g k samples r claimed found off all) found);
          }
    ]
