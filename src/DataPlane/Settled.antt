-- ===== src/DataPlane/Settled.antt =====
-- Consumed and quarantined samples of control-plane/dataplane/store.go.
use skyscale.Prelude.{
  ℕ, ◌<◌, ◌≡◌, ◌⊎◌, refl, ap, inl, inr, String, Bool, true, false, not, ◌||◌, ◌==◌, [], ◌∷◌, none,
  some, Dict, lookup, ltb, err, arith, All, Bool-cases, Option-cases, Result-cases, Text-cases,
  eq_iff, Distinct, lookup-insert,
}
use skyscale.Prelude.Int.{ℤ}
use skyscale.DataPlane.Types.{
  SampleState, available, consumed, quarantined, SampleRecord, DataError, key_of,
}
use skyscale.DataPlane.Metadata.{
  insert_sample, claim_group, candidates, complete_groups, finish_from, finish_lease,
  release_expired, delete_expired, is_available, is_leased, is_lapsed, is_retired, unlease,
  state_after,
}
use skyscale.DataPlane.Exclusive.{List-cases}
use skyscale.DataPlane.Invariant.{IsFree, delete_expired-Follows}
use skyscale.DataPlane.Reachable.{
  Step, inserts, claims, finishes, releases, deletes, Reachable, Reachable-IsKept,
  Reachable-Exclusive,
}

insert_sample-stays :
    (k : String) (r s : SampleRecord) (m : Dict SampleRecord)
    → lookup k m ≡ some r
    → lookup k (insert_sample s m).0 ≡ some r
unfolding insert_sample
insert_sample-stays k r s m found = elim (Option-cases (lookup (key_of s) m)) [
  | inr (existing, e) ↦ rw (e, insert_sample) found
  | inl e ↦
      rw (e, insert_sample)
        (elim (Text-cases (key_of s) k) [
          | inl same_key ↦ absurd (let gone : lookup k m ≡ none = rw same_key at e in cc)
          | inr ne ↦ ground (arith, lookup-insert (key_of s) k s m, eq_iff (key_of s) k)
        ])
]

lookup-next :
    (k j : String) (r s s' : SampleRecord) (m m' : Dict SampleRecord)
    → (j == k) ≡ false
    → (lookup k m ≡ some r → lookup k m' ≡ some r)
    → lookup k ((j, s) ∷ m) ≡ some r
    → lookup k ((j, s') ∷ m') ≡ some r
unfolding lookup
lookup-next k j r s s' m m' other f h = rw other (f (rw (other, lookup) at h))

finish_from-stays :
    (clock : String → ℕ) (lease_id owner : String) (state : SampleState) (found : Bool) (k : String)
    (r : SampleRecord) (m : Dict SampleRecord)
    → ((id : String) → 0 < clock id)
    → All (λ entry. IsFree entry.1) m
    → is_leased r.state ≡ false
    → lookup k m ≡ some r
    → lookup k (finish_from clock lease_id owner state found m).0 ≡ some r
unfolding finish_from lookup
finish_from-stays clock lease_id owner state found k r [] later free off h = absurd (ground arith)
finish_from-stays clock lease_id owner state found k r ((j, s) ∷ m) later free off h =
    let lost = not (s.lease_owner == owner) || ltb s.lease_expires_at (clock j) in
    elim (Bool-cases (s.lease_id == lease_id)) [
      | inr other ↦ elim (Bool-cases (j == k)) [
        | inl here ↦ rw (finish_from, other, here) (rw (here, lookup) at h)
        | inr away ↦
            rw (finish_from, other)
              (lookup-next k j r s s m _ away
                (finish_from-stays clock lease_id owner state (found || false) k r m later free.1
                  off)
                h)
      ]
      | inl mine ↦ elim (Bool-cases lost) [
        | inl gone ↦ rw (finish_from, mine, gone) h
        | inr held ↦ elim (Bool-cases (j == k)) [
          | inl here ↦ absurd (
              let one : some s ≡ some r = rw (here, lookup) at h in
              let body : s ≡ r = cc in
              let zero_time = (free.0 (rw body off)).1 in ground (arith, later j))
          | inr away ↦
              rw (finish_from, mine, held)
                (lookup-next k j r s (unlease state s) m _ away
                  (finish_from-stays clock lease_id owner state (found || true) k r m later free.1
                    off)
                  h)
        ]
      ]
    ]

release_expired-stays :
    (now : ℕ) (k : String) (r : SampleRecord) (m : Dict SampleRecord)
    → is_leased r.state ≡ false
    → lookup k m ≡ some r
    → lookup k (release_expired now m).0 ≡ some r
unfolding release_expired lookup
release_expired-stays now k r [] off h = absurd (ground arith)
release_expired-stays now k r ((j, s) ∷ m) off h = elim (Bool-cases (j == k)) [
  | inl here ↦
      let one : some s ≡ some r = rw (here, lookup) at h in
      let body : s ≡ r = cc in
      let held : is_lapsed now s ≡ false =
        rw (ap (λ (x : SampleRecord). is_leased x.state) body, off) refl in
      rw (release_expired, held, here) one
  | inr away ↦ elim (Bool-cases (is_lapsed now s)) [
    | inl lapsed ↦
        rw (release_expired, lapsed)
          (lookup-next k j r s (unlease available s) m _ away (release_expired-stays now k r m off)
            h)
    | inr held ↦
        rw (release_expired, held)
          (lookup-next k j r s s m _ away (release_expired-stays now k r m off) h)
  ]
]

delete_expired-stays :
    (now : ℕ) (k : String) (r : SampleRecord) (m : Dict SampleRecord)
    → Distinct m
    → lookup k m ≡ some r
    → (lookup k (delete_expired now m).0 ≡ some r) ⊎ (lookup k (delete_expired now m).0 ≡ none)
unfolding delete_expired lookup
delete_expired-stays now k r [] d h = absurd (ground arith)
delete_expired-stays now k r ((j, s) ∷ m) d h = elim (Bool-cases (is_retired now s)) [
  | inl retired ↦ elim (Bool-cases (j == k)) [
    | inl here ↦
        rw (delete_expired, retired)
          (inr ((delete_expired-Follows now m).missing k (rw ((eq_iff j k).0 here) at d.0)))
    | inr away ↦
        rw (delete_expired, retired) (delete_expired-stays now k r m d.1 (rw (away, lookup) at h))
  ]
  | inr kept ↦ elim (Bool-cases (j == k)) [
    | inl here ↦ rw (delete_expired, kept, here) (inl (rw (here, lookup) at h))
    | inr away ↦
        rw (delete_expired, kept, away)
          (delete_expired-stays now k r m d.1 (rw (away, lookup) at h))
  ]
]

claim_group-failed :
    (tenant_id run_id : String) (expected : ℤ) (lease_id owner : String) (expires : ℕ)
    (m : Dict SampleRecord) (e : DataError)
    → (claim_group tenant_id run_id expected lease_id owner expires m).1 ≡ err e
    → (claim_group tenant_id run_id expected lease_id owner expires m).0 ≡ m
unfolding claim_group
claim_group-failed tenant_id run_id expected lease_id owner expires m e h =
    elim (List-cases (complete_groups expected (candidates tenant_id run_id m))) [
      | inl none_complete ↦ rw (none_complete, claim_group) refl
      | inr (g, gs, some_complete) ↦ absurd (let bad = rw (some_complete, claim_group) at h in cc)
    ]

claim_group-stays :
    (tenant_id run_id : String) (expected : ℤ) (lease_id owner : String) (expires : ℕ) (k : String)
    (r : SampleRecord) (m : Dict SampleRecord)
    → Reachable m
    → is_available r.state ≡ false
    → lookup k m ≡ some r
    → lookup k (claim_group tenant_id run_id expected lease_id owner expires m).0 ≡ some r
claim_group-stays tenant_id run_id expected lease_id owner expires k r m reached off found =
    let result = claim_group tenant_id run_id expected lease_id owner expires m in
    elim (Result-cases result.1) [
      | inl (e, failed) ↦
          rw (claim_group-failed tenant_id run_id expected lease_id owner expires m e failed) found
      | inr (lease, done) ↦
          let exclusive =
            Reachable-Exclusive tenant_id run_id expected lease_id owner expires m result.0 lease
              reached (ap (λ x. (result.0, x)) done) in
          exclusive.others k r found off
    ]

settled_off :
    (r : SampleRecord)
    → (r.state ≡ consumed) ⊎ (r.state ≡ quarantined)
    → (is_available r.state ≡ false) × (is_leased r.state ≡ false)
settled_off r (inl e) = rw e (refl, refl)
settled_off r (inr e) = rw e (refl, refl)

-- A sample that was consumed or quarantined stays so until it is deleted, through every call of the
-- store's methods: no claim, no lease that ends or lapses, and no insertion under its key changes
-- the record or makes it available again.
pub settled_is_final :
    (k : String) (r : SampleRecord) {m m' : Dict SampleRecord}
    → Reachable m
    → Step m m'
    → lookup k m ≡ some r
    → (r.state ≡ consumed) ⊎ (r.state ≡ quarantined)
    → (lookup k m' ≡ some r) ⊎ (lookup k m' ≡ none)
unfolding finish_lease
settled_is_final k r reached (inserts s f) found settled = inl (insert_sample-stays k r s _ found)
settled_is_final k r reached (claims tenant_id run_id expected lease_id owner expires) found
      settled =
    inl (
      claim_group-stays tenant_id run_id expected lease_id owner expires k r _ reached
        (settled_off r settled).0 found)
settled_is_final k r reached (finishes clock lease_id owner ack reason later) found settled = inl (
    finish_from-stays clock lease_id owner (state_after ack reason) false k r _ later
      (Reachable-IsKept reached).free (settled_off r settled).1 found)
settled_is_final k r reached (releases now) found settled =
    inl (release_expired-stays now k r _ (settled_off r settled).1 found)
settled_is_final k r reached (deletes now) found settled =
    delete_expired-stays now k r _ (Reachable-IsKept reached).distinct found
