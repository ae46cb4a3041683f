-- ===== src/DataPlane/Finish.antt =====
-- `FinishLease` of control-plane/dataplane/store.go: what its success and its failure mean.
use skyscale.Prelude.{
  ℕ, ◌≡◌, refl, ◌↔◌, inl, inr, ◌≤◌, String, Bool, true, false, not, ◌||◌, ◌==◌, [], ◌∷◌, Dict,
  map_values, ltb, if◌then◌else◌, ok, err, arith, All, Bool-cases, eq_iff,
}
use skyscale.DataPlane.Types.{SampleState, SampleRecord, lease_lost}
use skyscale.DataPlane.Metadata.{finish_from, finish_lease, state_after, unlease}

-- Every record of the lease is the owner's, and the clock has not passed its expiry.
abbrev pub Held : (String → ℕ) → String → String → Dict SampleRecord → Type 0
Held clock lease_id owner samples =
    All
      (λ entry.
        entry.1.lease_id ≡ lease_id
        → (entry.1.lease_owner ≡ owner) × (clock entry.0 ≤ entry.1.lease_expires_at))
      samples

-- Some record is of the lease.
unfoldable pub has_lease : String → Dict SampleRecord → Bool
has_lease lease_id [] = false
has_lease lease_id ((_, r) ∷ samples) = r.lease_id == lease_id || has_lease lease_id samples

abbrev pub finished : String → SampleState → SampleRecord → SampleRecord
finished lease_id state r = if r.lease_id == lease_id then unlease state r else r

-- What a run of the loop that returns no error has done.
record Finished (clock : String → ℕ) (lease_id owner : String) (state : SampleState) (found : Bool)
    (samples samples' : Dict SampleRecord) : Type 0 where
  all_held : Held clock lease_id owner samples
  present : (found || has_lease lease_id samples) ≡ true
  after : samples' ≡ map_values (finished lease_id state) samples

not_false : (b : Bool) → (b || false) ≡ b
not_false true = refl
not_false false = refl

finish_from-Finished :
    (clock : String → ℕ) (lease_id owner : String) (state : SampleState) (found : Bool)
    (samples : Dict SampleRecord)
    → (finish_from clock lease_id owner state found samples).1 ≡ ok tt
    → Finished clock lease_id owner state found samples
        (finish_from clock lease_id owner state found samples).0
unfolding finish_from has_lease map_values
finish_from-Finished clock lease_id owner state found [] h = record {
  all_held = tt;
  present = ground arith;
  after = refl;
}
finish_from-Finished clock lease_id owner state found ((id, r) ∷ samples) h =
    elim (Bool-cases (r.lease_id == lease_id)) [
      | inr other ↦
          let i =
            finish_from-Finished clock lease_id owner state found samples
              (rw (other, finish_from, not_false found) at h) in
          record {
            all_held = (λ e. absurd (ground (arith, eq_iff r.lease_id lease_id)), i.all_held);
            present = rw other i.present;
            after = rw (other, finish_from, not_false found, i.after) refl;
          }
      | inl mine ↦
          elim (Bool-cases (not (r.lease_owner == owner) || ltb r.lease_expires_at (clock id))) [
            | inl lost ↦
                absurd (let bad : err lease_lost ≡ ok tt = rw (mine, finish_from, lost) at h in cc)
            | inr held ↦
                let i =
                  finish_from-Finished clock lease_id owner state (found || true) samples
                    (rw (mine, finish_from, held) at h) in
                record {
                  all_held =
                      (λ e. (ground (arith, eq_iff r.lease_owner owner), ground arith), i.all_held);
                  present = rw mine (ground arith);
                  after = rw (mine, finish_from, held, i.after) refl;
                }
          ]
    ]

-- The other way round, where every record of the lease is held.
finish_from-ok :
    (clock : String → ℕ) (lease_id owner : String) (state : SampleState) (found : Bool)
    (samples : Dict SampleRecord)
    → Held clock lease_id owner samples
    → (found || has_lease lease_id samples) ≡ true
    → (finish_from clock lease_id owner state found samples).1 ≡ ok tt
unfolding finish_from has_lease
finish_from-ok clock lease_id owner state found [] held some_found = ground arith
finish_from-ok clock lease_id owner state found ((id, r) ∷ samples) held some_found =
    elim (Bool-cases (r.lease_id == lease_id)) [
      | inr other ↦
          rw (other, finish_from, not_false found)
            (finish_from-ok clock lease_id owner state found samples held.1
              (rw other at some_found))
      | inl mine ↦
          let (own, in_time) = held.0 ((eq_iff r.lease_id lease_id).0 mine) in
          let fine : (not (r.lease_owner == owner) || ltb r.lease_expires_at (clock id)) ≡ false =
            ground (arith, eq_iff r.lease_owner owner) in
          rw (mine, finish_from, fine)
            (finish_from-ok clock lease_id owner state (found || true) samples held.1
              (ground arith))
    ]

-- A lease is finished without error exactly when the store has a record of it and every record of it
-- is the owner's and had not expired when the loop read the clock there; and then exactly its records
-- have changed: each is consumed, where the lease is acknowledged, and else quarantined or available
-- again by the reason, and belongs to no lease.
pub finish_lease-ok_iff :
    (clock : String → ℕ) (lease_id owner : String) (ack : Bool) (reason : String)
    (samples : Dict SampleRecord)
    → (((finish_lease clock lease_id owner ack reason samples).1 ≡ ok tt)
        ↔ (Held clock lease_id owner samples × (has_lease lease_id samples ≡ true)))
      × ((finish_lease clock lease_id owner ack reason samples).1 ≡ ok tt
          → (finish_lease clock lease_id owner ack reason samples).0
            ≡ map_values (finished lease_id (state_after ack reason)) samples)
unfolding finish_lease
finish_lease-ok_iff clock lease_id owner ack reason samples =
    let state = state_after ack reason in
    (
      (
        λ h.
            let i = finish_from-Finished clock lease_id owner state false samples h in
            (i.all_held, i.present),
        λ h. finish_from-ok clock lease_id owner state false samples h.0 h.1,
      ),
      λ h. (finish_from-Finished clock lease_id owner state false samples h).after,
    )
