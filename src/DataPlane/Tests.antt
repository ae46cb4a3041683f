-- ===== src/DataPlane/Tests.antt =====
-- Runs of the operations of control-plane/dataplane/store.go, and the results on them.
use skyscale.Prelude.{Option}
use skyscale.Prelude.{ℕ, Bool, true, false, err, List}
use skyscale.Prelude.{
  ◌≡◌, ◌⊎◌, ◌↔◌, refl, inl, String, true, [], ◌∷◌, none, some, Dict, lookup, insert, map_values,
  contains, sort_strings, Result, ok, err, arith,
}
use skyscale.Prelude.Machine.{float_one}
use skyscale.Contracts.Sample.{SampleEnvelope, validate_sample}
use skyscale.DataPlane.Put.{put, put-again, record_of, file_sample, blob_key_of}
use skyscale.DataPlane.Blobs.{put_if_absent}
use skyscale.DataPlane.Metadata.{count_available_groups}
use skyscale.DataPlane.Types.{backpressure}
use skyscale.Prelude.Int.{pos}
use skyscale.DataPlane.Types
use skyscale.DataPlane.Types.{SampleRecord, Lease, available, consumed, key_of, sample_key}
use skyscale.DataPlane.Metadata.{
  insert_sample, claim_group, candidates, groups_of, sort_records, write_all, finish_lease,
  finish_from, release_expired, state_after,
}
use skyscale.DataPlane.Exclusive.{Exclusive}
use skyscale.DataPlane.Invariant.{IsKept}
use skyscale.DataPlane.Reachable.{
  inserts, claims, finishes, releases, Reachable, start, step, Reachable-IsKept,
  Reachable-Exclusive,
}
use skyscale.DataPlane.Settled.{settled_is_final}
use skyscale.DataPlane.Finish.{Held, has_lease, finished, finish_lease-ok_iff}
use skyscale.DataPlane.Blobs.{Plane}

abbrev sample : String → SampleRecord
sample id = record {
  tenant_id = "t";
  project_id = "p";
  sample_id = id;
  run_id = "run";
  prompt_group_id = "g";
  policy_version = "w1";
  blob_key = id;
  checksum = "";
  state = available;
  created_at = 1;
  expires_at = 100;
  lease_id = "";
  lease_owner = "";
  lease_expires_at = 0;
}

abbrev two_samples : Dict SampleRecord
two_samples = (insert_sample (sample "b") (insert_sample (sample "a") []).0).0

two_samples-Reachable : Reachable two_samples
two_samples-Reachable =
    step (step start (inserts (sample "a") (λ e. (refl, refl))))
      (inserts (sample "b") (λ e. (refl, refl)))

Reachable-IsKept_example : IsKept two_samples
Reachable-IsKept_example = Reachable-IsKept two_samples-Reachable

abbrev lease_of : Result Types.DataError Lease → Lease
lease_of (ok lease) = lease
lease_of (err e) = record {
  id = "";
  owner = "";
  run_id = "";
  prompt_group_id = "";
  samples = [];
  expires_at = 0;
}

abbrev claimed : Dict SampleRecord × Result Types.DataError Lease
claimed = claim_group "t" "run" (pos 2) "lease-1" "trainer" 50 two_samples

claims_both : claimed ≡ (claimed.0, ok (lease_of claimed.1))
unfolding insert_sample claim_group candidates groups_of sort_records write_all lookup insert
    contains sort_strings sample_key
claims_both = refl

Reachable-Exclusive_example :
    Exclusive "t" "run" (pos 2) "lease-1" "trainer" 50 two_samples claimed.0 (lease_of claimed.1)
Reachable-Exclusive_example =
    Reachable-Exclusive "t" "run" (pos 2) "lease-1" "trainer" 50 two_samples claimed.0
      (lease_of claimed.1) two_samples-Reachable claims_both

abbrev acked : Dict SampleRecord
acked = (finish_lease (λ id. 9) "lease-1" "trainer" true "" claimed.0).0

finish_lease-ok_iff_example :
    (((finish_lease (λ id. 9) "lease-1" "trainer" true "" claimed.0).1 ≡ ok tt)
      ↔ (Held (λ id. 9) "lease-1" "trainer" claimed.0 × (has_lease "lease-1" claimed.0 ≡ true)))
    × ((finish_lease (λ id. 9) "lease-1" "trainer" true "" claimed.0).1 ≡ ok tt
        → acked ≡ map_values (finished "lease-1" (state_after true "")) claimed.0)
finish_lease-ok_iff_example = finish_lease-ok_iff (λ id. 9) "lease-1" "trainer" true "" claimed.0

acked-Reachable : Reachable acked
acked-Reachable =
    step (step two_samples-Reachable (claims "t" "run" (pos 2) "lease-1" "trainer" 50))
      (finishes (λ id. 9) "lease-1" "trainer" true "" (λ id. omega arith))

abbrev consumed_sample : SampleRecord
consumed_sample = record (sample "a") { state = consumed }

consumed_there : lookup (key_of (sample "a")) acked ≡ some consumed_sample
unfolding insert_sample claim_group candidates groups_of sort_records write_all lookup insert
    contains sort_strings sample_key finish_lease finish_from
consumed_there = refl

settled_is_final_example :
    (lookup (key_of (sample "a")) (release_expired 60 acked).0 ≡ some consumed_sample)
    ⊎ (lookup (key_of (sample "a")) (release_expired 60 acked).0 ≡ none)
settled_is_final_example =
    settled_is_final (key_of (sample "a")) consumed_sample acked-Reachable (releases 60)
      consumed_there (inl refl)

abbrev plane : Plane
plane = record {
  samples = acked;
  blobs = record {
    values = ("a", 1 ∷ []) ∷ ("b", 2 ∷ []) ∷ [];
    checksums = ("a", "x") ∷ ("b", "y") ∷ [];
  };
}

abbrev envelope : SampleEnvelope
envelope = record {
  api_version = "rl.skyscale.dev/v1alpha1";
  tenant_id = "t";
  project_id = "p";
  run_id = "run";
  attempt_id = "a";
  rollout_id = "o";
  prompt_group_id = "g";
  sample_id = "c";
  prompt_token_ids = pos 1 ∷ [];
  response_token_ids = pos 2 ∷ [];
  response_start = pos 1;
  loss_mask = float_one ∷ [];
  behavior_log_probs = [];
  reward_components = [];
  status = "";
  policy_version = "w1";
  environment_version = "code-v1";
  generated_at = 7;
  metadata = [];
}

abbrev encoded : SampleEnvelope → Option (List ℕ)
encoded s = some (5 ∷ [])

abbrev sum_of : List ℕ → String
sum_of bytes = "s"

abbrev put_once : Plane × Result Types.DataError (SampleRecord × Bool)
put_once = put encoded sum_of (pos 10) (pos 5) 90 20 envelope plane

abbrev record_there : SampleRecord
record_there = record_of 20 90 envelope "s"

puts_new : put_once ≡ (put_once.0, ok (record_there, true))
unfolding put validate_sample count_available_groups file_sample put_if_absent record_of
    insert_sample claim_group candidates groups_of sort_records write_all lookup insert contains
    sort_strings sample_key finish_lease finish_from blob_key_of
puts_new = refl

put-again_example :
    (put encoded sum_of (pos 10) (pos 5) 90 30 envelope put_once.0
      ≡ (put_once.0, ok (record_there, false)))
    ⊎ (put encoded sum_of (pos 10) (pos 5) 90 30 envelope put_once.0
        ≡ (put_once.0, err backpressure))
put-again_example =
    put-again encoded sum_of (pos 10) (pos 5) 90 20 30 envelope plane put_once.0 record_there
      puts_new
