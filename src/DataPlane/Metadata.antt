-- ===== src/DataPlane/Metadata.antt =====
-- control-plane/dataplane/store.go: `MemoryMetadataStore`. The samples are a map by `sampleKey`; each
-- method holds the mutex, so it is a function to the new map.
use skyscale.Prelude.{
  ℕ, suc, String, Bool, true, false, not, ◌&&◌, ◌||◌, ◌==◌, List, [], ◌∷◌, map, none, some, Dict,
  lookup, insert, contains, sort_strings, text_leb, length, select, eqb, ltb, leb, if◌then◌else◌,
  Result, ok, err,
}
use skyscale.Prelude.Int.{ℤ, pos, negsuc}
use text.Mathlib.Text.{starts_with}
use skyscale.DataPlane.Types.{
  SampleState, available, leased, consumed, quarantined, SampleRecord, Lease, DataError, lease_lost,
  no_complete_group, key_of,
}

abbrev pub is_available : SampleState → Bool
is_available available = true
is_available _ = false

abbrev pub is_leased : SampleState → Bool
is_leased leased = true
is_leased _ = false

-- The record that is stored, and whether it is the new one.
unfoldable pub insert_sample :
    SampleRecord → Dict SampleRecord → Dict SampleRecord × SampleRecord × Bool
insert_sample r samples = elim (lookup (key_of r) samples) [
  | some existing ↦ (samples, existing, false)
  | none ↦ (insert (key_of r) r samples, r, true)
]

abbrev pub is_candidate : String → String → SampleRecord → Bool
is_candidate tenant_id run_id r =
    r.tenant_id == tenant_id && r.run_id == run_id && is_available r.state

unfoldable pub candidates : String → String → Dict SampleRecord → List SampleRecord
candidates tenant_id run_id [] = []
candidates tenant_id run_id ((_, r) ∷ samples) =
    let rest = candidates tenant_id run_id samples in
    if is_candidate tenant_id run_id r then r ∷ rest else rest

-- The keys of the map that a loop fills with the records' groups.
unfoldable pub groups_of : List SampleRecord → List String
groups_of [] = []
groups_of (r ∷ rs) =
    let rest = groups_of rs in
    if contains r.prompt_group_id rest then rest else r.prompt_group_id ∷ rest

unfoldable pub count_available_groups : String → String → Dict SampleRecord → ℕ
count_available_groups tenant_id run_id samples =
    length (groups_of (candidates tenant_id run_id samples))

abbrev pub of_group : String → List SampleRecord → List SampleRecord
of_group group rs = select (λ r. r.prompt_group_id == group) rs

abbrev pub is_count : ℤ → ℕ → Bool
is_count (pos k) n = eqb n k
is_count (negsuc k) n = false

unfoldable pub insert_record : SampleRecord → List SampleRecord → List SampleRecord
insert_record r [] = r ∷ []
insert_record r (s ∷ ss) =
    let rest = insert_record r ss in
    if text_leb r.sample_id s.sample_id then r ∷ s ∷ ss else s ∷ rest

-- sort.Slice by the sample's identifier.
unfoldable pub sort_records : List SampleRecord → List SampleRecord
unfolding insert_record
sort_records [] = []
sort_records (r ∷ rs) = insert_record r (sort_records rs)

abbrev pub lease_to : String → String → ℕ → SampleRecord → SampleRecord
lease_to lease_id owner expires r = record r {
  state = leased;
  lease_id = lease_id;
  lease_owner = owner;
  lease_expires_at = expires;
}

-- The loop that writes the leased records back.
unfoldable pub write_all : List SampleRecord → Dict SampleRecord → Dict SampleRecord
write_all [] samples = samples
write_all (r ∷ rs) samples = write_all rs (insert (key_of r) r samples)

abbrev pub complete_groups : ℤ → List SampleRecord → List String
complete_groups expected rs =
    sort_strings (select (λ g. is_count expected (length (of_group g rs))) (groups_of rs))

unfoldable pub claim_group :
    String
    → String
    → ℤ
    → String
    → String
    → ℕ
    → Dict SampleRecord
    → Dict SampleRecord × Result DataError Lease
claim_group tenant_id run_id expected lease_id owner expires samples =
    let rs = candidates tenant_id run_id samples in
    elim (complete_groups expected rs) [
      | [] ↦ (samples, err no_complete_group)
      | group ∷ _ ↦
          let claimed = map (lease_to lease_id owner expires) (sort_records (of_group group rs)) in
          (
            write_all claimed samples,
            ok (record {
              id = lease_id;
              owner = owner;
              run_id = run_id;
              prompt_group_id = group;
              samples = claimed;
              expires_at = expires;
            }),
          )
    ]

-- Where a record goes whose lease ends.
abbrev pub state_after : Bool → String → SampleState
state_after ack reason =
    if ack
    then consumed
    else if reason == "malformed sample" || starts_with reason "quarantine:"
    then quarantined
    else available

abbrev pub unlease : SampleState → SampleRecord → SampleRecord
unlease state r = record r { state = state; lease_id = ""; lease_owner = ""; lease_expires_at = 0 }

-- The loop of `FinishLease`. The clock is read once for each record of the lease: `clock` gives the
-- reading at the record with a key. The loop stops at the first record that is lost, and keeps what
-- it has written.
unfoldable pub finish_from :
    (String → ℕ)
    → String
    → String
    → SampleState
    → Bool
    → Dict SampleRecord
    → Dict SampleRecord × Result DataError (Unit {0})
finish_from clock lease_id owner state found [] = ([], if found then ok tt else err lease_lost)
finish_from clock lease_id owner state found ((id, r) ∷ samples) =
    let mine = r.lease_id == lease_id in
    let rest = finish_from clock lease_id owner state (found || mine) samples in
    if not mine
    then ((id, r) ∷ rest.0, rest.1)
    else if not (r.lease_owner == owner) || ltb r.lease_expires_at (clock id)
    then ((id, r) ∷ samples, err lease_lost)
    else ((id, unlease state r) ∷ rest.0, rest.1)

unfoldable pub finish_lease :
    (String → ℕ)
    → String
    → String
    → Bool
    → String
    → Dict SampleRecord
    → Dict SampleRecord × Result DataError (Unit {0})
finish_lease clock lease_id owner ack reason samples =
    finish_from clock lease_id owner (state_after ack reason) false samples

abbrev pub is_lapsed : ℕ → SampleRecord → Bool
is_lapsed now r = is_leased r.state && leb r.lease_expires_at now

unfoldable pub release_expired : ℕ → Dict SampleRecord → Dict SampleRecord × ℕ
release_expired now [] = ([], 0)
release_expired now ((id, r) ∷ samples) =
    let rest = release_expired now samples in
    if is_lapsed now r
    then ((id, unlease available r) ∷ rest.0, suc rest.1)
    else ((id, r) ∷ rest.0, rest.1)

abbrev pub is_retired : ℕ → SampleRecord → Bool
is_retired now r = not (is_leased r.state) && leb r.expires_at now

unfoldable pub delete_expired : ℕ → Dict SampleRecord → Dict SampleRecord × List SampleRecord
delete_expired now [] = ([], [])
delete_expired now ((id, r) ∷ samples) =
    let rest = delete_expired now samples in
    if is_retired now r then (rest.0, r ∷ rest.1) else ((id, r) ∷ rest.0, rest.1)

abbrev pub in_run : String → String → SampleRecord → Bool
in_run tenant_id run_id r = r.tenant_id == tenant_id && r.run_id == run_id

records_in : String → String → Dict SampleRecord → List SampleRecord
records_in tenant_id run_id [] = []
records_in tenant_id run_id ((_, r) ∷ samples) =
    let rest = records_in tenant_id run_id samples in
    if in_run tenant_id run_id r then r ∷ rest else rest

unfoldable pub list_run : String → String → Dict SampleRecord → List SampleRecord
unfolding records_in
list_run tenant_id run_id samples = sort_records (records_in tenant_id run_id samples)
