-- ===== src/DataPlane/Claim.antt =====
-- `ClaimGroup` of control-plane/dataplane/store.go: which records a lease takes.
use skyscale.Prelude.{
  suc, ◌≡◌, refl, sym, ◌∙◌, inl, inr, String, Bool, true, List, [], ◌∷◌, none, some, Dict, lookup,
  contains, contains-sort_strings, text_leb, length, select, arith, All, Bool-cases, Text-cases,
  eq_iff, eq_refl, Distinct,
}
use skyscale.Prelude.Int.{ℤ}
use skyscale.DataPlane.Types.{SampleRecord, key_of}
use skyscale.DataPlane.Metadata.{
  candidates, is_candidate, of_group, groups_of, is_count, complete_groups, sort_records,
  insert_record,
}

-- Each record stands at its own key.
abbrev pub Keyed : Dict SampleRecord → Type 0
Keyed samples = All (λ entry. entry.0 ≡ key_of entry.1) samples

abbrev pub Stored : Dict SampleRecord → SampleRecord → Type 0
Stored samples r = lookup (key_of r) samples ≡ some r

pub All-map :
    {A : Type 0} {P Q : A → Type 0} (xs : List A) → ((x : A) → P x → Q x) → All P xs → All Q xs
All-map [] f a = tt
All-map (x ∷ xs) f a = (f x a.0, All-map xs f a.1)

lookup-other :
    (k j : String) (v w : SampleRecord) (m : Dict SampleRecord)
    → lookup k m ≡ none
    → lookup j m ≡ some w
    → lookup j ((k, v) ∷ m) ≡ some w
unfolding lookup
lookup-other k j v w m missing found = elim (Text-cases k j) [
  | inl e ↦ absurd (let gone : lookup j m ≡ none = rw (← e) missing in cc)
  | inr ne ↦ ground (arith, eq_iff k j)
]

pub entries_found :
    (m : Dict SampleRecord) → Distinct m → All (λ entry. lookup entry.0 m ≡ some entry.1) m
unfolding lookup
entries_found [] d = tt
entries_found ((k, v) ∷ m) d = (
  rw (eq_refl k) refl,
  All-map m (λ entry found. lookup-other k entry.0 v entry.1 m d.0 found) (entries_found m d.1),
)

pub Keyed-Stored :
    (m n : Dict SampleRecord)
    → Keyed m
    → All (λ entry. lookup entry.0 n ≡ some entry.1) m
    → All (λ entry. Stored n entry.1) m
Keyed-Stored [] n k f = tt
Keyed-Stored ((j, r) ∷ m) n k f = (rw (← k.0) f.0, Keyed-Stored m n k.1 f.1)

pub candidates-All :
    (P : SampleRecord → Type 0) (tenant_id run_id : String) (m : Dict SampleRecord)
    → All (λ entry. P entry.1) m
    → All (λ r. P r × (is_candidate tenant_id run_id r ≡ true)) (candidates tenant_id run_id m)
unfolding candidates
candidates-All P tenant_id run_id [] a = tt
candidates-All P tenant_id run_id ((_, r) ∷ m) a =
    elim (Bool-cases (is_candidate tenant_id run_id r)) [
      | inl passes ↦
          rw (candidates, passes) ((a.0, passes), candidates-All P tenant_id run_id m a.1)
      | inr fails ↦ rw (candidates, fails) (candidates-All P tenant_id run_id m a.1)
    ]

pub select-All :
    {A : Type 0} (P : A → Type 0) (p : A → Bool) (xs : List A)
    → All P xs
    → All (λ x. P x × (p x ≡ true)) (select p xs)
select-All P p [] a = tt
select-All P p (x ∷ xs) a = elim (Bool-cases (p x)) [
  | inl passes ↦ rw passes ((a.0, passes), select-All P p xs a.1)
  | inr fails ↦ rw fails (select-All P p xs a.1)
]

insert_record-All :
    (P : SampleRecord → Type 0) (r : SampleRecord) (rs : List SampleRecord)
    → P r
    → All P rs
    → All P (insert_record r rs)
unfolding insert_record
insert_record-All P r [] p a = (p, tt)
insert_record-All P r (s ∷ ss) p a = elim (Bool-cases (text_leb r.sample_id s.sample_id)) [
  | inl passes ↦ rw (insert_record, passes) (p, a)
  | inr fails ↦ rw (insert_record, fails) (a.0, insert_record-All P r ss p a.1)
]

pub sort_records-All :
    (P : SampleRecord → Type 0) (rs : List SampleRecord) → All P rs → All P (sort_records rs)
unfolding sort_records
sort_records-All P [] a = tt
sort_records-All P (r ∷ rs) a =
    insert_record-All P r (sort_records rs) a.0 (sort_records-All P rs a.1)

length-insert_record :
    (r : SampleRecord) (rs : List SampleRecord) → length (insert_record r rs) ≡ suc (length rs)
unfolding insert_record
length-insert_record r [] = refl
length-insert_record r (s ∷ ss) = ground (arith, length-insert_record r ss)

pub length-sort_records : (rs : List SampleRecord) → length (sort_records rs) ≡ length rs
unfolding sort_records
length-sort_records [] = refl
length-sort_records (r ∷ rs) =
    omega (arith, length-insert_record r (sort_records rs), length-sort_records rs)

contains-select :
    (p : String → Bool) (g : String) (gs : List String)
    → contains g (select p gs) ≡ true
    → p g ≡ true
unfolding contains
contains-select p g [] h = absurd (ground arith)
contains-select p g (x ∷ xs) h = ground (arith, eq_iff x g, contains-select p g xs)

-- A group whose count is the expected one.
pub complete_groups-is_count :
    (expected : ℤ) (rs : List SampleRecord) (g : String) (gs : List String)
    → complete_groups expected rs ≡ g ∷ gs
    → is_count expected (length (of_group g rs)) ≡ true
unfolding contains
complete_groups-is_count expected rs g gs e =
    let complete : String → Bool = λ g. is_count expected (length (of_group g rs)) in
    let among : contains g (complete_groups expected rs) ≡ true =
      rw (e, contains, eq_refl g) refl in
    contains-select complete g (groups_of rs)
      (sym (contains-sort_strings g (select complete (groups_of rs))) ∙ among)
