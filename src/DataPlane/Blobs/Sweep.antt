-- ===== src/DataPlane/Blobs/Sweep.antt =====
-- What `Sweep` of control-plane/dataplane/store.go leaves in the two stores.
use skyscale.Prelude.{ℕ, ◌≡◌, false}
use skyscale.DataPlane.Types.{SampleRecord}
use skyscale.DataPlane.Metadata.{is_lapsed, is_retired}

-- A record that a sweep may keep: a lease that still runs, or a sample that has not expired.
abbrev pub Current : ℕ → SampleRecord → Type 0
Current now r = (is_lapsed now r ≡ false) × (is_retired now r ≡ false)
