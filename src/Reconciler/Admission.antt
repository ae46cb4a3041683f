-- ===== src/Reconciler/Admission.antt =====
-- A run whose spec passed `RLRunSpec.Validate` (control-plane/contracts/v1.go), in the policies and the
-- reconciler of control-plane/rlservice.
use skyscale.Reconciler.Environment.{Environment}
