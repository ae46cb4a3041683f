-- ===== src/Reconciler/Logic.antt =====
-- Reasoning about the passes of control-plane/rlservice/reconciler.go: what holds after an action, a
-- property that an action keeps, and the steps that leave the runs alone.
mod Outcome
mod Preserve
mod Quiet
pub use Outcome.{
  After, resume-After, resume_into, Same, connect-After, reads-After, forget_error, wrapped-After,
  writes-After, both_After, if-After, weaken_After,
}
pub use Preserve.{
  Keeps, bind-Keeps, then-Keeps, Leads, bind-Leads, then-Leads, lead_bind, pure-Keeps,
  wrapped-Keeps, fail-Keeps, or_fail-Keeps, if-Keeps, for_each-Keeps, the_run-Keeps, Keeps-After,
  ends_in,
}
pub use Quiet.{
  IsPlain, Extends, Quietly, IsQuiet, connect-Keeps, reads-Keeps, writes-Keeps, get_object-Keeps,
  list_objects-Keeps, apply_object-Keeps, AllowsDelete, Steady,
}
