-- ===== src/Envelope/Pinning.antt =====
-- A workflow keeps the model configuration with which it was accepted.
use smart_class_agent.Common.{String, ◌≡◌, refl, Bool, true, false, some, ok, arith}
use smart_class_agent.Envelope.{
  RunModelEnvelope, WorkflowValues, selected, restore_envelope, capture_envelope, entry_update,
}

module _ (restorable : String → Bool) where
  -- A run accepted while the workflow of an earlier run is active, with a snapshot that passes the
  -- check, takes that workflow's snapshot, identifier and legacy mark, and runs with that
  -- snapshot, whatever the process's configuration is by then; that one is its current snapshot.
  pub capture_envelope-entry_update :
      (current fresh w : String) (e : RunModelEnvelope)
      → e.workflow ≡ some w
      → restorable w ≡ true
      → (e' : RunModelEnvelope) × (capture_envelope restorable current fresh (entry_update e) false
          ≡ ok e')
        × (e'.workflow ≡ some w)
        × (e'.workflow_id ≡ e.workflow_id)
        × (selected e' ≡ w)
        × (e'.legacy_snapshot_adopted ≡ e.legacy_snapshot_adopted)
        × (e'.current ≡ current)
  unfolding capture_envelope entry_update
  capture_envelope-entry_update current fresh w e active valid = (
    record {
      version = 1;
      current = current;
      workflow = some w;
      workflow_id = e.workflow_id;
      legacy_snapshot_adopted = e.legacy_snapshot_adopted;
    },
    ground arith,
    refl,
    refl,
    unfold selected in refl,
    refl,
    refl,
  )

  -- An envelope that was captured while the current configuration passes the check is restored
  -- unchanged.
  pub restore_envelope-capture_envelope :
      (current fresh : String) (values : WorkflowValues) (legacy : Bool) (e : RunModelEnvelope)
      → restorable current ≡ true
      → capture_envelope restorable current fresh values legacy ≡ ok e
      → restore_envelope restorable e ≡ ok e
  unfolding capture_envelope restore_envelope
  restore_envelope-capture_envelope current fresh values legacy e valid captured = ground arith
