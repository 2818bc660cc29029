-- ===== src/Envelope.antt =====
-- backend/app/core/model_access/workflow.py: the model configuration with which a run is accepted.
-- A resolved snapshot is its JSON text; the check of it by `restore_snapshot` (pydantic and a
-- SHA-256 fingerprint) is the parameter `restorable`.
pub mod Pinning
use smart_class_agent.Common.{
  ℕ, String, Bool, true, false, Option, none, some, is_some, ◌||◌, ◌&&◌, not, Result, ok, err,
  ◌>>=◌, ◌>>◌, guard, ◌==◌, if◌then◌else◌,
}

pub data ConfigError : Type 0 where
  fingerprint_mismatch unsupported_version : ConfigError

pub record RunModelEnvelope : Type 0 where
  pub version : ℕ
  pub current : String
  pub workflow : Option String
  pub workflow_id : Option String
  pub legacy_snapshot_adopted : Bool

-- The keys of a checkpoint's state that this module reads; an absent key is `none`, and an absent
-- flag that the code only tests is `false`.
pub record WorkflowValues : Type 0 where
  pub model_workflow_active : Option Bool
  pub teaching_task_active : Bool
  pub model_config_snapshot : Option String
  pub model_workflow_id : Option String
  pub legacy_snapshot_adopted : Bool

-- `values or {}` of a missing state.
abbrev pub no_values : WorkflowValues
no_values = record {
  model_workflow_active = none;
  teaching_task_active = false;
  model_config_snapshot = none;
  model_workflow_id = none;
  legacy_snapshot_adopted = false;
}

-- `values.get("model_workflow_active", values.get("teaching_task_active", False))`
abbrev pub workflow_active : WorkflowValues → Bool
workflow_active values = elim (values.model_workflow_active) [
  | none ↦ values.teaching_task_active
  | some flag ↦ flag
]

pub selected : RunModelEnvelope → String
selected envelope = elim (envelope.workflow) [ none ↦ envelope.current | some w ↦ w ]

module _ (restorable : String → Bool) where
  pub restore_snapshot : String → Result ConfigError String
  restore_snapshot snapshot = do guard (restorable snapshot) fingerprint_mismatch; ok snapshot

  restore_workflow : Option String → Result ConfigError (Option String)
  unfolding restore_snapshot
  restore_workflow none = ok none
  restore_workflow (some w) = do s ← restore_snapshot w; ok (some s)

  pub restore_envelope : RunModelEnvelope → Result ConfigError RunModelEnvelope
  unfolding restore_snapshot restore_workflow
  restore_envelope envelope = do
    guard (envelope.version == 1) unsupported_version
    _ ← restore_snapshot envelope.current
    _ ← restore_workflow envelope.workflow
    ok envelope

  -- The `workflow` of the new envelope: the restored snapshot of the values, or the current one.
  captured_workflow : Bool → String → Option String → Result ConfigError (Option String)
  unfolding restore_snapshot
  captured_workflow active current none = ok (if active then some current else none)
  captured_workflow active current (some previous) = do s ← restore_snapshot previous; ok (some s)

  -- `current` is `current_snapshot()` of the process, and `fresh` the `uuid4().hex` of the call.
  unfoldable pub capture_envelope :
      String → String → WorkflowValues → Bool → Result ConfigError RunModelEnvelope
  unfolding captured_workflow
  capture_envelope current fresh values legacy = do
    let active = workflow_active values
    let previous : Option String = if active then values.model_config_snapshot else none
    workflow ← captured_workflow active current previous
    ok (record {
      version = 1;
      current = current;
      workflow = workflow;
      workflow_id =
          if is_some previous
          then values.model_workflow_id
          else if active
          then some fresh
          else none;
      legacy_snapshot_adopted =
          legacy || active && (not (is_some previous) || values.legacy_snapshot_adopted);
    })

pub entry_update : RunModelEnvelope → WorkflowValues
unfolding selected
entry_update envelope = record {
  model_workflow_active = some (is_some envelope.workflow);
  teaching_task_active = false;
  model_config_snapshot = some (selected envelope);
  model_workflow_id = envelope.workflow_id;
  legacy_snapshot_adopted = envelope.legacy_snapshot_adopted;
}
