-- ===== src/Manager/Candidates.antt =====
-- `build_reflection_job_candidates` of backend/app/services/memory_reflection_service.py: what the
-- end of a run hands to the queue of reflection jobs. The JSON texts of the snapshots, with their
-- sanitised and shortened fields, are made by the parameters `profile_body` and `experience_body`;
-- `is_space` is Python's test of a white code point.
use mathlib.Core.List.{reverse}
use smart_class_agent.Common.{
  ℕ, String, Bool, true, false, ◌||◌, ◌&&◌, not, Option, none, some, is_some, List, [], ◌∷◌, ◌++◌,
  Text, any, str_eq, if◌then◌else◌, Result, ok, ◌>>=◌,
}
use smart_class_agent.Envelope.{
  ConfigError, RunModelEnvelope, restore_snapshot, restore_envelope, selected,
}
use smart_class_agent.Reflection.{ReflectionJobCandidate}
use smart_class_agent.Run.{AgentRun, RunStatus, succeeded, waiting_approval}

-- The keys of `checkpoint_values` that the function reads. Of a result in `revision_results` only
-- the test `status == "ready"` counts; the rest of the values is in `body`.
pub record CheckpointValues : Type 0 where
  pub model_config_snapshot : Option String
  pub intent : String
  pub revision_results : List Bool
  pub revision_source_artifacts : Bool
  pub teaching_design_plan : Text
  pub body : String

drop_spaces : (ℕ → Bool) → Text → Text
drop_spaces is_space [] = []
drop_spaces is_space (c ∷ cs) =
    let rest = drop_spaces is_space cs in if is_space c then rest else c ∷ cs

-- `str.strip()`
strip : (ℕ → Bool) → Text → Text
unfolding drop_spaces
strip is_space t = reverse (drop_spaces is_space (reverse (drop_spaces is_space t)))

abbrev has_text : Text → Bool
has_text [] = false
has_text (c ∷ cs) = true

-- `status not in {"waiting_approval", "succeeded"}`, told by the other statuses.
abbrev is_reflected : RunStatus → Bool
is_reflected waiting_approval = true
is_reflected succeeded = true
is_reflected _ = false

abbrev config_of : Option CheckpointValues → Option String
config_of none = none
config_of (some values) = values.model_config_snapshot

abbrev is_succeeded : RunStatus → Bool
is_succeeded succeeded = true
is_succeeded _ = false

-- The texts of the two statuses.
abbrev stage_of : RunStatus → String
stage_of succeeded = "succeeded"
stage_of _ = "waiting_approval"

-- `results` and `plan_text` tell the kind of the evidence; `none` ends the function early.
evidence_of : (ℕ → Bool) → CheckpointValues → Option String
unfolding strip
evidence_of is_space values =
    if any (λ ready. ready) values.revision_results
    then some
        (if values.revision_source_artifacts then "revised_artifact" else "generated_artifact")
    else if str_eq values.intent "teaching_plan"
        && has_text (strip is_space values.teaching_design_plan)
    then some "generated_plan"
    else none

-- What the function takes from outside: the test of a snapshot, the process's configuration, the
-- JSON texts and the clock.
pub record Capture : Type 0 where
  pub is_space : ℕ → Bool
  pub restorable : String → Bool
  pub current : String
  pub user_name : ℕ → String
  pub profile_body : Text → String
  pub experience_body : CheckpointValues → String → String
  pub now : ℕ

module _ (C : Capture) where
  open C use {is_space, restorable, current, user_name, profile_body, experience_body, now}

  -- `model_snapshot`
  snapshot_for : Option String → Option RunModelEnvelope → Result ConfigError String
  snapshot_for (some config) envelope = restore_snapshot restorable config
  snapshot_for none none = ok current
  snapshot_for none (some envelope) = do
    restored ← restore_envelope restorable envelope
    ok (selected restored)

  profile_candidate : AgentRun → RunStatus → String → Text → ReflectionJobCandidate
  profile_candidate run status model_snapshot message = record {
    kind = "profile";
    business_stage = stage_of status;
    extractor_version = "v1";
    snapshot = record {
      schema_version = 2;
      user_id = user_name run.user_id;
      source_run_id = run.run_id;
      source_thread_id = run.thread_id;
      source_plan_id = none;
      evidence_type = "new_user_input";
      model_config_snapshot = some model_snapshot;
      captured_at = now;
      body = profile_body message;
    };
  }

  -- The candidate for the input of the run, unless it has none or resumes an approval.
  profile_part : AgentRun → RunStatus → String → List ReflectionJobCandidate
  unfolding strip profile_candidate
  profile_part run status model_snapshot =
      let message = strip is_space run.message in
      if has_text message && not (is_some run.approval)
      then profile_candidate run status model_snapshot message ∷ []
      else []

  experience_candidate : AgentRun → CheckpointValues → String → String → ReflectionJobCandidate
  experience_candidate run values model_snapshot evidence_type =
      let stage =
        if values.revision_source_artifacts then "artifact_revision" else "teaching_outcome" in
      record {
        kind = "experience";
        business_stage = stage;
        extractor_version = "v1";
        snapshot = record {
          schema_version = 2;
          user_id = user_name run.user_id;
          source_run_id = run.run_id;
          source_thread_id = run.thread_id;
          source_plan_id = some run.plan_id;
          evidence_type = evidence_type;
          model_config_snapshot = some model_snapshot;
          captured_at = now;
          body = experience_body values evidence_type;
        };
      }

  -- The candidate for the outcome that the checkpoint of a succeeded run shows.
  experience_part :
      AgentRun → RunStatus → Option CheckpointValues → String → List ReflectionJobCandidate
  unfolding evidence_of experience_candidate
  experience_part run status none model_snapshot = []
  experience_part run status (some values) model_snapshot =
      if is_succeeded status
        && (str_eq values.intent "teaching_plan" || str_eq values.intent "artifact_revision")
      then (elim (evidence_of is_space values) [
        | none ↦ []
        | some evidence_type ↦ experience_candidate run values model_snapshot evidence_type ∷ []
      ])
      else []

  -- `none` for `checkpoint_values` is a missing or an empty dict.
  unfoldable pub build_reflection_job_candidates :
      AgentRun
      → RunStatus
      → Option CheckpointValues
      → Result ConfigError (List ReflectionJobCandidate)
  unfolding snapshot_for profile_part experience_part
  build_reflection_job_candidates run status checkpoint_values =
      if is_reflected status
      then (do
        model_snapshot ← snapshot_for (config_of checkpoint_values) run.model_config_snapshot
        ok (
            profile_part run status model_snapshot
            ++ experience_part run status checkpoint_values model_snapshot))
      else ok []
