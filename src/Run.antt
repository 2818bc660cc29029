-- ===== src/Run.antt =====
-- backend/app/services/chat_run_service.py: chat runs in the database.
-- The tables are lists of rows. A function of the service runs in one transaction, and the row
-- that it selects `with_for_update` (the session for a new run, else the run) serialises it with
-- the others, so it is one function on the database. `now` is the clock of the call.
pub mod Exclusive
pub mod Lifecycle
pub mod Rows
pub mod Stale
use smart_class_agent.Common.{
  ℕ, ◌+◌, max, String, Bool, true, false, ◌&&◌, not, Option, none, some, is_some, List, [], ◌∷◌,
  Text, keep, first, any, update, str_eq, ltb, leb, ◌==◌, if◌then◌else◌, Result, ok, err, ◌>>=◌,
  ◌>>◌, guard,
}
use smart_class_agent.Envelope.{
  ConfigError, RunModelEnvelope, WorkflowValues, no_values, workflow_active, restore_envelope,
  capture_envelope,
}
use smart_class_agent.Reflection.{Jobs, ReflectionJobCandidate, register_reflection_candidates}

pub data RunStatus : Type 0 where
  queued running waiting_approval succeeded failed cancelled : RunStatus

-- `ACTIVE_RUN_STATUSES`
abbrev pub is_active : RunStatus → Bool
is_active queued = true
is_active running = true
is_active _ = false

-- `FINISHED_RUN_STATUSES`
abbrev pub is_finished : RunStatus → Bool
is_finished queued = false
is_finished running = false
is_finished _ = true

abbrev is_queued : RunStatus → Bool
is_queued queued = true
is_queued _ = false

abbrev is_cancelled : RunStatus → Bool
is_cancelled cancelled = true
is_cancelled _ = false

-- backend/app/models/agent_run.py
pub record AgentRun : Type 0 where
  pub run_id : String
  pub thread_id : String
  pub user_id : ℕ
  pub plan_id : ℕ
  pub status : RunStatus
  pub message : Text
  pub attachment_ids : List ℕ
  -- none also for an empty one
  pub approval : Option String
  pub model_config_snapshot : Option RunModelEnvelope
  pub output_text : Text
  pub last_event_sequence : ℕ
  pub error_message : Option Text
  pub created_at : ℕ
  pub started_at : Option ℕ
  pub completed_at : Option ℕ

pub record Database : Type 0 where
  -- the columns `thread_id` and `user_id` of the sessions
  pub sessions : List (String × ℕ)
  pub runs : List AgentRun
  pub jobs : Jobs

pub data RunError : Type 0 where
  thread_not_found : String → RunError
  active_run_conflict : AgentRun → RunError
  config_error : ConfigError → RunError
  invalid_status : RunStatus → RunError

abbrev lift {ℓ} : {A : Type ℓ} → Result ConfigError A → Result RunError A
lift (ok a) = ok a
lift (err e) = err (config_error e)

abbrev owned_by : String → ℕ → AgentRun → Bool
owned_by thread_id user_id run = str_eq run.thread_id thread_id && run.user_id == user_id

abbrev pub active_in : String → ℕ → AgentRun → Bool
active_in thread_id user_id run = owned_by thread_id user_id run && is_active run.status

-- `order_by(created_at.desc())` and `first()` of the rows that pass a test.
newer : AgentRun → Option AgentRun → AgentRun
newer r none = r
newer r (some s) = if leb s.created_at r.created_at then r else s

unfoldable pub latest : (AgentRun → Bool) → List AgentRun → Option AgentRun
unfolding newer
latest p [] = none
latest p (r ∷ rs) = let rest = latest p rs in if p r then some (newer r rest) else rest

-- `get_active_chat_run`
unfoldable pub get_active_chat_run : Database → String → ℕ → Option AgentRun
get_active_chat_run db thread_id user_id = latest (active_in thread_id user_id) db.runs

-- `get_chat_run`: the row with the primary key.
unfoldable pub get_chat_run : Database → String → Option AgentRun
get_chat_run db run_id = first (λ r. str_eq r.run_id run_id) db.runs

unfoldable get_owned_chat_run : Database → String → ℕ → Option AgentRun
get_owned_chat_run db run_id user_id =
    first (λ r. str_eq r.run_id run_id && r.user_id == user_id) db.runs

-- The state of a legacy workflow, with the configuration that an earlier run was accepted with.
adopted_values : WorkflowValues → RunModelEnvelope → WorkflowValues
adopted_values values accepted = elim (accepted.workflow) [
  | none ↦ values
  | some w ↦ record values {
    model_config_snapshot = some w;
    model_workflow_id = accepted.workflow_id;
    legacy_snapshot_adopted = accepted.legacy_snapshot_adopted;
  }
]

-- The envelope of the previous run, unless that run was cancelled.
usable_envelope : AgentRun → Option RunModelEnvelope
usable_envelope previous =
    if is_cancelled previous.status then none else previous.model_config_snapshot

no_conflict : Option AgentRun → Result RunError (Unit {0})
no_conflict none = ok tt
no_conflict (some run) = err (active_run_conflict run)

-- The arguments of `create_chat_run`, and what it takes from outside: `current` is the process's
-- configuration, and `run_id` and `workflow_id` are fresh values of `uuid4().hex`.
pub record NewChatRun : Type 0 where
  pub thread_id : String
  pub user_id : ℕ
  pub plan_id : ℕ
  pub message : Text
  pub attachment_ids : List ℕ
  pub approval : Option String
  pub workflow_state : WorkflowValues
  pub current : String
  pub run_id : String
  pub workflow_id : String
  pub now : ℕ

module _ (restorable : String → Bool) where
  recover_from : WorkflowValues → Option AgentRun → Result RunError WorkflowValues
  unfolding adopted_values usable_envelope
  recover_from values none = ok values
  recover_from values (some previous) = elim (usable_envelope previous) [
    | none ↦ ok values
    | some envelope ↦ do
      accepted ← lift (restore_envelope restorable envelope)
      ok (adopted_values values accepted)
  ]

  -- The recovery of a workflow whose state has no configuration yet.
  recovered_values : Database → String → ℕ → WorkflowValues → Result RunError WorkflowValues
  unfolding recover_from
  recovered_values db thread_id user_id values =
      if workflow_active values && not (is_some values.model_config_snapshot)
      then recover_from values (latest (owned_by thread_id user_id) db.runs)
      else ok values

  unfoldable pub create_chat_run : Database → NewChatRun → Result RunError (Database × AgentRun)
  unfolding recovered_values get_active_chat_run no_conflict
  create_chat_run db new = do
    guard (any (λ (s : String × ℕ). str_eq s.0 new.thread_id && s.1 == new.user_id) db.sessions)
        (thread_not_found new.thread_id)
    _ ← no_conflict (get_active_chat_run db new.thread_id new.user_id)
    values ← recovered_values db new.thread_id new.user_id new.workflow_state
    envelope ← lift (capture_envelope restorable new.current new.workflow_id values false)
    let run : AgentRun = record {
      run_id = new.run_id;
      thread_id = new.thread_id;
      user_id = new.user_id;
      plan_id = new.plan_id;
      status = queued;
      message = new.message;
      attachment_ids = new.attachment_ids;
      approval = new.approval;
      model_config_snapshot = some envelope;
      output_text = [];
      last_event_sequence = 0;
      error_message = none;
      created_at = new.now;
      started_at = none;
      completed_at = none;
    }
    ok (record db { runs = run ∷ db.runs }, run)

  -- `run` is the row; without a snapshot it takes one of the values, marked as a legacy one.
  -- A commit that fails, which leaves the row as it was, is not modelled.
  unfoldable pub adopt_model_snapshot :
      AgentRun
      → WorkflowValues
      → (current workflow_id : String) → Result RunError (AgentRun × RunModelEnvelope)
  adopt_model_snapshot run values current workflow_id = elim (run.model_config_snapshot) [
    | none ↦ do
      envelope ← lift (capture_envelope restorable current workflow_id values true)
      restored ← lift (restore_envelope restorable envelope)
      ok (record run { model_config_snapshot = some envelope }, restored)
    | some envelope ↦ do restored ← lift (restore_envelope restorable envelope); ok (run, restored)
  ]

-- The column that `adopt_model_snapshot` writes.
abbrev pub with_envelope : RunModelEnvelope → AgentRun → AgentRun
with_envelope envelope r = record r { model_config_snapshot = some envelope }

-- Its commit: the one column of the one row, whatever its status is.
abbrev pub write_snapshot : String → RunModelEnvelope → Database → Database
write_snapshot run_id envelope db = record db {
  runs = update (λ r. str_eq r.run_id run_id) (with_envelope envelope) db.runs;
}

abbrev pub queued_row : String → AgentRun → Bool
queued_row run_id r = str_eq r.run_id run_id && is_queued r.status

started : ℕ → AgentRun → AgentRun
started now r = record r { status = running; started_at = some now }

-- A queued run becomes running; any other is returned as it is.
unfoldable pub mark_chat_run_running : Database → String → ℕ → Database × Option AgentRun
unfolding started get_chat_run
mark_chat_run_running db run_id now =
    let db' = record db { runs = update (queued_row run_id) (started now) db.runs } in
    (db', get_chat_run db' run_id)

-- The arguments of `finalize_chat_run`; each candidate comes with the fresh identifier of its job.
pub record Ending : Type 0 where
  pub run_id : String
  pub status : RunStatus
  pub output_text : Text
  pub last_sequence : ℕ
  pub error_message : Option Text
  pub reflection_candidates : List (String × ReflectionJobCandidate)
  pub now : ℕ

pub finished : Ending → AgentRun → AgentRun
finished e r = record r {
  status = e.status;
  output_text = e.output_text;
  last_event_sequence = max e.last_sequence 0 + 1;
  error_message = e.error_message;
  completed_at = some e.now;
}

-- The row with the identifier, if it is not finished.
abbrev pub unfinished_row : String → AgentRun → Bool
unfinished_row run_id r = str_eq r.run_id run_id && not (is_finished r.status)

-- Only the first call for a run has an effect; later ones return the row as it stands.
unfoldable pub finalize_chat_run : Database → Ending → Result RunError (Database × Option AgentRun)
unfolding finished get_chat_run
finalize_chat_run db e = do
  guard (is_finished e.status) (invalid_status e.status)
  ok (elim (get_chat_run db e.run_id) [
    | none ↦ (db, none)
    | some run ↦ if is_finished run.status then (db, some run) else (
      record db {
        runs = update (unfinished_row e.run_id) (finished e) db.runs;
        jobs = register_reflection_candidates e.now e.reflection_candidates db.jobs;
      },
      some (finished e run),
    )
  ])

-- `where(status in ACTIVE).order_by(created_at.asc())`, by insertion.
insert_by_age : AgentRun → List AgentRun → List AgentRun
insert_by_age r [] = r ∷ []
insert_by_age r (s ∷ ss) =
    if leb r.created_at s.created_at then r ∷ s ∷ ss else s ∷ insert_by_age r ss

sort_by_age : List AgentRun → List AgentRun
unfolding insert_by_age
sort_by_age [] = []
sort_by_age (r ∷ rs) = insert_by_age r (sort_by_age rs)

unfoldable pub list_stale_chat_runs : Database → List AgentRun
unfolding sort_by_age
list_stale_chat_runs db = sort_by_age (keep (λ r. is_active r.status) db.runs)

-- What the live event store knows of a run.
pub record LiveSnapshot : Type 0 where
  pub last_sequence : ℕ
  pub output_text : Text

-- The fields of `serialize_chat_run` that depend on the live snapshot; the others are the row's.
pub record RunProjection : Type 0 where
  pub run : AgentRun
  pub output_text : Text
  pub last_event_sequence : ℕ

unfoldable serialize_chat_run : AgentRun → Option LiveSnapshot → RunProjection
serialize_chat_run run none = record {
  run = run;
  output_text = run.output_text;
  last_event_sequence = run.last_event_sequence;
}
serialize_chat_run run (some live) = record {
  run = run;
  output_text = if is_active run.status then live.output_text else run.output_text;
  last_event_sequence =
      if is_active run.status then live.last_sequence else run.last_event_sequence;
}
