-- ===== src/Reflection.antt =====
-- backend/app/services/memory_reflection_service.py and the table of
-- backend/app/models/memory_reflection.py: the queue of background memory reflection jobs.
-- A table is the list of its rows. A method runs in one transaction whose row locks serialise it,
-- so it is one function on the table. `now` is the clock of the call, in seconds.
pub mod Queue
pub mod Endings
pub mod Lifecycle
pub mod Single
use smart_class_agent.Common.{
  is_some, ℕ, ◌-◌, ◌*◌, String, Bool, true, false, ◌&&◌, not, Option, none, some, List, [], ◌∷◌,
  Text, take, keep, first, any, update, length, map, str_eq, ltb, leb, if◌then◌else◌,
}

pub data JobStatus : Type 0 where
  pending running succeeded skipped failed : JobStatus

abbrev pub is_pending : JobStatus → Bool
is_pending pending = true
is_pending _ = false

abbrev pub is_running : JobStatus → Bool
is_running running = true
is_running _ = false

-- `JOB_TERMINAL`
abbrev pub is_terminal : JobStatus → Bool
is_terminal pending = false
is_terminal running = false
is_terminal _ = true

-- What a candidate's snapshot holds: `body` is the rest of its JSON dump.
pub record ReflectionSnapshot : Type 0 where
  pub schema_version : ℕ
  pub user_id : String
  pub source_run_id : String
  pub source_thread_id : String
  pub source_plan_id : Option ℕ
  pub evidence_type : String
  pub model_config_snapshot : Option String
  pub captured_at : ℕ
  pub body : String

pub record ReflectionJobCandidate : Type 0 where
  pub kind : String
  pub business_stage : String
  pub extractor_version : String
  pub snapshot : ReflectionSnapshot

pub record MemoryReflectionJob : Type 0 where
  pub job_id : String
  pub user_id : String
  pub source_run_id : String
  pub source_thread_id : String
  pub source_plan_id : Option ℕ
  pub kind : String
  pub business_stage : String
  pub extractor_version : String
  pub snapshot_version : ℕ
  pub snapshot : ReflectionSnapshot
  pub evidence_type : String
  pub status : JobStatus
  pub error_category : Option Text
  pub error_message : Option Text
  pub applied_memory_id : Option String
  pub applied_memory_version : Option ℕ
  pub created_at : ℕ
  pub completed_at : Option ℕ

abbrev pub Jobs : Type 0
Jobs = List MemoryReflectionJob

-- The `lookup` of a candidate: the columns of `uq_memory_reflection_job_idempotency`.
pub same_key : ReflectionJobCandidate → MemoryReflectionJob → Bool
same_key c j =
    str_eq j.user_id c.snapshot.user_id
    && (str_eq j.source_run_id c.snapshot.source_run_id
        && (str_eq j.kind c.kind
            && (str_eq j.business_stage c.business_stage
                && str_eq j.extractor_version c.extractor_version)))

-- `values` of the insert, with the table's defaults.
new_job : String → ℕ → ReflectionJobCandidate → MemoryReflectionJob
new_job job_id now c = record {
  job_id = job_id;
  user_id = c.snapshot.user_id;
  source_run_id = c.snapshot.source_run_id;
  source_thread_id = c.snapshot.source_thread_id;
  source_plan_id = c.snapshot.source_plan_id;
  kind = c.kind;
  business_stage = c.business_stage;
  extractor_version = c.extractor_version;
  snapshot_version = c.snapshot.schema_version;
  snapshot = c.snapshot;
  evidence_type = c.snapshot.evidence_type;
  status = pending;
  error_category = none;
  error_message = none;
  applied_memory_id = none;
  applied_memory_version = none;
  created_at = now;
  completed_at = none;
}

-- `insert … on_conflict_do_nothing` on the idempotency columns. The place of a new row is of no
-- account: every query orders its rows itself.
insert_job : String → ℕ → ReflectionJobCandidate → Jobs → Jobs
unfolding new_job
insert_job job_id now c jobs = if any (same_key c) jobs then jobs else new_job job_id now c ∷ jobs

-- One round of `register_reflection_candidates`; `job_id` is its `uuid4().hex`.
register_candidate : String → ℕ → ReflectionJobCandidate → Jobs → Jobs
unfolding insert_job
register_candidate job_id now c jobs = elim (first (same_key c) jobs) [
  | some existing ↦ jobs
  | none ↦ insert_job job_id now c jobs
]

-- Each candidate comes with the fresh identifier that its job would take.
unfoldable pub register_reflection_candidates :
    ℕ → List (String × ReflectionJobCandidate) → Jobs → Jobs
unfolding register_candidate
register_reflection_candidates now [] jobs = jobs
register_reflection_candidates now ((job_id, c) ∷ cs) jobs =
    register_reflection_candidates now cs (register_candidate job_id now c jobs)

-- `where(status == JOB_PENDING).order_by(created_at.asc()).limit(1)`
unfoldable pub older : MemoryReflectionJob → Option MemoryReflectionJob → MemoryReflectionJob
older j none = j
older j (some k) = if leb j.created_at k.created_at then j else k

unfoldable pub oldest_pending : Jobs → Option MemoryReflectionJob
unfolding older
oldest_pending [] = none
oldest_pending (j ∷ js) =
    let rest = oldest_pending js in if is_pending j.status then some (older j rest) else rest

abbrev pub claim : MemoryReflectionJob → MemoryReflectionJob
claim j = record j { status = running; error_category = none; error_message = none }

-- `update … where(job_id == next_job_id, status == JOB_PENDING) … returning`
unfoldable pub take_next : Jobs → Jobs × Option MemoryReflectionJob
unfolding oldest_pending
take_next jobs = elim (oldest_pending jobs) [
  | none ↦ (jobs, none)
  | some next ↦ (
    update (λ j. str_eq j.job_id next.job_id && is_pending j.status) claim jobs,
    some (claim next),
  )
]

unfoldable pub queue_depth : Jobs → ℕ
queue_depth jobs = length (keep (λ j. not (is_terminal j.status)) jobs)

-- The row that `db.get(…, job_id)` finds, if its status is `JOB_RUNNING`.
abbrev pub running_row : String → MemoryReflectionJob → Bool
running_row job_id j = str_eq j.job_id job_id && is_running j.status

-- What `_finish` and `fail` write.
abbrev pub finished :
    JobStatus
    → Option String
    → Option ℕ
    → Option Text
    → ℕ
    → MemoryReflectionJob
    → MemoryReflectionJob
finished status memory_id memory_version error_category now j = record j {
  status = status;
  applied_memory_id = memory_id;
  applied_memory_version = memory_version;
  error_category = error_category;
  error_message = none;
  completed_at = some now;
}

abbrev pub failed_with : Text → Text → ℕ → MemoryReflectionJob → MemoryReflectionJob
failed_with category message now j = record j {
  error_category = some category;
  error_message = some message;
  status = failed;
  completed_at = some now;
}

-- `_finish`; without such a row it returns with nothing changed.
finish : String → JobStatus → Option String → Option ℕ → Option Text → ℕ → Jobs → Jobs
finish job_id status memory_id memory_version error_category now jobs =
    update (running_row job_id) (finished status memory_id memory_version error_category now) jobs

pub succeed : String → Option String → Option ℕ → ℕ → Jobs → Jobs
unfolding finish
succeed job_id memory_id memory_version now jobs =
    finish job_id succeeded memory_id memory_version none now jobs

pub skip : String → Text → ℕ → Jobs → Jobs
unfolding finish
skip job_id category now jobs = finish job_id skipped none none (some category) now jobs

-- `category[:48] if category else "unknown_error"`
pub safe_category : Text → Text → Text
safe_category unknown_error [] = unknown_error
safe_category unknown_error (c ∷ cs) = take 48 (c ∷ cs)

-- The two texts that the code writes are arguments: what they say is of no account here.
pub fail : Text → String → Text → Text → ℕ → Jobs → Jobs
unfolding safe_category
fail unknown_error job_id category message now jobs =
    update (running_row job_id)
      (failed_with (safe_category unknown_error category) (take 500 message) now) jobs

-- Returns the kinds of the jobs that a stopped process left running.
pub fail_interrupted : Text → Text → ℕ → Jobs → Jobs × List String
fail_interrupted worker_interrupted message now jobs = (
  update (λ j. is_running j.status) (failed_with worker_interrupted message now) jobs,
  map (λ (j : MemoryReflectionJob). j.kind) (keep (λ j. is_running j.status) jobs),
)

abbrev pub with_snapshot : ReflectionSnapshot → ℕ → MemoryReflectionJob → MemoryReflectionJob
with_snapshot snapshot version j = record j { snapshot = snapshot; snapshot_version = version }

-- A job's row whose snapshot has no model configuration.
abbrev pub unconfigured_row : String → MemoryReflectionJob → Bool
unconfigured_row job_id j = str_eq j.job_id job_id && not (is_some j.snapshot.model_config_snapshot)

-- The transaction in which the worker writes a snapshot that has adopted a configuration: only
-- where the row has none, and whatever its status is.
unfoldable pub adopt_row : String → ReflectionSnapshot → Jobs → Jobs
adopt_row job_id snapshot jobs = update (unconfigured_row job_id) (with_snapshot snapshot 2) jobs

-- `completed_at < cutoff`, which no null satisfies.
completed_before : ℕ → Option ℕ → Bool
completed_before cutoff none = false
completed_before cutoff (some t) = ltb t cutoff

pub expired : ℕ → MemoryReflectionJob → Bool
unfolding completed_before
expired cutoff j = is_terminal j.status && completed_before cutoff j.completed_at

-- Retention is counted in days of 86400 seconds.
pub cleanup_terminal : ℕ → ℕ → Jobs → Jobs × ℕ
unfolding expired
cleanup_terminal retention_days now jobs =
    let cutoff = now - retention_days * 86400 in
    (keep (λ j. not (expired cutoff j)) jobs, length (keep (expired cutoff) jobs))
