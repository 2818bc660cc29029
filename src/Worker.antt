-- ===== src/Worker.antt =====
-- `MemoryReflectionWorker` of backend/app/core/memory_worker.py: the composition of the queue of jobs
-- with the memories that they change. The task that polls, and its stop, are not modelled.
pub mod Processing
use smart_class_agent.Common.{
  ℕ, String, Bool, true, false, ◌&&◌, ◌||◌, not, Option, none, some, is_some, List, [], ◌∷◌, Text,
  first, update, str_eq, leb, ◌==◌, if◌then◌else◌, Result, ok, err, ◌>>=◌, ◌>>◌, guard,
}
use smart_class_agent.Reflection.{
  with_snapshot, adopt_row, Jobs, MemoryReflectionJob, ReflectionSnapshot, take_next, queue_depth,
  succeed, skip, fail, fail_interrupted, cleanup_terminal,
}
use smart_class_agent.Reflection.Single.{get_job}
use smart_class_agent.Memories.Store.{BaseStore, Environment}
use smart_class_agent.Memories.{
  World, MemoryMutationProposal, MemoryMutationResult, MutationStatus, applied, skipped, stale,
  CommitError, is_noop, apply_automatic,
}

pub data WorkerError : Type 0 where
  unsupported_version job_disappeared unsupported_kind : WorkerError
  -- the configuration, its credential, the snapshot's schema or the model
  extraction_failed : Text → WorkerError
  commit_failed : WorkerError

-- The texts that the worker writes to the rows.
pub record Wording : Type 0 where
  pub shadow_mode : Text
  pub policy_skip : Text
  pub status_name : MutationStatus → Text
  pub categorize_error : WorkerError → Text
  pub unknown_error : Text
  pub failure_message : Text

-- What the processing of one job meets: the process's configuration, the proposal that the model
-- makes of the job's snapshot, the clocks of the memory and of the row, and which commits succeed
-- (of the adopted configuration, of the memory, and of the row's end).
pub record Circumstances : Type 0 where
  pub current : String
  pub extract : MemoryReflectionJob → Result WorkerError MemoryMutationProposal
  pub memory_now : ℕ
  pub now : ℕ
  pub adopt_commits : Bool
  pub apply_commits : Bool
  pub end_commits : Bool

abbrev is_applied : MutationStatus → Bool
is_applied applied = true
is_applied _ = false

-- `job.snapshot_version in {1, 2}`
abbrev is_supported : MemoryReflectionJob → Bool
is_supported job = job.snapshot_version == 1 || job.snapshot_version == 2

-- The snapshot with the process's configuration, as version 2.
abbrev adopted : String → ReflectionSnapshot → ReflectionSnapshot
adopted current snapshot = record snapshot {
  schema_version = 2;
  model_config_snapshot = some current;
}

-- The adoption for a job without a configuration; `stored` is its row.
adopt_stored :
    Circumstances
    → MemoryReflectionJob
    → Jobs
    → MemoryReflectionJob
    → Result WorkerError (Jobs × MemoryReflectionJob)
adopt_stored c job jobs stored =
    if is_some stored.snapshot.model_config_snapshot
    then ok (jobs, with_snapshot stored.snapshot stored.snapshot_version job)
    else do
      guard c.adopt_commits commit_failed
      ok (
        adopt_row job.job_id (adopted c.current job.snapshot) jobs,
        with_snapshot (adopted c.current job.snapshot) 2 job,
      )

unfoldable pub adopt_configuration :
    Circumstances → MemoryReflectionJob → Jobs → Result WorkerError (Jobs × MemoryReflectionJob)
unfolding adopt_stored
adopt_configuration c job jobs =
    if is_some job.snapshot.model_config_snapshot
    then ok (jobs, job)
    else elim (get_job job.job_id jobs) [
      | none ↦ err job_disappeared
      | some stored ↦ adopt_stored c job jobs stored
    ]

-- The proposal of the model, for the two kinds of job.
unfoldable pub extracted :
    Circumstances → MemoryReflectionJob → Result WorkerError MemoryMutationProposal
extracted c job = do
  guard (is_supported job) unsupported_version
  guard (str_eq job.kind "profile" || str_eq job.kind "experience") unsupported_kind
  c.extract job

module _ (R : BaseStore) (E : Environment) (wording : Wording) (shadow : Bool) where
  -- The table of jobs, and the memories with their guards.
  pub record State : Type 0 where
    pub jobs : Jobs
    pub memories : World R

  -- The end of the row in a transaction that commits or not.
  unfoldable pub end_job : Bool → Jobs → State → State × Result WorkerError (Unit {0})
  end_job true jobs s = (record s { jobs = jobs }, ok tt)
  end_job false jobs s = (s, err commit_failed)

  unfoldable pub end_applied :
      Circumstances → String → MemoryMutationResult → State → State × Result WorkerError (Unit {0})
  unfolding end_job
  end_applied c job_id result s =
      end_job c.end_commits
        (if is_applied result.status
          then succeed job_id result.memory_id result.version c.now s.jobs
          else skip job_id (wording.status_name result.status) c.now s.jobs)
        s

  -- The rest of it after `apply_automatic`.
  unfoldable pub after_apply :
      Circumstances
      → String
      → World R × Result CommitError MemoryMutationResult
      → State
      → State × Result WorkerError (Unit {0})
  unfolding end_applied
  after_apply c job_id (memories, err e) s = (record s { memories = memories }, err commit_failed)
  after_apply c job_id (memories, ok result) s =
      end_applied c job_id result (record s { memories = memories })

  -- The block that applies the proposal.
  unfoldable pub apply_proposal :
      Circumstances
      → MemoryReflectionJob
      → MemoryMutationProposal
      → State
      → State × Result WorkerError (Unit {0})
  unfolding end_job after_apply
  apply_proposal c job p s =
      if shadow
      then end_job c.end_commits (skip job.job_id wording.shadow_mode c.now s.jobs) s
      else if is_noop p.operation
      then end_job c.end_commits (skip job.job_id wording.policy_skip c.now s.jobs) s
      else after_apply c job.job_id
          (apply_automatic R E c.memory_now job.user_id job.job_id p (some job.source_thread_id)
            job.source_plan_id job.snapshot.captured_at c.apply_commits s.memories)
          s

  -- The `try` of `_process_claimed`.
  unfoldable pub attempt_job :
      Circumstances → MemoryReflectionJob → State → State × Result WorkerError (Unit {0})
  unfolding adopt_configuration extracted apply_proposal
  attempt_job c job s =
      if is_supported job
      then (elim (adopt_configuration c job s.jobs) [
        | err e ↦ (s, err e)
        | ok (jobs, job') ↦ elim (extracted c job') [
          | err e ↦ (record s { jobs = jobs }, err e)
          | ok p ↦ apply_proposal c job' p (record s { jobs = jobs })
        ]
      ])
      else (s, err unsupported_version)

  -- `_process_claimed`: an exception fails the job, in a transaction of its own, which commits.
  unfoldable pub process_claimed : Circumstances → MemoryReflectionJob → State → State
  unfolding attempt_job
  process_claimed c job s =
      let (s', outcome) = attempt_job c job s in
      elim outcome [
        | ok u ↦ s'
        | err e ↦ record s' {
          jobs =
              fail wording.unknown_error job.job_id (wording.categorize_error e)
                wording.failure_message c.now s'.jobs;
        }
      ]

  -- `run_once`: the clean-up, if it is due, and one job; the answer is the number of jobs.
  unfoldable pub run_once :
      Circumstances → (cleanup_due : Bool) → (retention_days : ℕ) → State → State × ℕ
  unfolding process_claimed
  run_once c cleanup_due retention_days s =
      let kept = if cleanup_due then (cleanup_terminal retention_days c.now s.jobs).0 else s.jobs in
      let (jobs, taken) = take_next kept in
      let s' : State = record s { jobs = jobs } in
      elim taken [ none ↦ (s', 0) | some job ↦ (process_claimed c job s', 1) ]
