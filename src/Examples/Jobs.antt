-- ===== src/Examples/Jobs.antt =====
-- A table of three jobs: one waits, one runs and one has ended.
use mathlib.Core.List.{Memᴰ}
use smart_class_agent.Common.{
  ◌⊎◌, ◌≡◌, refl, false, none, some, [], ◌∷◌, any, count, length, keep, not, ◌&&◌,
}
use smart_class_agent.Reflection.{
  is_pending, Jobs, MemoryReflectionJob, ReflectionJobCandidate, ReflectionSnapshot, pending,
  running, succeeded, is_running, register_reflection_candidates, claim, take_next,
  fail_interrupted, oldest_pending, older,
}
use smart_class_agent.Reflection.Lifecycle.{
  register, take_job, cleanup, apply, apply_all, IsWellFormed, history-IsWellFormed,
}
use smart_class_agent.Reflection.Queue.{IsNext, has_id, take_next_oldest, register_idempotent}
use smart_class_agent.Reflection.Endings.{
  IsExpiredBy, IsAdoptedBy, ended_job_kept, fail_interrupted_recovers,
}

abbrev snapshot : ReflectionSnapshot
snapshot = record {
  schema_version = 2;
  user_id = "7";
  source_run_id = "run";
  source_thread_id = "lesson";
  source_plan_id = some 1;
  evidence_type = "new_user_input";
  model_config_snapshot = some "config";
  captured_at = 20;
  body = "";
}

abbrev candidate : ReflectionJobCandidate
candidate = record {
  kind = "profile";
  business_stage = "chat";
  extractor_version = "1";
  snapshot = snapshot;
}

abbrev pub waiting : MemoryReflectionJob
waiting = record {
  job_id = "a";
  user_id = "7";
  source_run_id = "run";
  source_thread_id = "lesson";
  source_plan_id = some 1;
  kind = "profile";
  business_stage = "chat";
  extractor_version = "1";
  snapshot_version = 2;
  snapshot = snapshot;
  evidence_type = "new_user_input";
  status = pending;
  error_category = none;
  error_message = none;
  applied_memory_id = none;
  applied_memory_version = none;
  created_at = 20;
  completed_at = none;
}

abbrev pub active_job : MemoryReflectionJob
active_job = record waiting {
  job_id = "b";
  source_run_id = "earlier";
  status = running;
  created_at = 10;
}

abbrev over : MemoryReflectionJob
over = record waiting {
  job_id = "c";
  source_run_id = "first";
  status = succeeded;
  created_at = 5;
  completed_at = some 9;
}

abbrev table : Jobs
table = waiting ∷ active_job ∷ over ∷ []

taken : (take_next table).1 ≡ some (claim waiting)
unfolding take_next oldest_pending older
taken = refl

take_next_oldest_example :
    (j : MemoryReflectionJob) × (claim waiting ≡ claim j)
    × IsNext j table
    × Memᴰ (claim waiting) (take_next table).0
    × (any (λ k. has_id j.job_id k && is_pending k.status) (take_next table).0 ≡ false)
    × (keep (λ k. not (has_id j.job_id k)) (take_next table).0
        ≡ keep (λ k. not (has_id j.job_id k)) table)
take_next_oldest_example = take_next_oldest table (claim waiting) taken

register_idempotent_example :
    register_reflection_candidates 40
      (("y", candidate) ∷ [])
      (register_reflection_candidates 30 (("x", candidate) ∷ []) [])
    ≡ register_reflection_candidates 30 (("x", candidate) ∷ []) []
register_idempotent_example =
    register_idempotent 30 40 (("x", candidate) ∷ []) (("y", candidate) ∷ []) [] refl

ended_job_kept_example :
    Memᴰ over (apply take_job table)
    ⊎ (IsExpiredBy take_job over ⊎ IsAdoptedBy take_job over (apply take_job table))
ended_job_kept_example =
    ended_job_kept take_job table over (Memᴰ.tail (Memᴰ.tail (Memᴰ.head refl))) refl

fail_interrupted_recovers_example :
    (any (λ j. is_running j.status) (fail_interrupted (105 ∷ []) (109 ∷ []) 50 table).0 ≡ false)
    × (length (fail_interrupted (105 ∷ []) (109 ∷ []) 50 table).1
        ≡ count (λ (j : MemoryReflectionJob). is_running j.status) table)
    × ((j : MemoryReflectionJob)
        → Memᴰ j table
        → is_running j.status ≡ false
        → Memᴰ j (fail_interrupted (105 ∷ []) (109 ∷ []) 50 table).0)
fail_interrupted_recovers_example = fail_interrupted_recovers (105 ∷ []) (109 ∷ []) 50 table

history-IsWellFormed_example :
    IsWellFormed (apply_all (register 20 (("x", candidate) ∷ []) ∷ take_job ∷ cleanup 1 30 ∷ []) [])
history-IsWellFormed_example =
    history-IsWellFormed (register 20 (("x", candidate) ∷ []) ∷ take_job ∷ cleanup 1 30 ∷ [])
