-- ===== src/Reflection/Single.antt =====
-- What the end of a job does to its own row, and to those of other jobs.
use smart_class_agent.Common.{
  ℕ, String, ◌≡◌, ◌≢◌, refl, true, Option, none, some, Text, first, take, update, str_eq, arith,
  eq_iff,
}
use smart_class_agent.Common.Rows.{first-some, first-update_self, first-update_other}
use smart_class_agent.Reflection.{
  Jobs, MemoryReflectionJob, is_running, running_row, finished, failed_with, safe_category,
  succeeded, skipped, finish, succeed, skip, fail,
}

-- `db.get(MemoryReflectionJob, job_id)`
abbrev pub get_job : String → Jobs → Option MemoryReflectionJob
get_job job_id jobs = first (λ (j : MemoryReflectionJob). str_eq j.job_id job_id) jobs

module _ (job_id : String) (jobs : Jobs) where
  -- From `jobs` to the others the row became what `f` makes of it, and other jobs kept theirs.
  pub record Ends (j : MemoryReflectionJob) (jobs' : Jobs) : Type 0 where
    pub row : get_job job_id jobs' ≡ some j
    pub others : (other : String) → other ≢ job_id → get_job other jobs' ≡ get_job other jobs

  module _ (j : MemoryReflectionJob) (found : get_job job_id jobs ≡ some j)
      (open' : is_running j.status ≡ true) where
    written :
        (f : MemoryReflectionJob → MemoryReflectionJob)
        → ((x : MemoryReflectionJob) → (f x).job_id ≡ x.job_id)
        → Ends (f j) (update (running_row job_id) f jobs)
    written f same =
        let (_, own) = first-some _ jobs j found in
        record {
          row =
              first-update_self _ (running_row job_id) f jobs (λ x. rw (same x) refl) j found
                (ground arith);
          others = λ other ne.
              first-update_other _ (running_row job_id) f jobs (λ x. rw (same x) refl)
                (λ x q. ground (arith, ne, eq_iff x.job_id other, eq_iff x.job_id job_id));
        }

    pub succeed-Ends :
        (memory_id : Option String) (version : Option ℕ) (now : ℕ)
        → Ends
            (finished succeeded memory_id version none now j)
            (succeed job_id memory_id version now jobs)
    unfolding succeed finish
    succeed-Ends memory_id version now =
        written (finished succeeded memory_id version none now) (λ x. refl)

    pub skip-Ends :
        (category : Text) (now : ℕ)
        → Ends (finished skipped none none (some category) now j) (skip job_id category now jobs)
    unfolding skip finish
    skip-Ends category now = written (finished skipped none none (some category) now) (λ x. refl)

    pub fail-Ends :
        (unknown_error category message : Text) (now : ℕ)
        → Ends
            (failed_with (safe_category unknown_error category) (take 500 message) now j)
            (fail unknown_error job_id category message now jobs)
    unfolding fail
    fail-Ends unknown_error category message now =
        written (failed_with (safe_category unknown_error category) (take 500 message) now)
          (λ x. refl)
