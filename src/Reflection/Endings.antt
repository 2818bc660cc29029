-- ===== src/Reflection/Endings.antt =====
-- Jobs that have ended stay, jobs that a restart interrupted are closed, and a clean-up counts right.
use mathlib.Core.List.{Memᴰ}
use mathlib.Core.Logic.{◌⊎◌}
use smart_class_agent.Common.{
  ℕ, ◌-◌, ◌*◌, String, ◌≡◌, refl, true, false, not, none, some, List, [], ◌∷◌, Text, first, any,
  keep, take, ◌&&◌, update, str_eq, arith, Bool-cases, Option-cases, inl, inr, length, ◌+◌, map,
  count, eq_iff,
}
use smart_class_agent.Common.Rows.{
  first-none, mem-update, mem-update_chosen, mem-keep, length-keep-not,
}
use smart_class_agent.Reflection.{
  Jobs, MemoryReflectionJob, ReflectionJobCandidate, is_pending, is_running, is_terminal, same_key,
  finished, succeeded, skipped, safe_category, running_row, failed_with, register_candidate,
  register_reflection_candidates, oldest_pending, claim, take_next, succeed, skip, fail,
  fail_interrupted, cleanup_terminal, expired, with_snapshot, unconfigured_row, adopt_row,
}
use smart_class_agent.Reflection.Lifecycle.{
  JobOp, register, take_job, succeed_job, skip_job, fail_job, interrupt, cleanup, adopt, apply,
}

-- The transaction is a clean-up for which the row is old enough.
abbrev pub IsExpiredBy : JobOp → MemoryReflectionJob → Type 0
IsExpiredBy (cleanup days now) j = expired (now - days * 86400) j ≡ true
IsExpiredBy _ j = ⊥

-- The transaction writes a configuration to the row, which had none, and nothing else of it.
abbrev pub IsAdoptedBy : JobOp → MemoryReflectionJob → Jobs → Type 0
IsAdoptedBy (adopt id snapshot) j jobs =
    (j.job_id ≡ id)
    × (j.snapshot.model_config_snapshot ≡ none)
    × Memᴰ (with_snapshot snapshot 2 j) jobs
IsAdoptedBy _ j jobs = ⊥

unconfigured_row-IsAdoptedBy :
    (id : String) (j : MemoryReflectionJob)
    → unconfigured_row id j ≡ true
    → (j.job_id ≡ id) × (j.snapshot.model_config_snapshot ≡ none)
unconfigured_row-IsAdoptedBy id j h = elim (Option-cases (j.snapshot.model_config_snapshot)) [
  | inl lacks ↦ (ground (arith, eq_iff j.job_id id), lacks)
  | inr (config, has) ↦ absurd (ground arith)
]

mem-register_candidate :
    {j : MemoryReflectionJob} {jobs : Jobs} (id : String) (now : ℕ) (c : ReflectionJobCandidate)
    → Memᴰ j jobs
    → Memᴰ j (register_candidate id now c jobs)
unfolding register_candidate
mem-register_candidate {jobs = jobs} id now c m = elim (Option-cases (first (same_key c) jobs)) [
  | inr (k, e) ↦ rw (e, register_candidate) m
  | inl e ↦ rw (e, register_candidate, first-none _ jobs e) (Memᴰ.tail m)
]

mem-register :
    {j : MemoryReflectionJob} {jobs : Jobs} (now : ℕ) (cs : List (String × ReflectionJobCandidate))
    → Memᴰ j jobs
    → Memᴰ j (register_reflection_candidates now cs jobs)
unfolding register_reflection_candidates
mem-register now [] m = m
mem-register {j = j} {jobs = jobs} now ((id, c) ∷ cs) m =
    mem-register {jobs = register_candidate id now c jobs} now cs
      (mem-register_candidate id now c m)

mem-take_next :
    {j : MemoryReflectionJob} {jobs : Jobs}
    → is_terminal j.status ≡ true
    → Memᴰ j jobs
    → Memᴰ j (take_next jobs).0
unfolding take_next
mem-take_next {j} {jobs} t m = elim (Option-cases (oldest_pending jobs)) [
  | inl e ↦ rw (e, take_next) m
  | inr (k, e) ↦
      rw (e, take_next)
        (mem-update (λ x. str_eq x.job_id k.job_id && is_pending x.status) claim (ground arith) m)
]

-- A job that has ended stays in the table as it is under every transaction of the queue and of its
-- worker, but for a clean-up for which it is old enough, and for the adoption of a model
-- configuration by a row that has none, which writes the snapshot and its version alone.
pub ended_job_kept :
    (op : JobOp) (jobs : Jobs) (j : MemoryReflectionJob)
    → Memᴰ j jobs
    → is_terminal j.status ≡ true
    → Memᴰ j (apply op jobs) ⊎ (IsExpiredBy op j ⊎ IsAdoptedBy op j (apply op jobs))
unfolding apply succeed skip fail fail_interrupted cleanup_terminal adopt_row
ended_job_kept (register now cs) jobs j m t = inl (mem-register now cs m)
ended_job_kept take_job jobs j m t = inl (mem-take_next t m)
ended_job_kept (succeed_job id mid v now) jobs j m t =
    inl (mem-update (running_row id) (finished succeeded mid v none now) (ground arith) m)
ended_job_kept (skip_job id c now) jobs j m t =
    inl (mem-update (running_row id) (finished skipped none none (some c) now) (ground arith) m)
ended_job_kept (fail_job u id c msg now) jobs j m t = inl (
    mem-update (running_row id) (failed_with (safe_category u c) (take 500 msg) now) (ground arith)
      m)
ended_job_kept (interrupt c msg now) jobs j m t =
    inl (mem-update (λ x. is_running x.status) (failed_with c msg now) (ground arith) m)
ended_job_kept (cleanup days now) jobs j m t = elim (Bool-cases (expired (now - days * 86400) j)) [
  | inl e ↦ inr (inl e)
  | inr e ↦ inl (mem-keep (λ x. not (expired (now - days * 86400) x)) (rw e) m)
]
ended_job_kept (adopt id snapshot) jobs j m t = elim (Bool-cases (unconfigured_row id j)) [
  | inl e ↦
      let (own, lacks) = unconfigured_row-IsAdoptedBy id j e in
      inr (inr (own, lacks, mem-update_chosen (unconfigured_row id) (with_snapshot snapshot 2) e m))
  | inr e ↦ inl (mem-update (unconfigured_row id) (with_snapshot snapshot 2) e m)
]

-- The rows that a clean-up leaves and the number that it reports are together the number of rows
-- before, and a row that is not terminal stays as it was.
pub cleanup_accounts :
    (days now : ℕ) (jobs : Jobs) (j : MemoryReflectionJob)
    → (length (cleanup_terminal days now jobs).0 + (cleanup_terminal days now jobs).1 ≡ length jobs)
      × (Memᴰ j jobs → is_terminal j.status ≡ false → Memᴰ j (cleanup_terminal days now jobs).0)
unfolding cleanup_terminal expired
cleanup_accounts days now jobs j = (
  length-keep-not _ jobs,
  λ m t. mem-keep (λ x. not (expired (now - days * 86400) x)) (ground arith) m,
)

-- After the recovery at the start of a worker no row is running; it reports as many kinds as rows
-- were running; and a row that was not running stays as it was.
pub fail_interrupted_recovers :
    (category message : Text) (now : ℕ) (jobs : Jobs)
    → (any (λ j. is_running j.status) (fail_interrupted category message now jobs).0 ≡ false)
      × (length (fail_interrupted category message now jobs).1
          ≡ count (λ (j : MemoryReflectionJob). is_running j.status) jobs)
      × ((j : MemoryReflectionJob)
          → Memᴰ j jobs
          → is_running j.status ≡ false
          → Memᴰ j (fail_interrupted category message now jobs).0)
unfolding fail_interrupted
fail_interrupted_recovers category message now jobs = (
  none_running jobs,
  kinds jobs,
  λ j m r. mem-update (λ x. is_running x.status) (failed_with category message now) r m,
)
  where
    none_running :
        (js : Jobs)
        → any
            (λ j. is_running j.status)
            (update (λ j. is_running j.status) (failed_with category message now) js)
          ≡ false
    none_running [] = refl
    none_running (j ∷ js) = ground (arith, none_running js)

    kinds :
        (js : Jobs)
        → length (map (λ (j : MemoryReflectionJob). j.kind) (keep (λ j. is_running j.status) js))
          ≡ count (λ (j : MemoryReflectionJob). is_running j.status) js
    kinds [] = refl
    kinds (j ∷ js) = ground (arith, kinds js)
