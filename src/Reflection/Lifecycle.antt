-- ===== src/Reflection/Lifecycle.antt =====
-- What every transaction on the job table keeps.
use smart_class_agent.Common.{
  ℕ, String, ◌≡◌, refl, Bool, true, false, Option, none, some, is_some, List, [], ◌∷◌, Text, All,
  first, take, any, keep, update, arith, Bool-cases, Option-cases, inl, inr,
}
use mathlib.Core.Path.{fun_ext}
use smart_class_agent.Common.Rows.{All-update, All-keep, any-update, any-keep}
use smart_class_agent.Reflection.{
  Jobs, MemoryReflectionJob, ReflectionJobCandidate, is_terminal, succeeded, same_key, insert_job,
  claim, finished, failed_with, safe_category, skipped, register_candidate,
  register_reflection_candidates, oldest_pending, take_next, succeed, skip, fail, fail_interrupted,
  cleanup_terminal, ReflectionSnapshot, with_snapshot, adopt_row,
}

-- One transaction on the table, with the values that the calls take.
pub data JobOp : Type 0 where
  register : ℕ → List (String × ReflectionJobCandidate) → JobOp
  take_job : JobOp
  succeed_job : String → Option String → Option ℕ → ℕ → JobOp
  skip_job : String → Text → ℕ → JobOp
  fail_job : Text → String → Text → Text → ℕ → JobOp
  interrupt : Text → Text → ℕ → JobOp
  cleanup : ℕ → ℕ → JobOp
  adopt : String → ReflectionSnapshot → JobOp

unfoldable pub apply : JobOp → Jobs → Jobs
apply (register now cs) jobs = register_reflection_candidates now cs jobs
apply take_job jobs = (take_next jobs).0
apply (succeed_job id m v now) jobs = succeed id m v now jobs
apply (skip_job id c now) jobs = skip id c now jobs
apply (fail_job u id c m now) jobs = fail u id c m now jobs
apply (interrupt c m now) jobs = (fail_interrupted c m now jobs).0
apply (cleanup days now) jobs = (cleanup_terminal days now jobs).0
apply (adopt id snapshot) jobs = adopt_row id snapshot jobs

pub apply_all : List JobOp → Jobs → Jobs
unfolding apply
apply_all [] jobs = jobs
apply_all (op ∷ ops) jobs = apply_all ops (apply op jobs)

-- A row has its completion time exactly when it is terminal, and carries an error or an applied
-- memory only then.
pub record RowIsValid (j : MemoryReflectionJob) : Type 0 where
  pub completed : is_some j.completed_at ≡ is_terminal j.status
  pub no_error : is_terminal j.status ≡ false → j.error_category ≡ none
  pub no_message : is_terminal j.status ≡ false → j.error_message ≡ none
  pub no_memory : is_terminal j.status ≡ false → j.applied_memory_id ≡ none

-- The candidate that a row would be a duplicate of.
abbrev candidate_of : MemoryReflectionJob → ReflectionJobCandidate
candidate_of j = record {
  kind = j.kind;
  business_stage = j.business_stage;
  extractor_version = j.extractor_version;
  snapshot = record j.snapshot { user_id = j.user_id; source_run_id = j.source_run_id };
}

-- No two rows have one idempotency key.
abbrev KeysAreDistinct : Jobs → Type 0
KeysAreDistinct [] = Unit
KeysAreDistinct (j ∷ js) = (any (same_key (candidate_of j)) js ≡ false) × KeysAreDistinct js

pub record IsWellFormed (jobs : Jobs) : Type 0 where
  pub rows : All RowIsValid jobs
  pub keys : KeysAreDistinct jobs

-- An update that leaves the key columns alone keeps the keys distinct.
KeysAreDistinct-update :
    (p : MemoryReflectionJob → Bool) (f : MemoryReflectionJob → MemoryReflectionJob) (jobs : Jobs)
    → ((c : ReflectionJobCandidate) (j : MemoryReflectionJob) → same_key c (f j) ≡ same_key c j)
    → ((j : MemoryReflectionJob) (k : MemoryReflectionJob)
        → same_key (candidate_of (f j)) k ≡ same_key (candidate_of j) k)
    → KeysAreDistinct jobs
    → KeysAreDistinct (update p f jobs)
KeysAreDistinct-update p f [] same key h = tt
KeysAreDistinct-update p f (j ∷ js) same key h = elim (Bool-cases (p j)) [
  | inl e ↦ rw e (
    rw (any-update (same_key (candidate_of (f j))) p f js (same _)) (rw (fun_ext (key j)) h.0),
    KeysAreDistinct-update p f js same key h.1,
  )
  | inr e ↦ rw e (
    rw (any-update (same_key (candidate_of j)) p f js (same _)) h.0,
    KeysAreDistinct-update p f js same key h.1,
  )
]

KeysAreDistinct-keep :
    (p : MemoryReflectionJob → Bool) (jobs : Jobs)
    → KeysAreDistinct jobs
    → KeysAreDistinct (keep p jobs)
KeysAreDistinct-keep p [] h = tt
KeysAreDistinct-keep p (j ∷ js) h = elim (Bool-cases (p j)) [
  | inl e ↦ rw e (any-keep _ p js h.0, KeysAreDistinct-keep p js h.1)
  | inr e ↦ rw e (KeysAreDistinct-keep p js h.1)
]

insert_job-IsWellFormed :
    (id : String) (now : ℕ) (c : ReflectionJobCandidate) (jobs : Jobs)
    → IsWellFormed jobs
    → IsWellFormed (insert_job id now c jobs)
unfolding insert_job
insert_job-IsWellFormed id now c jobs h = elim (Bool-cases (any (same_key c) jobs)) [
  | inl e ↦ rw e h
  | inr e ↦ rw e (record { rows = (ground arith, h.rows); keys = (e, h.keys) })
]

register_candidate-IsWellFormed :
    (id : String) (now : ℕ) (c : ReflectionJobCandidate) (jobs : Jobs)
    → IsWellFormed jobs
    → IsWellFormed (register_candidate id now c jobs)
unfolding register_candidate
register_candidate-IsWellFormed id now c jobs h = elim (Option-cases (first (same_key c) jobs)) [
  | inl e ↦ rw (e, register_candidate) (insert_job-IsWellFormed id now c jobs h)
  | inr (j, e) ↦ rw (e, register_candidate) h
]

register-IsWellFormed :
    (now : ℕ) (cs : List (String × ReflectionJobCandidate)) (jobs : Jobs)
    → IsWellFormed jobs
    → IsWellFormed (register_reflection_candidates now cs jobs)
unfolding register_reflection_candidates
register-IsWellFormed now [] jobs h = h
register-IsWellFormed now ((id, c) ∷ cs) jobs h =
    register-IsWellFormed now cs (register_candidate id now c jobs)
      (register_candidate-IsWellFormed id now c jobs h)

-- The updates of this module: they set the status and what goes with it, never a key column.
update-IsWellFormed :
    (p : MemoryReflectionJob → Bool) (f : MemoryReflectionJob → MemoryReflectionJob) (jobs : Jobs)
    → ((c : ReflectionJobCandidate) (j : MemoryReflectionJob) → same_key c (f j) ≡ same_key c j)
    → ((j : MemoryReflectionJob) (k : MemoryReflectionJob)
        → same_key (candidate_of (f j)) k ≡ same_key (candidate_of j) k)
    → ((j : MemoryReflectionJob) → p j ≡ true → RowIsValid j → RowIsValid (f j))
    → IsWellFormed jobs
    → IsWellFormed (update p f jobs)
update-IsWellFormed p f jobs same key valid h = record {
  rows = All-update RowIsValid p f jobs valid h.rows;
  keys = KeysAreDistinct-update p f jobs same key h.keys;
}

take_next-IsWellFormed : (jobs : Jobs) → IsWellFormed jobs → IsWellFormed (take_next jobs).0
unfolding take_next same_key
take_next-IsWellFormed jobs h = elim (Option-cases (oldest_pending jobs)) [
  | inl e ↦ rw (e, take_next) h
  | inr (j, e) ↦
      rw (e, take_next)
        (update-IsWellFormed _ claim jobs (λ c k. refl) (λ i k. refl) (λ k test v. ground arith) h)
]

-- Every transaction keeps the table well-formed.
apply-IsWellFormed : (op : JobOp) (jobs : Jobs) → IsWellFormed jobs → IsWellFormed (apply op jobs)
unfolding apply succeed skip fail fail_interrupted cleanup_terminal adopt_row same_key
apply-IsWellFormed (register now cs) jobs h = register-IsWellFormed now cs jobs h
apply-IsWellFormed take_job jobs h = take_next-IsWellFormed jobs h
apply-IsWellFormed (succeed_job id m v now) jobs h =
    update-IsWellFormed _ (finished succeeded m v none now) jobs (λ c k. refl) (λ i k. refl)
      (λ k test r. ground arith) h
apply-IsWellFormed (skip_job id c now) jobs h =
    update-IsWellFormed _ (finished skipped none none (some c) now) jobs (λ c' k. refl)
      (λ i k. refl) (λ k test r. ground arith) h
apply-IsWellFormed (fail_job u id c m now) jobs h =
    update-IsWellFormed _ (failed_with (safe_category u c) (take 500 m) now) jobs (λ c' k. refl)
      (λ i k. refl) (λ k test r. ground arith) h
apply-IsWellFormed (interrupt c m now) jobs h =
    update-IsWellFormed _ (failed_with c m now) jobs (λ c' k. refl) (λ i k. refl)
      (λ k test r. ground arith) h
apply-IsWellFormed (cleanup days now) jobs h = record {
  rows = All-keep RowIsValid _ jobs h.rows;
  keys = KeysAreDistinct-keep _ jobs h.keys;
}
apply-IsWellFormed (adopt id snapshot) jobs h =
    update-IsWellFormed _ (with_snapshot snapshot 2) jobs (λ c k. refl) (λ i k. refl)
      (λ k test r. record {
        completed = r.completed;
        no_error = r.no_error;
        no_message = r.no_message;
        no_memory = r.no_memory;
      })
      h

apply_all-IsWellFormed :
    (ops : List JobOp) (jobs : Jobs) → IsWellFormed jobs → IsWellFormed (apply_all ops jobs)
unfolding apply_all
apply_all-IsWellFormed [] jobs h = h
apply_all-IsWellFormed (op ∷ ops) jobs h =
    apply_all-IsWellFormed ops (apply op jobs) (apply-IsWellFormed op jobs h)

-- After any transactions on an empty table, each row has a completion time exactly when it is
-- terminal, a row that is not terminal has no error and no applied memory, and no two rows share
-- an idempotency key.
pub history-IsWellFormed : (ops : List JobOp) → IsWellFormed (apply_all ops [])
history-IsWellFormed ops = apply_all-IsWellFormed ops [] (record { rows = tt; keys = tt })
