-- ===== src/Worker/Processing.antt =====
-- A job that the worker has claimed ends.
use mathlib.Core.Path.{subst, ◌∙◌}
use smart_class_agent.Common.{
  ℕ, String, ◌≡◌, ◌≢◌, refl, Bool, true, false, some, is_some, Text, arith, eq_iff, Result, ok, err,
  Bool-cases, Result-cases, inl, inr, bind-ok, guard, ok-injective, if_cases, ◌⊎◌,
}
use smart_class_agent.Common.Rows.{first-some, first-update_self, first-update_other}
use smart_class_agent.Reflection.{
  Jobs, MemoryReflectionJob, is_running, is_terminal, skip, with_snapshot, adopt_row,
  unconfigured_row,
}
use smart_class_agent.Reflection.Single.{get_job, Ends, succeed-Ends, skip-Ends, fail-Ends}
use smart_class_agent.Memories.Store.{BaseStore, Environment}
use smart_class_agent.Memories.{
  World, CommitError, MemoryMutationProposal, MemoryMutationResult, is_noop,
}
use smart_class_agent.Worker.{
  Circumstances, Wording, State, WorkerError, is_applied, is_supported, adopted, adopt_stored,
  adopt_configuration, extracted, end_job, end_applied, after_apply, unsupported_version,
  apply_proposal, attempt_job, process_claimed, commit_failed,
}

-- The row of a job is there with a status that passes a test, and other jobs kept theirs.
record Leaves (test : MemoryReflectionJob → Bool) (job_id : String) (jobs jobs' : Jobs)
    : Type 0 where
  row : MemoryReflectionJob
  found : get_job job_id jobs' ≡ some row
  passes : test row ≡ true
  others : (other : String) → other ≢ job_id → get_job other jobs' ≡ get_job other jobs

abbrev is_open : MemoryReflectionJob → Bool
is_open j = is_running j.status

abbrev is_over : MemoryReflectionJob → Bool
is_over j = is_terminal j.status

Leaves-trans :
    (t t' : MemoryReflectionJob → Bool) (job_id : String) (a b c : Jobs)
    → Leaves t job_id a b
    → Leaves t' job_id b c
    → Leaves t' job_id a c
Leaves-trans t t' job_id a b c g h = record {
  row = h.row;
  found = h.found;
  passes = h.passes;
  others = λ other ne. h.others other ne ∙ g.others other ne;
}

-- The same where the second step knows the job by an equal identifier.
Leaves-after :
    (t : MemoryReflectionJob → Bool) (job_id job_id' : String) (a b c : Jobs)
    → job_id' ≡ job_id
    → Leaves is_open job_id a b
    → Leaves t job_id' b c
    → Leaves t job_id a c
Leaves-after t job_id job_id' a b c same g h =
    Leaves-trans is_open t job_id a b c g (subst (λ (id : String). Leaves t id b c) same h)

ends :
    (job_id : String) (a b : Jobs) (j : MemoryReflectionJob)
    → is_over j ≡ true
    → Ends job_id a j b
    → Leaves is_over job_id a b
ends job_id a b j t e = record { row = j; found = e.row; passes = t; others = e.others }

-- The adoption of a configuration keeps the job running.
adopt_configuration-Leaves :
    (c : Circumstances) (job : MemoryReflectionJob) (a : Jobs) (r : Jobs × MemoryReflectionJob)
    → Leaves is_open job.job_id a a
    → adopt_configuration c job a ≡ ok r
    → Leaves is_open job.job_id a r.0 × (r.1.job_id ≡ job.job_id)
unfolding adopt_configuration adopt_stored adopt_row
adopt_configuration-Leaves c job a r h e =
    let Claim = λ (x : Jobs × MemoryReflectionJob).
      Leaves is_open job.job_id a x.0 × (x.1.job_id ≡ job.job_id) in
    elim (Bool-cases (is_some job.snapshot.model_config_snapshot)) [
      | inl has ↦ subst Claim (ok-injective (rw (adopt_configuration, has) at e)) (h, refl)
      | inr lacks ↦ elim (Bool-cases (is_some h.row.snapshot.model_config_snapshot)) [
        | inl has ↦
            subst Claim
              (ok-injective (rw (adopt_configuration, lacks, h.found, adopt_stored, has) at e))
              (h, refl)
        | inr none_yet ↦
            let (u, commits, rest) =
              bind-ok (guard c.adopt_commits commit_failed) _ r
                (rw (adopt_configuration, lacks, h.found, adopt_stored, none_yet) at e) in
            let write = with_snapshot (adopted c.current job.snapshot) 2 in
            subst Claim (ok-injective rest) (
              record {
                row = write h.row;
                found =
                    first-update_self _ (unconfigured_row job.job_id) write a (λ x. refl) h.row
                      h.found (ground (arith, (first-some _ a h.row h.found).1, none_yet));
                passes = h.passes;
                others = λ other ne.
                    first-update_other _ (unconfigured_row job.job_id) write a (λ x. refl)
                      (λ x q.
                        ground (arith, ne, eq_iff x.job_id other, eq_iff x.job_id job.job_id));
              },
              refl,
            )
      ]
    ]

module _ (R : BaseStore) (E : Environment) (wording : Wording) (shadow : Bool) where
  abbrev Answer : Type 0
  Answer = State R E wording shadow × Result WorkerError (Unit {0})

  -- A part of the processing ends the job, or raises with the job still running.
  abbrev EndsOrRaises : String → Jobs → Answer → Type 0
  EndsOrRaises job_id a r =
      ((r.1 ≡ ok tt) × Leaves is_over job_id a r.0.jobs)
      ⊎ ((e : WorkerError) × (r.1 ≡ err e) × Leaves is_open job_id a r.0.jobs)

  end_job-ends :
      (commits : Bool) (job_id : String) (jobs : Jobs) (s : State R E wording shadow)
      → Leaves is_open job_id s.jobs s.jobs
      → Leaves is_over job_id s.jobs jobs
      → EndsOrRaises job_id s.jobs (end_job R E wording shadow commits jobs s)
  unfolding end_job
  end_job-ends true job_id jobs s h over = inl (refl, over)
  end_job-ends false job_id jobs s h over = inr (commit_failed, refl, h)

  skipped-over :
      (job_id : String) (a : Jobs) (category : Text) (now : ℕ)
      → Leaves is_open job_id a a
      → Leaves is_over job_id a (skip job_id category now a)
  skipped-over job_id a category now h =
      ends job_id a _ _ refl (skip-Ends job_id a h.row h.found h.passes category now)

  end_applied-ends :
      (c : Circumstances) (job_id : String) (result : MemoryMutationResult)
      (s : State R E wording shadow)
      → Leaves is_open job_id s.jobs s.jobs
      → EndsOrRaises job_id s.jobs (end_applied R E wording shadow c job_id result s)
  unfolding end_applied
  end_applied-ends c job_id result s h = end_job-ends c.end_commits job_id _ s h (
      if_cases (Leaves is_over job_id s.jobs) (is_applied result.status) _ _
        (λ e.
          ends job_id s.jobs _ _ refl (
            succeed-Ends job_id s.jobs h.row h.found h.passes result.memory_id result.version
              c.now))
        (λ e. skipped-over job_id s.jobs (wording.status_name result.status) c.now h))

  after_apply-ends :
      (c : Circumstances) (job_id : String) (r : World R × Result CommitError MemoryMutationResult)
      (s : State R E wording shadow)
      → Leaves is_open job_id s.jobs s.jobs
      → EndsOrRaises job_id s.jobs (after_apply R E wording shadow c job_id r s)
  unfolding after_apply
  after_apply-ends c job_id (memories, err e) s h = inr (commit_failed, refl, h)
  after_apply-ends c job_id (memories, ok result) s h =
      end_applied-ends c job_id result (record s { memories = memories }) h

  apply_proposal-ends :
      (c : Circumstances) (job : MemoryReflectionJob) (p : MemoryMutationProposal)
      (s : State R E wording shadow)
      → Leaves is_open job.job_id s.jobs s.jobs
      → EndsOrRaises job.job_id s.jobs (apply_proposal R E wording shadow c job p s)
  unfolding apply_proposal
  apply_proposal-ends c job p s h =
      if_cases (EndsOrRaises job.job_id s.jobs) shadow _ _
        (λ e.
          end_job-ends c.end_commits job.job_id _ s h
            (skipped-over job.job_id s.jobs wording.shadow_mode c.now h))
        (λ e.
          if_cases (EndsOrRaises job.job_id s.jobs) (is_noop p.operation) _ _
            (λ f.
              end_job-ends c.end_commits job.job_id _ s h
                (skipped-over job.job_id s.jobs wording.policy_skip c.now h))
            (λ f. after_apply-ends c job.job_id _ s h))

  -- The `try` ends the job, or raises with the job still running.
  attempt_job-ends :
      (c : Circumstances) (job : MemoryReflectionJob) (s : State R E wording shadow)
      → Leaves is_open job.job_id s.jobs s.jobs
      → EndsOrRaises job.job_id s.jobs (attempt_job R E wording shadow c job s)
  unfolding attempt_job
  attempt_job-ends c job s h =
      if_cases (EndsOrRaises job.job_id s.jobs) (is_supported job) _ _
        (λ known. elim (Result-cases (adopt_configuration c job s.jobs)) [
          | inr (e, raised) ↦ rw raised (inr (e, refl, h))
          | inl ((jobs, job'), went) ↦
              let (left, same) = adopt_configuration-Leaves c job s.jobs (jobs, job') h went in
              let kept : Leaves is_open job'.job_id jobs jobs = record {
                row = left.row;
                found = rw same left.found;
                passes = left.passes;
                others = λ other ne. refl;
              } in
              rw went (elim (Result-cases (extracted c job')) [
                | inr (e, raised) ↦ rw raised (inr (e, refl, left))
                | inl (p, got) ↦
                    rw got (elim (apply_proposal-ends c job' p (record s { jobs = jobs }) kept) [
                      | inl (done', over) ↦ inl (
                        done',
                        Leaves-after is_over job.job_id job'.job_id s.jobs jobs _ same left over,
                      )
                      | inr (e, raised, over) ↦ inr (
                        e,
                        raised,
                        Leaves-after is_open job.job_id job'.job_id s.jobs jobs _ same left over,
                      )
                    ])
              ])
        ])
        (λ unknown. inr (unsupported_version, refl, h))

  -- A job that is claimed, whose row is running, is over after its processing, whatever the model
  -- answers, whichever commits of the memory, the configuration or the row's end fail, and also in
  -- shadow mode: its row is there with a status that ends jobs, and no other job's row is touched.
  -- The transaction that records a failure is taken to commit.
  pub process_claimed-ends :
      (c : Circumstances) (job row : MemoryReflectionJob) (s : State R E wording shadow)
      → get_job job.job_id s.jobs ≡ some row
      → is_running row.status ≡ true
      → let jobs' = (process_claimed R E wording shadow c job s).jobs in
        ((row' : MemoryReflectionJob) × (get_job job.job_id jobs' ≡ some row')
          × (is_terminal row'.status ≡ true))
        × ((other : String) → other ≢ job.job_id → get_job other jobs' ≡ get_job other s.jobs)
  unfolding process_claimed
  process_claimed-ends c job row s found open' =
      let h : Leaves is_open job.job_id s.jobs s.jobs = record {
        row = row;
        found = found;
        passes = open';
        others = λ other ne. refl;
      } in
      elim (attempt_job-ends c job s h) [
        | inl (done', over) ↦
            rw (process_claimed, done') ((over.row, over.found, over.passes), over.others)
        | inr (e, raised, left) ↦
            let s' = (attempt_job R E wording shadow c job s).0 in
            let failed =
              fail-Ends job.job_id s'.jobs left.row left.found left.passes wording.unknown_error
                (wording.categorize_error e) wording.failure_message c.now in
            rw (process_claimed, raised)
              ((_, failed.row, refl), λ other ne. failed.others other ne ∙ left.others other ne)
      ]
