-- ===== src/Memories/Applying.antt =====
-- A reflection job's memory is written once, also when a commit is lost and the job runs again.
use mathlib.Core.Path.{subst}
use smart_class_agent.Common.{
  ℕ, ◌+◌, String, ◌≡◌, refl, sym, ◌∙◌, Bool, true, false, Option, none, some, first, str_eq,
  if_cases, Result, ok, err, Option-cases, inl, inr, arith, eq_iff,
}
use smart_class_agent.Memories.Store.{
  BaseStore, Environment, put_memory_item, stamped, updated_with,
}
use smart_class_agent.Memories.{
  MemoryMutationGuard, MemoryMutationProposal, MemoryMutationResult, MutationStatus, applied,
  CommitError, World, guards_memory, is_noop, is_job, last_job_of, guard_version_of, stored,
  guard_of, save, commit, put, target, duplicate_of, outdated, proposed, applied_as, write_proposal,
  apply_automatic,
}
use smart_class_agent.Memories.Guards.{guard_of-known, guard_of-row, save-row, aput-stored}

abbrev pub is_applied : MutationStatus → Bool
is_applied applied = true
is_applied _ = false

module _ (R : BaseStore) (E : Environment) (now : ℕ) (user_id job_id : String)
    (p : MemoryMutationProposal) (source_thread_id : Option String)
    (source_plan_id : Option ℕ) where
  abbrev memory_id : String
  memory_id = target R E job_id p

  abbrev mine : MemoryMutationGuard → Bool
  mine = guards_memory user_id p.kind memory_id

  -- The call for a job that was captured at a time, with its commit.
  abbrev run_job : ℕ → Bool → World R → World R × Result CommitError MemoryMutationResult
  run_job captured_at =
      apply_automatic R E now user_id job_id p source_thread_id source_plan_id captured_at

  -- The guard says that the job was applied, and in which version.
  abbrev pub IsRecorded : World R → MemoryMutationResult → Type 0
  IsRecorded w r =
      (is_noop p.operation ≡ false)
      × (str_eq memory_id "" ≡ false)
      × ((g : MemoryMutationGuard) × (first mine w.guards ≡ some g)
          × (is_job job_id g.last_applied_job_id ≡ true)
          × (r.version ≡ some g.version)
          × (r.memory_id ≡ some memory_id))

  -- Of an outcome `applied`.
  abbrev pub Recorded : World R × Result CommitError MemoryMutationResult → Type 0
  Recorded (w, ok r) = is_applied r.status ≡ true → IsRecorded w r
  Recorded (w, err e) = Unit

  -- A guard that is saved with the job and a version records them.
  saved-row :
      (w : World R) (g : MemoryMutationGuard) (version : ℕ) (deleted : Option ℕ)
      → first mine w.guards ≡ some g
      → mine g ≡ true
      → (h : MemoryMutationGuard) × (first mine
            (save R E user_id p.kind memory_id
              (record g {
                version = version;
                last_applied_job_id = some job_id;
                deleted_at = deleted;
              })
              w).guards
          ≡ some h)
        × (is_job job_id h.last_applied_job_id ≡ true)
        × (some version ≡ some h.version)
        × (some memory_id ≡ some memory_id)
  unfolding guards_memory
  saved-row w g version deleted found own = (
    record g { version = version; last_applied_job_id = some job_id; deleted_at = deleted },
    save-row R E user_id p.kind memory_id w g _ found own,
    ground (arith, eq_iff job_id job_id),
    refl,
    refl,
  )

  -- The world once the proposal is put in the store.
  abbrev pub put_of : ℕ → World R → World R
  put_of version w =
      (put R E now user_id p.kind (proposed R E version job_id source_thread_id source_plan_id p)
        memory_id w).0

  pub run_job-Recorded : (captured_at : ℕ) (w : World R) → Recorded (run_job captured_at true w)
  unfolding apply_automatic write_proposal commit put
  run_job-Recorded captured_at w =
      let (g, w') = guard_of R E user_id p.kind memory_id w in
      let row = guard_of-row R E user_id p.kind memory_id w in
      let existing = stored R E user_id p.kind memory_id w'.items in
      if_cases Recorded (is_noop p.operation) _ _ (λ e h. absurd (cc))
        (λ e.
          if_cases Recorded (str_eq memory_id "") _ _ (λ e' h. absurd (cc))
            (λ e'.
              if_cases Recorded (is_job job_id g.last_applied_job_id) _ _
                (λ e'' h. (e, e', (g, row.0, e'', refl, refl)))
                (λ e''.
                  if_cases Recorded (is_job job_id (last_job_of existing)) _ _
                    (λ f h. (e, e', saved-row w' g _ none row.0 row.1))
                    (λ f. elim (Option-cases (duplicate_of R E user_id memory_id p w'.items)) [
                      | inr (d, found) ↦ rw found (λ h. absurd (cc))
                      | inl none_found ↦ rw none_found (
                          if_cases Recorded (outdated R E p captured_at g) _ _ (λ o h. absurd (cc))
                            (λ o h.
                              (e, e', saved-row (put_of (g.version + 1) w') g _ none row.0 row.1)))
                    ]))))

  -- A job that is recorded is answered as it was, and nothing is written.
  run_job-recorded :
      (captured_at : ℕ) (w : World R) (r : MemoryMutationResult)
      → IsRecorded w r
      → (r' : MemoryMutationResult) × (run_job captured_at true w ≡ (w, ok r'))
        × (is_applied r'.status ≡ true)
        × (r'.version ≡ r.version)
        × (r'.memory_id ≡ r.memory_id)
  unfolding apply_automatic commit
  run_job-recorded captured_at w r (e, e', (g, found, job, version, name)) = (
    applied_as R E memory_id g.version (stored R E user_id p.kind memory_id w.items),
    rw (e, e', guard_of-known R E user_id p.kind memory_id w g found, job) refl,
    refl,
    sym version,
    sym name,
  )

  -- What the put leaves in the store names the job and its version.
  pub put_of-stored :
      (version : ℕ) (w : World R)
      → (last_job_of (stored R E user_id p.kind memory_id (put_of version w).items) ≡ some job_id)
        × (guard_version_of (stored R E user_id p.kind memory_id (put_of version w).items)
            ≡ version)
  unfolding put put_memory_item stamped updated_with proposed
  put_of-stored version w = aput-stored R E user_id p.kind memory_id _ _ w.items

-- A committed call is answered `applied`. The same job is applied once more, at another time and
-- under another time of capture, and in any world where the guard of that memory is still the row
-- that the first call left, whatever became of the rest of the guards and of the store: the
-- committed answer is `applied` too, for the same memory and version, and the call changes neither
-- a guard nor the store.
pub apply_automatic_once :
    (R : BaseStore) (E : Environment) (now later : ℕ) (user_id job_id : String)
    (p : MemoryMutationProposal) (source_thread_id : Option String) (source_plan_id : Option ℕ)
    (captured_at captured_later : ℕ) (w w₁ w₂ : World R) (r : MemoryMutationResult)
    → apply_automatic R E now user_id job_id p source_thread_id source_plan_id captured_at true w
      ≡ (w₁, ok r)
    → is_applied r.status ≡ true
    → first (guards_memory user_id p.kind (target R E job_id p)) w₂.guards
      ≡ first (guards_memory user_id p.kind (target R E job_id p)) w₁.guards
    → (r' : MemoryMutationResult) × (apply_automatic R E later user_id job_id p source_thread_id
          source_plan_id captured_later true w₂
        ≡ (w₂, ok r'))
      × (is_applied r'.status ≡ true)
      × (r'.version ≡ r.version)
      × (r'.memory_id ≡ r.memory_id)
apply_automatic_once R E now later user_id job_id p thread plan captured_at captured_later w w₁ w₂ r
      e h kept =
    let (e₁, e₂, (g, found, job, version, name)) =
      subst (Recorded R E now user_id job_id p thread plan) e
        (run_job-Recorded R E now user_id job_id p thread plan captured_at w) h in
    run_job-recorded R E later user_id job_id p thread plan captured_later w₂ r
      (e₁, e₂, (g, kept ∙ found, job, version, name))
