-- ===== src/Memories/Editing.antt =====
-- What a teacher does by hand wins over the proposals of the jobs that were captured before.
use smart_class_agent.Common.{
  ℕ, ◌+◌, ◌<◌, String, ◌≡◌, refl, ap, ◌∙◌, Bool, true, false, Option, none, some, first, str_eq,
  ltb, if_cases, Result, ok, Bool-cases, Option-cases, inl, inr, arith,
}
use smart_class_agent.Memories.Store.{
  BaseStore, Environment, MemoryItemPayload, put_memory_item, stamped, updated_with,
}
use smart_class_agent.Memories.{
  MemoryMutationGuard, MemoryMutationProposal, MemoryMutationResult, CommitError, World,
  guards_memory, is_noop, is_job, last_job_of, stored, guard_of, save, commit, put, marked, target,
  duplicate_of, outdated, apply_automatic, update_manual, delete_manual, unchanged, skipped, stale,
  some_name, name_or_empty,
}
use smart_class_agent.Memories.Guards.{
  guard_of-known, guard_of-row, save-row, aput-stored, adelete-stored,
}
use smart_class_agent.Memories.Applying.{is_applied}

before : {s t : ℕ} → s < t → ltb s t ≡ true
before lt = ground arith

module _ (R : BaseStore) (E : Environment) (user_id job_id : String)
    (p : MemoryMutationProposal) where
  abbrev memory_id : String
  memory_id = target R E job_id p

  abbrev mine : MemoryMutationGuard → Bool
  mine = guards_memory user_id p.kind memory_id

  module _ (at : ℕ) (source_thread_id : Option String) (source_plan_id : Option ℕ) (captured_at : ℕ)
      (commits : Bool) (w : World R) where
    abbrev run_job : World R × Result CommitError MemoryMutationResult
    run_job =
        apply_automatic R E at user_id job_id p source_thread_id source_plan_id captured_at commits
          w

    -- An outcome that changes nothing and is not `applied`.
    abbrev pub Refused : World R × Result CommitError MemoryMutationResult → Type 0
    Refused outcome =
        (r : MemoryMutationResult) × (outcome ≡ (w, ok r)) × (is_applied r.status ≡ false)

    run_job-Refused :
        (g : MemoryMutationGuard)
        → first mine w.guards ≡ some g
        → g.last_applied_job_id ≡ none
        → last_job_of (stored R E user_id p.kind memory_id w.items) ≡ none
        → outdated R E p captured_at g ≡ true
        → Refused run_job
    unfolding apply_automatic
    run_job-Refused g found no_job no_stored out =
        let found' = guard_of R E user_id p.kind memory_id w in
        let known = guard_of-known R E user_id p.kind memory_id w g found in
        let c : is_job job_id found'.0.last_applied_job_id ≡ false =
          ap (λ x. is_job job_id x.0.last_applied_job_id) known ∙ ap (is_job job_id) no_job in
        let d : is_job job_id (last_job_of (stored R E user_id p.kind memory_id found'.1.items))
            ≡ false =
          ap (λ x. is_job job_id (last_job_of (stored R E user_id p.kind memory_id x.1.items)))
            known
          ∙ ap (is_job job_id) no_stored in
        let f : outdated R E p captured_at found'.0 ≡ true =
          ap (λ x. outdated R E p captured_at x.0) known ∙ out in
        elim (Bool-cases (is_noop p.operation)) [
          | inl a ↦ (unchanged R E skipped none none, rw (apply_automatic, a) refl, refl)
          | inr a ↦ elim (Bool-cases (str_eq memory_id "")) [
            | inl b ↦ (unchanged R E skipped none none, rw (apply_automatic, a, b) refl, refl)
            | inr b ↦ elim (Option-cases (duplicate_of R E user_id memory_id p found'.1.items)) [
              | inr (m, e) ↦ (
                unchanged R E stale (some_name R E (name_or_empty m.id)) none,
                rw (apply_automatic, a, b, c, d, e) refl,
                refl,
              )
              | inl e ↦ (
                unchanged R E stale (some memory_id) (some found'.0.version),
                rw (apply_automatic, a, b, c, d, e, f) refl,
                refl,
              )
            ]
          ]
        ]

  module _ (later now captured_at : ℕ) (source_thread_id : Option String)
      (source_plan_id : Option ℕ) (commits : Bool) (w : World R) where
    -- After a committed update by hand, a call for a job that was captured before it changes
    -- nothing and is not answered `applied`, whatever it proposes for that memory.
    pub update_manual_wins :
        (value : MemoryItemPayload)
        → captured_at < now
        → Refused later source_thread_id source_plan_id captured_at commits
            (update_manual R E true now user_id p.kind memory_id value w).0
            (run_job later source_thread_id source_plan_id captured_at commits
              (update_manual R E true now user_id p.kind memory_id value w).0)
    unfolding update_manual commit put put_memory_item stamped updated_with marked guards_memory
        outdated
    update_manual_wins value lt =
        let row = guard_of-row R E user_id p.kind memory_id w in
        let g = (guard_of R E user_id p.kind memory_id w).0 in
        run_job-Refused later source_thread_id source_plan_id captured_at commits
          (update_manual R E true now user_id p.kind memory_id value w).0 _
          (save-row R E user_id p.kind memory_id (guard_of R E user_id p.kind memory_id w).1 g
            (record g {
              version = g.version + 1;
              deleted_at = none;
              last_manual_mutation_at = some now;
              last_applied_job_id = none;
            })
            row.0 row.1)
          refl (aput-stored R E user_id p.kind memory_id _ _ _).0 (rw (outdated, before lt) refl)

    -- After a committed deletion by hand the memory is not in the store, and a call for a job
    -- changes nothing and is not answered `applied`, whatever it proposes for that memory and
    -- whenever it was captured.
    pub delete_manual_lasts :
        Refused later source_thread_id source_plan_id captured_at commits
          (delete_manual R E true now user_id p.kind memory_id w).0
          (run_job later source_thread_id source_plan_id captured_at commits
            (delete_manual R E true now user_id p.kind memory_id w).0)
        × (stored R E user_id p.kind memory_id
              (delete_manual R E true now user_id p.kind memory_id w).0.items
            ≡ none)
    unfolding delete_manual commit save guards_memory outdated
    delete_manual_lasts =
        let row = guard_of-row R E user_id p.kind memory_id w in
        let g = (guard_of R E user_id p.kind memory_id w).0 in
        let gone =
          adelete-stored R E user_id p.kind memory_id
            (guard_of R E user_id p.kind memory_id w).1.items in
        (
          run_job-Refused later source_thread_id source_plan_id captured_at commits
              (delete_manual R E true now user_id p.kind memory_id w).0 _
              (save-row R E user_id p.kind memory_id (guard_of R E user_id p.kind memory_id w).1 g
                (record g {
                  version = g.version + 1;
                  deletion_generation = g.deletion_generation + 1;
                  deleted_at = some now;
                  last_manual_mutation_at = some now;
                  last_applied_job_id = none;
                })
                row.0 row.1)
              refl (ap last_job_of gone) (if_cases (λ b. b ≡ true) _ _ _ (λ e. refl) (λ e. refl)),
          gone,
        )
