-- ===== src/Memories/Recovery.antt =====
-- A reflection job whose commit is lost after the memory was written is finished by its next run.
use mathlib.Core.Path.{subst}
use smart_class_agent.Common.{
  ℕ, ◌+◌, max, String, ◌≡◌, refl, sym, ap, ◌∙◌, ◌⊎◌, Bool, true, false, Option, none, some, first,
  str_eq, Result, ok, err, Bool-cases, Option-cases, inl, inr, arith, eq_iff,
}
use smart_class_agent.Memories.Store.{BaseStore, Environment, MemoryItemPayload}
use smart_class_agent.Memories.{
  MemoryMutationGuard, MemoryMutationProposal, MemoryMutationResult, CommitError, World,
  guards_memory, is_noop, is_job, last_job_of, guard_version_of, new_guard, stored, guard_of, save,
  commit, put, target, duplicate_of, outdated, write_proposal, apply_automatic, applied_as,
}
use smart_class_agent.Memories.Guards.{guard_of-known, guard_of-missing, guard_of-row}
use smart_class_agent.Memories.Applying.{
  is_applied, IsRecorded, Recorded, run_job-Recorded, put_of, put_of-stored,
}

module _ (R : BaseStore) (E : Environment) (now : ℕ) (user_id job_id : String)
    (p : MemoryMutationProposal) (source_thread_id : Option String) (source_plan_id : Option ℕ)
    (captured_at : ℕ) where
  abbrev memory_id : String
  memory_id = target R E job_id p

  abbrev mine : MemoryMutationGuard → Bool
  mine = guards_memory user_id p.kind memory_id

  abbrev run_job : Bool → World R → World R × Result CommitError MemoryMutationResult
  run_job = apply_automatic R E now user_id job_id p source_thread_id source_plan_id captured_at

  abbrev found_guard : World R → MemoryMutationGuard
  found_guard w = (guard_of R E user_id p.kind memory_id w).0

  abbrev existing : World R → Option MemoryItemPayload
  existing w = stored R E user_id p.kind memory_id (guard_of R E user_id p.kind memory_id w).1.items

  -- The tests that lead to the write.
  abbrev IsWritten : World R → Type 0
  IsWritten w =
      (is_noop p.operation ≡ false)
      × (str_eq memory_id "" ≡ false)
      × (is_job job_id (found_guard w).last_applied_job_id ≡ false)
      × (is_job job_id (last_job_of (existing w)) ≡ false)
      × (duplicate_of R E user_id memory_id p (guard_of R E user_id p.kind memory_id w).1.items
          ≡ none)
      × (outdated R E p captured_at (found_guard w) ≡ false)

  written :
      (commits : Bool) (w : World R)
      → IsWritten w
      → run_job commits w
        ≡ write_proposal R E now user_id job_id p source_thread_id source_plan_id captured_at
            commits w
            (guard_of R E user_id p.kind memory_id w).1
            (found_guard w)
  unfolding apply_automatic
  written commits w (a, b, c, d, e, f) = rw (apply_automatic, a, b, c, d, e, f) refl

  -- Guards taken back over an untouched store are the world before.
  taken_back : (w w' : World R) → w'.items ≡ w.items → record w' { guards = w.guards } ≡ w
  taken_back w w' e = ap (λ items. record w { items = items }) e

  -- A call whose commit is lost writes the memory, or leaves the world as it was.
  lost_commit-cases : (w : World R) → ((run_job false w).0 ≡ w) ⊎ IsWritten w
  unfolding apply_automatic commit save
  lost_commit-cases w =
      let same = (guard_of-row R E user_id p.kind memory_id w).2 in
      elim (Bool-cases (is_noop p.operation)) [
        | inl a ↦ inl (rw (apply_automatic, a) refl)
        | inr a ↦ elim (Bool-cases (str_eq memory_id "")) [
          | inl b ↦ inl (rw (apply_automatic, a, b) refl)
          | inr b ↦ elim (Bool-cases (is_job job_id (found_guard w).last_applied_job_id)) [
            | inl c ↦ inl (
                rw (apply_automatic, a, b, c)
                  (taken_back w (guard_of R E user_id p.kind memory_id w).1 same))
            | inr c ↦ elim (Bool-cases (is_job job_id (last_job_of (existing w)))) [
              | inl d ↦ inl (
                  rw (apply_automatic, a, b, c, d)
                    (taken_back w (guard_of R E user_id p.kind memory_id w).1 same))
              | inr d ↦
                  elim (Option-cases (
                    duplicate_of R E user_id memory_id p
                      (guard_of R E user_id p.kind memory_id w).1.items)) [
                        | inr (m, e) ↦ inl (rw (apply_automatic, a, b, c, d, e) refl)
                        | inl e ↦ elim (Bool-cases (outdated R E p captured_at (found_guard w))) [
                          | inl f ↦ inl (rw (apply_automatic, a, b, c, d, e, f) refl)
                          | inr f ↦ inr (a, b, c, d, e, f)
                        ]
                      ]
            ]
          ]
        ]
      ]

  -- What a call answers and leaves, of which only the guards differ from an outcome.
  abbrev Agrees : World R × Result CommitError MemoryMutationResult → Option ℕ → R.Items → Type 0
  Agrees outcome version items =
      (w₃ : World R) × (r' : MemoryMutationResult) × (outcome ≡ (w₃, ok r'))
      × (is_applied r'.status ≡ true)
      × (r'.version ≡ version)
      × (r'.memory_id ≡ some memory_id)
      × (w₃.items ≡ items)

  -- A call that finds the job in the guard answers with the guard's version.
  adopted_guard :
      (w : World R) (version : ℕ)
      → is_noop p.operation ≡ false
      → str_eq memory_id "" ≡ false
      → is_job job_id (found_guard w).last_applied_job_id ≡ true
      → (found_guard w).version ≡ version
      → Agrees (run_job true w) (some version) w.items
  unfolding apply_automatic commit
  adopted_guard w version a b c v = (
    (guard_of R E user_id p.kind memory_id w).1,
    applied_as R E memory_id (found_guard w).version (existing w),
    rw (apply_automatic, a, b, c) refl,
    refl,
    ap some v,
    refl,
    (guard_of-row R E user_id p.kind memory_id w).2,
  )

  -- A call that finds the job in the store only adopts the later version.
  adopted_store :
      (w : World R) (version : ℕ)
      → is_noop p.operation ≡ false
      → str_eq memory_id "" ≡ false
      → is_job job_id (found_guard w).last_applied_job_id ≡ false
      → is_job job_id (last_job_of (existing w)) ≡ true
      → max (found_guard w).version (guard_version_of (existing w)) ≡ version
      → Agrees (run_job true w) (some version) w.items
  unfolding apply_automatic commit save
  adopted_store w version a b c d v =
      let adopted = max (found_guard w).version (guard_version_of (existing w)) in
      (
        save R E user_id p.kind memory_id
            (record (found_guard w) {
              version = adopted;
              last_applied_job_id = some job_id;
              deleted_at = none;
            })
            (guard_of R E user_id p.kind memory_id w).1,
        applied_as R E memory_id adopted (existing w),
        rw (apply_automatic, a, b, c, d) refl,
        refl,
        ap some v,
        refl,
        (guard_of-row R E user_id p.kind memory_id w).2,
      )

  -- The world in which the memory was written and the commit lost.
  abbrev torn : World R → World R
  torn w = record w {
    items =
        (put_of R E now user_id job_id p source_thread_id source_plan_id
          ((found_guard w).version + 1) (guard_of R E user_id p.kind memory_id w).1).items;
  }

  torn-existing :
      (w : World R)
      → (last_job_of (stored R E user_id p.kind memory_id (torn w).items) ≡ some job_id)
        × (guard_version_of (stored R E user_id p.kind memory_id (torn w).items)
            ≡ (found_guard w).version + 1)
  torn-existing w =
      put_of-stored R E now user_id job_id p source_thread_id source_plan_id
        ((found_guard w).version + 1) (guard_of R E user_id p.kind memory_id w).1

  own_job : is_job job_id (some job_id) ≡ true
  own_job = ground (arith, eq_iff job_id job_id)

  torn-Agrees :
      (w : World R)
      → IsWritten w
      → Agrees (run_job true (torn w)) (some ((found_guard w).version + 1)) (torn w).items
  unfolding new_guard
  torn-Agrees w (a, b, c, d, e, f) =
      let (job, version) = torn-existing w in
      let same_items =
        ap (stored R E user_id p.kind memory_id)
          (guard_of-row R E user_id p.kind memory_id (torn w)).2 in
      elim (Option-cases (first mine w.guards)) [
        | inl missing ↦
            let new =
              ap (λ x. x.0) (guard_of-missing R E user_id p.kind memory_id (torn w) missing) in
            adopted_guard (torn w) _ a b
              (ap (λ g. is_job job_id g.last_applied_job_id) new
                ∙ (ap (is_job job_id) job ∙ own_job))
              (ap (λ g. g.version) new ∙ omega (arith, version))
        | inr (g, known) ↦
            let before = ap (λ x. x.0) (guard_of-known R E user_id p.kind memory_id w g known) in
            let after =
              ap (λ x. x.0) (guard_of-known R E user_id p.kind memory_id (torn w) g known) in
            adopted_store (torn w) _ a b
              (ap (λ h. is_job job_id h.last_applied_job_id) (after ∙ sym before) ∙ c)
              (ap (λ m. is_job job_id (last_job_of m)) same_items
                ∙ (ap (is_job job_id) job ∙ own_job))
              (omega (
                arith,
                ap (λ h. h.version) (after ∙ sym before),
                ap guard_version_of same_items ∙ version,
              ))
      ]

  -- The items and the version of the answer of a call, for a later call on another world.
  abbrev Recovers : World R × Result CommitError MemoryMutationResult → World R → Type 0
  Recovers (w₁, ok r) w₂ = is_applied r.status ≡ true → Agrees (run_job true w₂) r.version w₁.items
  Recovers (w₁, err e) w₂ = Unit

  abbrev Records : World R × Result CommitError MemoryMutationResult → Type 0
  Records = Recorded R E now user_id job_id p source_thread_id source_plan_id

  -- The same call again, on the same world.
  Recovers-self :
      (w : World R) (outcome : World R × Result CommitError MemoryMutationResult)
      → run_job true w ≡ outcome
      → Records outcome
      → Recovers outcome w
  Recovers-self w (w₁, ok r) e recorded = λ h.
      let (a, b, (g, found, job, version, name)) = recorded h in (w₁, r, e, h, refl, name, refl)
  Recovers-self w (w₁, err x) e recorded = tt

  lost_commit-Recovers : (w : World R) → Recovers (run_job true w) (run_job false w).0
  unfolding write_proposal commit save put
  lost_commit-Recovers w = elim (lost_commit-cases w) [
    | inl same ↦ rw same (
        Recovers-self w _ refl
          (run_job-Recorded R E now user_id job_id p source_thread_id source_plan_id captured_at w))
    | inr steps ↦ rw (written true w steps, written false w steps) (λ h. torn-Agrees w steps)
  ]

  -- A call that would be answered `applied`, but loses its commit, is finished by the same call
  -- again: that one is answered `applied` with the version that the lost commit would have given
  -- the memory, and leaves the store of memories that it would have left, and the job recorded in
  -- the memory's guard with that version.
  pub apply_automatic_recovers :
      (w w₁ : World R) (r : MemoryMutationResult)
      → run_job true w ≡ (w₁, ok r)
      → is_applied r.status ≡ true
      → (w₃ : World R) × (r' : MemoryMutationResult) × (run_job true (run_job false w).0
          ≡ (w₃, ok r'))
        × (is_applied r'.status ≡ true)
        × (r'.version ≡ r.version)
        × (r'.memory_id ≡ some memory_id)
        × (w₃.items ≡ w₁.items)
        × IsRecorded R E now user_id job_id p source_thread_id source_plan_id w₃ r'
  apply_automatic_recovers w w₁ r e h =
      let (w₃, r', again, ok', version, name, items) =
        subst (λ x. Recovers x (run_job false w).0) e (lost_commit-Recovers w) h in
      (
        w₃,
        r',
        again,
        ok',
        version,
        name,
        items,
        subst Records again
            (run_job-Recorded R E now user_id job_id p source_thread_id source_plan_id captured_at
              (run_job false w).0)
            ok',
      )
