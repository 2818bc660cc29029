-- ===== src/Memories.antt =====
-- backend/app/services/memory_service.py: manual edits of a user's memories and the ones that the
-- reflection jobs propose, kept apart by a guard row for each memory. The guards are in the
-- database, the memories in another store, so that a commit that fails leaves the store as the
-- call wrote it: each operation takes whether its commit succeeds. The user's advisory lock makes
-- an operation one step.
pub mod Store
mod Guards
pub mod Applying
pub mod Recovery
pub mod Editing
use smart_class_agent.Memories.Store.{
  MemoryKind, profile, experience, MemoryItemPayload, BaseStore, Environment, namespace,
  get_memory_item, put_memory_item, search_memory_items,
}
use smart_class_agent.Common.{
  ℕ, suc, ◌+◌, max, String, Bool, true, false, ◌&&◌, not, Option, none, some, is_some, List, [],
  ◌∷◌, Text, take, first, update as update_rows, str_eq, ltb, ◌==◌, if◌then◌else◌, Result, ok, err,
}

pub record MemoryMutationGuard : Type 0 where
  pub user_id : String
  pub kind : MemoryKind
  pub memory_id : String
  pub version : ℕ
  pub deletion_generation : ℕ
  pub deleted_at : Option ℕ
  pub last_manual_mutation_at : Option ℕ
  pub last_applied_job_id : Option String

pub data Operation : Type 0 where
  create update noop : Operation

pub record MemoryMutationProposal : Type 0 where
  pub operation : Operation
  pub kind : MemoryKind
  pub target_memory_id : Option String
  pub base_version : Option ℕ
  pub title : Text
  pub summary : Text
  pub content : Text
  pub tags : List Text

pub data MutationStatus : Type 0 where
  applied skipped stale : MutationStatus

pub record MemoryMutationResult : Type 0 where
  pub status : MutationStatus
  pub memory_id : Option String
  pub version : Option ℕ
  pub memory : Option MemoryItemPayload

pub data CommitError : Type 0 where
  commit_failed : CommitError

abbrev pub same_kind : MemoryKind → MemoryKind → Bool
same_kind profile profile = true
same_kind experience experience = true
same_kind _ _ = false

-- The columns of `uq_memory_mutation_guard_target`.
unfoldable pub guards_memory : String → MemoryKind → String → MemoryMutationGuard → Bool
guards_memory user_id kind memory_id g =
    str_eq g.user_id user_id && (same_kind g.kind kind && str_eq g.memory_id memory_id)

abbrev or_zero : Option ℕ → ℕ
or_zero none = 0
or_zero (some n) = n

abbrev pub guard_version_of : Option MemoryItemPayload → ℕ
guard_version_of none = 0
guard_version_of (some m) = or_zero m.guard_version

abbrev pub last_job_of : Option MemoryItemPayload → Option String
last_job_of none = none
last_job_of (some m) = elim m.last_applied_job_id [ none ↦ none | some job ↦ job ]

abbrev pub is_job : String → Option String → Bool
is_job job_id none = false
is_job job_id (some other) = str_eq other job_id

abbrev is_version : ℕ → Option ℕ → Bool
is_version n none = false
is_version n (some m) = m == n

abbrev pub after : Option ℕ → ℕ → Bool
after none t = false
after (some at) t = ltb t at

abbrev is_create : Operation → Bool
is_create create = true
is_create _ = false

abbrev is_update : Operation → Bool
is_update update = true
is_update _ = false

abbrev pub is_noop : Operation → Bool
is_noop noop = true
is_noop _ = false

abbrev text_eq : Text → Text → Bool
text_eq [] [] = true
text_eq (a ∷ s) (b ∷ t) = a == b && text_eq s t
text_eq _ _ = false

abbrev or_empty : Option Text → Text
or_empty none = []
or_empty (some t) = t

abbrev or_else : Text → Text → Text
or_else [] t = t
or_else (a ∷ s) t = a ∷ s

abbrev pub name_or_empty : Option String → String
name_or_empty none = ""
name_or_empty (some s) = s

-- The database's guards and the store of memories.
pub record World (R : BaseStore) : Type 0 where
  pub guards : List MemoryMutationGuard
  pub items : R.Items

module _ (R : BaseStore) (E : Environment) where
  -- The guard that `_guard` makes from what the store holds; `guard_id` is left out.
  unfoldable pub new_guard :
      String → MemoryKind → String → Option MemoryItemPayload → MemoryMutationGuard
  new_guard user_id kind memory_id existing = record {
    user_id = user_id;
    kind = kind;
    memory_id = memory_id;
    version = max (guard_version_of existing) 0;
    deletion_generation = 0;
    deleted_at = none;
    last_manual_mutation_at = none;
    last_applied_job_id = last_job_of existing;
  }

  unfoldable pub stored : String → MemoryKind → String → R.Items → Option MemoryItemPayload
  unfolding namespace get_memory_item
  stored user_id kind memory_id items = get_memory_item R (namespace E user_id kind) memory_id items

  -- `_guard`: the guard, and the world with its row.
  unfoldable pub guard_of : String → MemoryKind → String → World R → MemoryMutationGuard × World R
  unfolding new_guard stored guards_memory
  guard_of user_id kind memory_id w = elim (first (guards_memory user_id kind memory_id) w.guards) [
    | some g ↦ (g, w)
    | none ↦
        let g = new_guard user_id kind memory_id (stored user_id kind memory_id w.items) in
        (g, record w { guards = g ∷ w.guards })
  ]

  -- The flush of a changed guard.
  unfoldable pub save : String → MemoryKind → String → MemoryMutationGuard → World R → World R
  unfolding guards_memory
  save user_id kind memory_id g w = record w {
    guards = update_rows (guards_memory user_id kind memory_id) (λ _. g) w.guards;
  }

  -- The end of an operation that began in `w`: a commit that fails takes the guards back.
  unfoldable pub commit {ℓ} :
      {A : Type ℓ} → Bool → World R → World R → A → World R × Result CommitError A
  commit true w w' a = (w', ok a)
  commit false w w' a = (record w' { guards = w.guards }, err commit_failed)

  unfoldable pub put :
      ℕ → String → MemoryKind → MemoryItemPayload → String → World R → World R × MemoryItemPayload
  unfolding put_memory_item
  put now user_id kind value memory_id w =
      let (items, payload) = put_memory_item R E now user_id kind value memory_id w.items in
      (record w { items = items }, payload)

  -- A value that a teacher writes, with the marks of the guard.
  pub marked : ℕ → MemoryItemPayload → MemoryItemPayload
  marked version value = record value {
    guard_version = some version;
    last_applied_job_id = some none;
  }

  -- `memory_id` is the call's `uuid4().hex`, `now` the clock.
  unfoldable create_manual :
      Bool
      → ℕ
      → String
      → String
      → MemoryKind
      → MemoryItemPayload
      → World R
      → World R × Result CommitError MemoryItemPayload
  unfolding guard_of save commit put marked
  create_manual commits now memory_id user_id kind value w =
      let (found, w') = guard_of user_id kind memory_id w in
      let g = record found {
        version = found.version + 1;
        deleted_at = none;
        last_manual_mutation_at = some now;
      } in
      let (w'', result) =
        put now user_id kind (marked g.version value) memory_id
          (save user_id kind memory_id g w') in
      commit commits w w'' result

  pub update_manual :
      Bool
      → ℕ
      → String
      → MemoryKind
      → String
      → MemoryItemPayload
      → World R
      → World R × Result CommitError MemoryItemPayload
  unfolding guard_of save commit put marked
  update_manual commits now user_id kind memory_id value w =
      let (found, w') = guard_of user_id kind memory_id w in
      let g = record found {
        version = found.version + 1;
        deleted_at = none;
        last_manual_mutation_at = some now;
        last_applied_job_id = none;
      } in
      let (w'', result) =
        put now user_id kind (marked g.version value) memory_id
          (save user_id kind memory_id g w') in
      commit commits w w'' result

  pub delete_manual :
      Bool → ℕ → String → MemoryKind → String → World R → World R × Result CommitError (Unit {0})
  unfolding guard_of save commit namespace
  delete_manual commits now user_id kind memory_id w =
      let (found, w') = guard_of user_id kind memory_id w in
      let g = record found {
        version = found.version + 1;
        deletion_generation = found.deletion_generation + 1;
        deleted_at = some now;
        last_manual_mutation_at = some now;
        last_applied_job_id = none;
      } in
      let saved = save user_id kind memory_id g w' in
      commit commits w
        (record saved { items = R.adelete (namespace E user_id kind) memory_id saved.items }) tt

  -- The memory that a proposal is about.
  unfoldable pub target : String → MemoryMutationProposal → String
  target job_id p =
      if is_create p.operation then E.digest job_id else name_or_empty p.target_memory_id

  -- The memory of another key that says the same as a new one.
  unfoldable pub duplicate_of :
      String → String → MemoryMutationProposal → R.Items → Option MemoryItemPayload
  unfolding namespace search_memory_items
  duplicate_of user_id memory_id p items =
      if is_create p.operation
      then first
          (λ m.
            not (str_eq (name_or_empty m.id) memory_id)
            && (text_eq (E.casefold (E.strip (or_empty m.title))) (E.casefold (E.strip p.title))
                && text_eq (E.strip (or_empty m.content)) (E.strip p.content)))
          (search_memory_items R (namespace E user_id p.kind) 100 items)
      else none

  -- The three tests of the guard that make a proposal out of date.
  unfoldable pub outdated : MemoryMutationProposal → ℕ → MemoryMutationGuard → Bool
  outdated p captured_at g =
      if after g.last_manual_mutation_at captured_at
      then true
      else if is_some g.deleted_at
      then true
      else is_update p.operation && not (is_version g.version p.base_version)

  -- `payload`
  unfoldable pub proposed :
      ℕ → String → Option String → Option ℕ → MemoryMutationProposal → MemoryItemPayload
  proposed next_version job_id source_thread_id source_plan_id p = record {
    id = none;
    kind = some p.kind;
    title = some (or_else p.title (77 ∷ 101 ∷ 109 ∷ 111 ∷ 114 ∷ 121 ∷ []));
    summary = some (or_else p.summary (take 240 p.content));
    content = some p.content;
    tags = some p.tags;
    source_thread_id = some source_thread_id;
    source_plan_id = some source_plan_id;
    created_at = none;
    updated_at = none;
    guard_version = some next_version;
    last_applied_job_id = some (some job_id);
  }

  -- The result `applied`.
  abbrev pub applied_as : String → ℕ → Option MemoryItemPayload → MemoryMutationResult
  applied_as memory_id version memory = record {
    status = applied;
    memory_id = some memory_id;
    version = some version;
    memory = memory;
  }

  -- A result that leaves everything as it was.
  abbrev pub unchanged : MutationStatus → Option String → Option ℕ → MemoryMutationResult
  unchanged status memory_id version = record {
    status = status;
    memory_id = memory_id;
    version = version;
    memory = none;
  }

  -- `str(duplicate.get("id") or "") or None`
  abbrev pub some_name : String → Option String
  some_name s = if str_eq s "" then none else some s

  -- `apply_automatic`, for the arguments that it is called with.
  module _ (now : ℕ) (user_id job_id : String) (p : MemoryMutationProposal)
      (source_thread_id : Option String) (source_plan_id : Option ℕ) (captured_at : ℕ) where
    -- The write at its end.
    unfoldable pub write_proposal :
        Bool
        → World R
        → World R
        → MemoryMutationGuard
        → World R × Result CommitError MemoryMutationResult
    unfolding proposed put save commit target
    write_proposal commits w w' g =
        let memory_id = target job_id p in
        let next_version = g.version + 1 in
        let (w'', result) =
          put now user_id p.kind (proposed next_version job_id source_thread_id source_plan_id p)
            memory_id w' in
        let saved =
          save user_id p.kind memory_id
            (record g {
              version = next_version;
              last_applied_job_id = some job_id;
              deleted_at = none;
            })
            w'' in
        commit commits w saved (applied_as memory_id next_version (some result))

    unfoldable pub apply_automatic :
        Bool → World R → World R × Result CommitError MemoryMutationResult
    unfolding guard_of save commit stored target duplicate_of outdated write_proposal
    apply_automatic commits w =
        if is_noop p.operation
        then (w, ok (unchanged skipped none none))
        else if str_eq (target job_id p) ""
        then (w, ok (unchanged skipped none none))
        else let memory_id = target job_id p in
          let (g, w') = guard_of user_id p.kind memory_id w in
          let existing = stored user_id p.kind memory_id w'.items in
          let version = max g.version (guard_version_of existing) in
          if is_job job_id g.last_applied_job_id
          then commit commits w w' (applied_as memory_id g.version existing)
          else if is_job job_id (last_job_of existing)
          then commit commits w
              (save user_id p.kind memory_id
                (record g {
                  version = version;
                  last_applied_job_id = some job_id;
                  deleted_at = none;
                })
                w')
              (applied_as memory_id version existing)
          else elim (duplicate_of user_id memory_id p w'.items) [
            | some duplicate ↦
                (w, ok (unchanged stale (some_name (name_or_empty duplicate.id)) none))
            | none ↦
                if outdated p captured_at g
                then (w, ok (unchanged stale (some memory_id) (some g.version)))
                else write_proposal commits w w' g
          ]
