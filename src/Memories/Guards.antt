-- ===== src/Memories/Guards.antt =====
-- What a look-up of a guard answers, and how a saved guard is found again.
use smart_class_agent.Common.{
  String, ◌≡◌, refl, Bool, true, Option, none, some, List, [], ◌∷◌, first, update as update_rows,
  Option-cases, inl, inr, arith, eq_iff,
}
use smart_class_agent.Common.Rows.{first-some}
use smart_class_agent.Memories.Store.{
  MemoryKind, profile, experience, BaseStore, Environment, MemoryItemPayload, namespace,
  get_memory_item, item_to_memory_dict,
}
use smart_class_agent.Memories.{
  MemoryMutationGuard, World, guards_memory, same_kind, last_job_of, guard_version_of, new_guard,
  stored, guard_of, save,
}

same_kind_refl : (k : MemoryKind) → same_kind k k ≡ true
same_kind_refl profile = refl
same_kind_refl experience = refl

-- A row that is replaced is found as it was replaced.
first-replaced {ℓ} :
    {A : Type ℓ} (q : A → Bool) (a b : A) (xs : List A)
    → first q xs ≡ some a
    → q b ≡ true
    → first q (update_rows q (λ _. b) xs) ≡ some b
first-replaced q a b [] h hb = absurd (cc)
first-replaced q a b (x ∷ xs) h hb = ground (arith, first-replaced q a b xs)

module _ (R : BaseStore) (E : Environment) (user_id : String) (kind : MemoryKind)
    (memory_id : String) where
  abbrev mine : MemoryMutationGuard → Bool
  mine = guards_memory user_id kind memory_id

  abbrev fresh : World R → MemoryMutationGuard
  fresh w = new_guard R E user_id kind memory_id (stored R E user_id kind memory_id w.items)

  pub guard_of-known :
      (w : World R) (g : MemoryMutationGuard)
      → first mine w.guards ≡ some g
      → guard_of R E user_id kind memory_id w ≡ (g, w)
  unfolding guard_of
  guard_of-known w g e = rw (guard_of, e) refl

  pub guard_of-missing :
      (w : World R)
      → first mine w.guards ≡ none
      → guard_of R E user_id kind memory_id w ≡ (fresh w, record w { guards = fresh w ∷ w.guards })
  unfolding guard_of
  guard_of-missing w e = rw (guard_of, e) refl

  mine-fresh : (w : World R) → mine (fresh w) ≡ true
  unfolding guards_memory new_guard
  mine-fresh w =
      ground (arith, eq_iff user_id user_id, eq_iff memory_id memory_id, same_kind_refl kind)

  -- The guard is in the table, and the store is not touched.
  pub guard_of-row :
      (w : World R)
      → (first mine (guard_of R E user_id kind memory_id w).1.guards
          ≡ some (guard_of R E user_id kind memory_id w).0)
        × (mine (guard_of R E user_id kind memory_id w).0 ≡ true)
        × ((guard_of R E user_id kind memory_id w).1.items ≡ w.items)
  guard_of-row w = elim (Option-cases (first mine w.guards)) [
    | inl e ↦ rw (guard_of-missing w e) (rw (mine-fresh w) refl, mine-fresh w, refl)
    | inr (g, e) ↦ rw (guard_of-known w g e) (e, (first-some mine w.guards g e).1, refl)
  ]

  -- A guard that is saved is the one that is found.
  pub save-row :
      (w : World R) (g h : MemoryMutationGuard)
      → first mine w.guards ≡ some g
      → mine h ≡ true
      → first mine (save R E user_id kind memory_id h w).guards ≡ some h
  unfolding save
  save-row w g h found own = first-replaced mine g h w.guards found own

  -- What is put at a key is what is read there.
  pub aput-stored :
      (v : MemoryItemPayload) (index : Option (List String)) (items : R.Items)
      → (last_job_of (
            stored R E user_id kind memory_id
              (R.aput (namespace E user_id kind) memory_id v index items))
          ≡ last_job_of (some v))
        × (guard_version_of (
              stored R E user_id kind memory_id
                (R.aput (namespace E user_id kind) memory_id v index items))
            ≡ guard_version_of (some v))
  unfolding stored get_memory_item item_to_memory_dict
  aput-stored v index items =
      let (c, u, e) = R.aget_aput (namespace E user_id kind) memory_id v index items in
      (rw (stored, get_memory_item, e) refl, rw (stored, get_memory_item, e) refl)

  -- What is deleted is not read.
  pub adelete-stored :
      (items : R.Items)
      → stored R E user_id kind memory_id (R.adelete (namespace E user_id kind) memory_id items)
        ≡ none
  unfolding stored get_memory_item
  adelete-stored items =
      rw (stored, get_memory_item, R.aget_adelete (namespace E user_id kind) memory_id items) refl
