-- ===== src/Memories/Store.antt =====
-- backend/app/core/memory.py, the functions that read and write one memory, over the store of
-- memories that langgraph provides, whose documented behaviour is stated by the laws of `BaseStore`.
-- Timestamps are numbers. A stored value is a dictionary with the keys of `MemoryItemPayload` and
-- the two that the memory service adds; a field that is `none` is a missing key.
use smart_class_agent.Common.{
  ℕ, String, ◌≡◌, Bool, true, false, ◌&&◌, Option, none, some, List, [], ◌∷◌, Text, map, str_eq,
  leb, if◌then◌else◌,
}

pub data MemoryKind : Type 0 where
  profile experience : MemoryKind

pub record MemoryItemPayload : Type 0 where
  pub id : Option String
  pub kind : Option MemoryKind
  pub title : Option Text
  pub summary : Option Text
  pub content : Option Text
  pub tags : Option (List Text)
  pub source_thread_id : Option (Option String)
  pub source_plan_id : Option (Option ℕ)
  pub created_at : Option ℕ
  pub updated_at : Option ℕ
  pub guard_version : Option ℕ
  pub last_applied_job_id : Option (Option String)

abbrev pub empty_payload : MemoryItemPayload
empty_payload = record {
  id = none;
  kind = none;
  title = none;
  summary = none;
  content = none;
  tags = none;
  source_thread_id = none;
  source_plan_id = none;
  created_at = none;
  updated_at = none;
  guard_version = none;
  last_applied_job_id = none;
}

-- `new or old`, for a key of a dictionary that is updated.
abbrev pub over {ℓ} : {A : Type ℓ} → Option A → Option A → Option A
over none old = old
over (some a) old = some a

-- `payload.update(value)`
unfoldable pub updated_with : MemoryItemPayload → MemoryItemPayload → MemoryItemPayload
updated_with old value = record {
  id = over value.id old.id;
  kind = over value.kind old.kind;
  title = over value.title old.title;
  summary = over value.summary old.summary;
  content = over value.content old.content;
  tags = over value.tags old.tags;
  source_thread_id = over value.source_thread_id old.source_thread_id;
  source_plan_id = over value.source_plan_id old.source_plan_id;
  created_at = over value.created_at old.created_at;
  updated_at = over value.updated_at old.updated_at;
  guard_version = over value.guard_version old.guard_version;
  last_applied_job_id = over value.last_applied_job_id old.last_applied_job_id;
}

abbrev pub Namespace : Type 0
Namespace = List String

pub record Item : Type 0 where
  pub key : String
  pub value : MemoryItemPayload
  pub created_at : ℕ
  pub updated_at : ℕ

-- The store: a value is read back as it was put, a deleted one is gone, and the other keys of a
-- namespace are left alone. `aput` also takes the fields to index.
pub record BaseStore : Type 1 where
  pub Items : Type 0
  pub aget : Namespace → String → Items → Option Item
  pub aput : Namespace → String → MemoryItemPayload → Option (List String) → Items → Items
  pub adelete : Namespace → String → Items → Items
  pub asearch : Namespace → ℕ → Items → List Item
  pub aget_aput :
      (ns : Namespace) (k : String) (v : MemoryItemPayload) (ix : Option (List String)) (s : Items)
      → (created : ℕ) × (updated : ℕ) × (aget ns k (aput ns k v ix s)
          ≡ some (record { key = k; value = v; created_at = created; updated_at = updated }))
  pub aget_adelete : (ns : Namespace) (k : String) (s : Items) → aget ns k (adelete ns k s) ≡ none

-- The library functions and the configuration that the code calls.
pub record Environment : Type 0 where
  pub strip : Text → Text
  pub strip_name : String → String
  pub casefold : Text → Text
  -- the first half of the hexadecimal SHA-256 of `memory-reflection:` and the job
  pub digest : String → String
  pub semantic_enabled : Bool
  pub index_fields : List String

unfoldable pub normalize_user_id : Environment → String → String
normalize_user_id E user_id =
    let normalized = E.strip_name user_id in
    if str_eq normalized "" then "default-teacher" else normalized

-- `profile_namespace` and `experience_namespace`, chosen by the kind.
unfoldable pub namespace : Environment → String → MemoryKind → Namespace
unfolding normalize_user_id
namespace E user_id profile = "users" ∷ normalize_user_id E user_id ∷ "profile" ∷ []
namespace E user_id experience = "users" ∷ normalize_user_id E user_id ∷ "experiences" ∷ []

abbrev is_experience : MemoryKind → Bool
is_experience profile = false
is_experience experience = true

-- `_item_to_memory_dict`; the score of a semantic search is left out.
unfoldable pub item_to_memory_dict : Item → MemoryItemPayload
item_to_memory_dict item = record item.value {
  id = over item.value.id (some item.key);
  created_at = over item.value.created_at (some item.created_at);
  updated_at = over item.value.updated_at (some item.updated_at);
  tags = over item.value.tags (some []);
}

module _ (R : BaseStore) where
  open R use {Items, aget, aput, adelete, asearch}

  unfoldable pub get_memory_item : Namespace → String → Items → Option MemoryItemPayload
  unfolding item_to_memory_dict
  get_memory_item ns key s = elim (aget ns key s) [
    | none ↦ none
    | some item ↦ some (item_to_memory_dict item)
  ]

  -- `existing.value` of the value to overwrite.
  abbrev value_of : Option Item → MemoryItemPayload
  value_of none = empty_payload
  value_of (some item) = item.value

  -- The payload that `put_memory_item` stores.
  unfoldable pub stamped : ℕ → MemoryItemPayload → MemoryItemPayload → MemoryItemPayload
  unfolding updated_with
  stamped now old value =
      let payload = updated_with old value in
      record payload {
        updated_at = some now;
        created_at = over payload.created_at (some now);
        tags = over payload.tags (some []);
      }

  -- The store after the call, and the payload with its key.
  unfoldable pub put_memory_item :
      Environment
      → ℕ
      → String
      → MemoryKind
      → MemoryItemPayload
      → String
      → Items
      → Items × MemoryItemPayload
  unfolding stamped namespace
  put_memory_item E now user_id kind value key s =
      let ns = namespace E user_id kind in
      let payload = stamped now (value_of (aget ns key s)) value in
      let index = if is_experience kind && E.semantic_enabled then some E.index_fields else none in
      (aput ns key payload index s, record payload { id = some key })

  -- `_memory_sort_key`
  abbrev sort_key : Item → ℕ
  sort_key item = elim item.value.updated_at [ none ↦ item.updated_at | some t ↦ t ]

  insert_newest : Item → List Item → List Item
  insert_newest x [] = x ∷ []
  insert_newest x (y ∷ ys) =
      let rest = insert_newest x ys in
      if leb (sort_key y) (sort_key x) then x ∷ y ∷ ys else y ∷ rest

  newest_first : List Item → List Item
  unfolding insert_newest
  newest_first [] = []
  newest_first (x ∷ xs) = insert_newest x (newest_first xs)

  unfoldable pub search_memory_items : Namespace → ℕ → Items → List MemoryItemPayload
  unfolding newest_first item_to_memory_dict
  search_memory_items ns limit s = map item_to_memory_dict (newest_first (asearch ns limit s))
