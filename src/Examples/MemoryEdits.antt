-- ===== src/Examples/MemoryEdits.antt =====
-- A memory that a job proposes, over a store held in memory.
use text.Mathlib.TextPositions.{eq_refl}
use smart_class_agent.Common.{
  String, ◌≡◌, refl, Bool, true, false, ◌&&◌, not, Option, none, some, List, [], ◌∷◌, keep, map,
  take, str_eq, if◌then◌else◌, Result, ok, arith,
}
use smart_class_agent.Memories.Store.{
  profile, MemoryItemPayload, empty_payload, Namespace, Item, BaseStore, Environment,
  put_memory_item, namespace, normalize_user_id, get_memory_item, item_to_memory_dict, stamped,
  updated_with, search_memory_items,
}
use smart_class_agent.Memories.{
  MemoryMutationGuard, applied_as, MemoryMutationProposal, MemoryMutationResult, create, World,
  stored, CommitError, guard_of, new_guard, guards_memory, save, commit, put, target, proposed,
  duplicate_of, outdated, write_proposal, apply_automatic, update_manual, delete_manual,
}
use smart_class_agent.Memories.Applying.{is_applied, apply_automatic_once, IsRecorded}
use smart_class_agent.Memories.Recovery.{apply_automatic_recovers}
use smart_class_agent.Memories.Editing.{Refused, update_manual_wins, delete_manual_lasts}

abbrev pub Cells : Type 0
Cells = List (Namespace × Item)

abbrev same_namespace : Namespace → Namespace → Bool
same_namespace [] [] = true
same_namespace (a ∷ s) (b ∷ t) = str_eq a b && same_namespace s t
same_namespace _ _ = false

same_namespace_refl : (ns : Namespace) → same_namespace ns ns ≡ true
same_namespace_refl [] = refl
same_namespace_refl (a ∷ s) = rw (eq_refl a) (same_namespace_refl s)

abbrev at : Namespace → String → Namespace × Item → Bool
at ns k cell = same_namespace cell.0 ns && str_eq cell.1.key k

abbrev read : Namespace → String → Cells → Option Item
read ns k [] = none
read ns k (cell ∷ cells) = let rest = read ns k cells in if at ns k cell then some cell.1 else rest

abbrev without : Namespace → String → Cells → Cells
without ns k cells = keep (λ cell. not (at ns k cell)) cells

pub read-without :
    (ns : Namespace) (k : String) (cells : Cells) → read ns k (without ns k cells) ≡ none
read-without ns k [] = refl
read-without ns k (cell ∷ cells) = ground (arith, read-without ns k cells)

abbrev write : Namespace → String → MemoryItemPayload → Option (List String) → Cells → Cells
write ns k v index cells =
    (ns, record { key = k; value = v; created_at = 0; updated_at = 0 }) ∷ without ns k cells

at_itself : (ns : Namespace) (k : String) (item : Item) → item.key ≡ k → at ns k (ns, item) ≡ true
at_itself ns k item e = rw (same_namespace_refl ns, e) (eq_refl k)

pub read-write :
    (ns : Namespace) (k : String) (v : MemoryItemPayload) (index : Option (List String))
    (cells : Cells)
    → read ns k (write ns k v index cells)
      ≡ some (record { key = k; value = v; created_at = 0; updated_at = 0 })
read-write ns k v index cells =
    ground
      (arith, at_itself ns k (record { key = k; value = v; created_at = 0; updated_at = 0 }) refl)

abbrev pub memory_store : BaseStore
memory_store = record {
  Items = Cells;
  aget = read;
  aput = write;
  adelete = without;
  asearch = λ ns limit cells.
      take limit
        (map (λ (cell : Namespace × Item). cell.1) (keep (λ cell. same_namespace cell.0 ns) cells));
  aget_aput = λ ns k v index cells. (0, 0, read-write ns k v index cells);
  aget_adelete = read-without;
}

abbrev pub environment : Environment
environment = record {
  strip = λ t. t;
  strip_name = λ s. s;
  casefold = λ t. t;
  digest = λ job_id. job_id;
  semantic_enabled = false;
  index_fields = [];
}

abbrev pub proposal : MemoryMutationProposal
proposal = record {
  operation = create;
  kind = profile;
  target_memory_id = none;
  base_version = none;
  title = 116 ∷ [];
  summary = [];
  content = 99 ∷ [];
  tags = [];
}

abbrev pub nothing : World memory_store
nothing = record { guards = []; items = [] }

abbrev outcome :
    Bool → World memory_store → World memory_store × Result CommitError MemoryMutationResult
outcome = apply_automatic memory_store environment 50 "7" "job" proposal none none 40

abbrev value : MemoryItemPayload
value = record empty_payload { title = some (116 ∷ []); content = some (100 ∷ []) }

-- The memory as the job writes it.
abbrev written : MemoryItemPayload
written = record {
  id = none;
  kind = some profile;
  title = some (116 ∷ []);
  summary = some (99 ∷ []);
  content = some (99 ∷ []);
  tags = some [];
  source_thread_id = some none;
  source_plan_id = some none;
  created_at = some 50;
  updated_at = some 50;
  guard_version = some 1;
  last_applied_job_id = some (some "job");
}

abbrev guard_row : MemoryMutationGuard
guard_row = record {
  user_id = "7";
  kind = profile;
  memory_id = "job";
  version = 1;
  deletion_generation = 0;
  deleted_at = none;
  last_manual_mutation_at = none;
  last_applied_job_id = some "job";
}

abbrev filled : World memory_store
filled = record {
  guards = guard_row ∷ [];
  items =
      (
        "users" ∷ "7" ∷ "profile" ∷ [],
        record { key = "job"; value = written; created_at = 0; updated_at = 0 },
      )
      ∷ [];
}

abbrev answer : MemoryMutationResult
answer = applied_as memory_store environment "job" 1 (some (record written { id = some "job" }))

applied_first : outcome true nothing ≡ (filled, ok answer)
unfolding apply_automatic guard_of new_guard guards_memory save commit put target proposed
    duplicate_of outdated write_proposal stored namespace normalize_user_id get_memory_item
    item_to_memory_dict put_memory_item stamped updated_with search_memory_items
applied_first = refl

-- The world after its store was emptied, with the guards as they were.
abbrev elsewhere_changed : World memory_store
elsewhere_changed = record filled { items = [] }

apply_automatic_once_example :
    (r' : MemoryMutationResult) × (apply_automatic memory_store environment 90 "7" "job" proposal
        none none 60 true elsewhere_changed
      ≡ (elsewhere_changed, ok r'))
    × (is_applied r'.status ≡ true)
    × (r'.version ≡ some 1)
    × (r'.memory_id ≡ some "job")
apply_automatic_once_example =
    apply_automatic_once memory_store environment 50 90 "7" "job" proposal none none 40 60 nothing
      filled elsewhere_changed answer applied_first refl refl

apply_automatic_recovers_example :
    (w₃ : World memory_store) × (r' : MemoryMutationResult) × (outcome true
        (outcome false nothing).0
      ≡ (w₃, ok r'))
    × (is_applied r'.status ≡ true)
    × (r'.version ≡ some 1)
    × (r'.memory_id ≡ some (target memory_store environment "job" proposal))
    × (w₃.items ≡ filled.items)
    × IsRecorded memory_store environment 50 "7" "job" proposal none none w₃ r'
apply_automatic_recovers_example =
    apply_automatic_recovers memory_store environment 50 "7" "job" proposal none none 40 nothing
      filled answer applied_first refl

abbrev edited : World memory_store
edited =
    (update_manual memory_store environment true 80 "7" profile
      (target memory_store environment "job" proposal) value filled).0

update_manual_wins_example :
    Refused memory_store environment "7" "job" proposal 90 none none 40 true edited
      (apply_automatic memory_store environment 90 "7" "job" proposal none none 40 true edited)
update_manual_wins_example =
    update_manual_wins memory_store environment "7" "job" proposal 90 80 40 none none true filled
      value (omega arith)

abbrev emptied : World memory_store
emptied =
    (delete_manual memory_store environment true 80 "7" profile
      (target memory_store environment "job" proposal) filled).0

delete_manual_lasts_example :
    Refused memory_store environment "7" "job" proposal 90 none none 40 true emptied
      (apply_automatic memory_store environment 90 "7" "job" proposal none none 40 true emptied)
    × (stored memory_store environment "7" profile
          (target memory_store environment "job" proposal)
          emptied.items
        ≡ none)
delete_manual_lasts_example =
    delete_manual_lasts memory_store environment "7" "job" proposal 90 80 40 none none true filled
