-- ===== src/Run/Stale.antt =====
-- The runs that a start of the process finds.
use mathlib.Core.List.{Memᴰ}
use mathlib.Core.List.Memᴰ.{not-nil, cases_cons}
use smart_class_agent.Common.{◌≡◌, ◌⊎◌, true, List, [], ◌∷◌, leb, if_cases, inl, inr}
use smart_class_agent.Common.Rows.{mem-keep}
use smart_class_agent.Run.{
  AgentRun, Database, is_active, insert_by_age, sort_by_age, list_stale_chat_runs,
}

Memᴰ-insert_by_age :
    (a r : AgentRun) (rs : List AgentRun) → (a ≡ r) ⊎ Memᴰ a rs → Memᴰ a (insert_by_age r rs)
unfolding insert_by_age
Memᴰ-insert_by_age a r [] (inl e) = Memᴰ.head e
Memᴰ-insert_by_age a r [] (inr m) = Memᴰ.tail m
Memᴰ-insert_by_age a r (s ∷ ss) o =
    if_cases (Memᴰ a) (leb r.created_at s.created_at) _ _
      (λ e. elim o [ inl same ↦ Memᴰ.head same | inr m ↦ Memᴰ.tail m ])
      (λ e. elim o [
        | inl same ↦ Memᴰ.tail (Memᴰ-insert_by_age a r ss (inl same))
        | inr m ↦ elim (cases_cons m) [
          | inl here ↦ Memᴰ.head here
          | inr there ↦ Memᴰ.tail (Memᴰ-insert_by_age a r ss (inr there))
        ]
      ])

Memᴰ-sort_by_age : (a : AgentRun) (rs : List AgentRun) → Memᴰ a rs → Memᴰ a (sort_by_age rs)
unfolding sort_by_age
Memᴰ-sort_by_age a (r ∷ rs) m = elim (cases_cons m) [
  | inl here ↦ Memᴰ-insert_by_age a r (sort_by_age rs) (inl here)
  | inr there ↦ Memᴰ-insert_by_age a r (sort_by_age rs) (inr (Memᴰ-sort_by_age a rs there))
]
Memᴰ-sort_by_age a [] m = absurd (not-nil m)

-- Every active row is in the list.
pub active_run-stale :
    (db : Database) (run : AgentRun)
    → is_active run.status ≡ true
    → Memᴰ run db.runs
    → Memᴰ run (list_stale_chat_runs db)
unfolding list_stale_chat_runs
active_run-stale db run live m = Memᴰ-sort_by_age run _ (mem-keep (λ r. is_active r.status) live m)
