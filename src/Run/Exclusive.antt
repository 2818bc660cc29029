-- ===== src/Run/Exclusive.antt =====
-- A user's thread never has two active runs.
use mathlib.Core.Path.{sym, subst₂, ◌∙◌}
use smart_class_agent.Common.{
  ℕ, ◌≤◌, String, ◌≡◌, ◌⊎◌, Bool, true, Option, none, List, [], ◌∷◌, count, update, ok, arith,
  Bool-cases, inl, inr, eq_iff, refl, str_eq,
}
use smart_class_agent.Common.Rows.{count-update-le}
use smart_class_agent.Run.{
  AgentRun, Database, NewChatRun, Ending, active_in, latest, create_chat_run, mark_chat_run_running,
  finalize_chat_run, queued_row, unfinished_row, started, finished, queued, is_finished,
  get_active_chat_run, with_envelope, write_snapshot,
}
use smart_class_agent.Envelope.{RunModelEnvelope, WorkflowValues, capture_envelope}

-- At most one run of each thread and user is active.
abbrev pub IsExclusive : Database → Type 0
IsExclusive db =
    (thread_id : String) (user_id : ℕ) → count (active_in thread_id user_id) db.runs ≤ 1

latest-none : (p : AgentRun → Bool) (rs : List AgentRun) → latest p rs ≡ none → count p rs ≡ 0
unfolding latest
latest-none p [] h = refl
latest-none p (r ∷ rs) h = ground (arith, latest-none p rs)

active_in-owner :
    (t : String) (u : ℕ) (r : AgentRun)
    → active_in t u r ≡ true
    → (r.thread_id ≡ t) × (r.user_id ≡ u)
active_in-owner t u r h = ground (arith, eq_iff r.thread_id t)

-- The start of a run keeps active what was active, and activates nothing.
mark-IsExclusive :
    (db : Database) (run_id : String) (now : ℕ)
    → IsExclusive db
    → IsExclusive (mark_chat_run_running db run_id now).0
unfolding mark_chat_run_running
mark-IsExclusive db run_id now h t u =
    let fewer =
      count-update-le (active_in t u) (queued_row run_id) (started now) db.runs
        (λ r test a. ground arith) in
    omega (arith, h t u, fewer)

-- A call that ends a run leaves the rows, or writes the ending to the row that is not finished.
pub finalize_chat_run_rows :
    (db : Database) (e : Ending) (db' : Database) (run : Option AgentRun)
    → finalize_chat_run db e ≡ ok (db', run)
    → (is_finished e.status ≡ true)
      × ((db'.runs ≡ db.runs) ⊎ (db'.runs ≡ update (unfinished_row e.run_id) (finished e) db.runs))
unfolding finalize_chat_run
finalize_chat_run_rows db e db' run h = ground arith

finalize-IsExclusive :
    (db : Database) (e : Ending) (db' : Database) (run : Option AgentRun)
    → finalize_chat_run db e ≡ ok (db', run)
    → IsExclusive db
    → IsExclusive db'
unfolding finished
finalize-IsExclusive db e db' run done h t u =
    let (valid, rows) = finalize_chat_run_rows db e db' run done in
    let fewer =
      count-update-le (active_in t u) (unfinished_row e.run_id) (finished e) db.runs
        (λ r test a. ground arith) in
    elim rows [ inl same ↦ rw same (h t u) | inr new ↦ rw new (omega (arith, h t u, fewer)) ]

-- What the success of a creation says: there was no active run, and the new one, which has not
-- started, is the only change of the runs.
module _ (restorable : String → Bool) (db : Database) (new : NewChatRun) (db' : Database)
    (run : AgentRun) (made : create_chat_run restorable db new ≡ ok (db', run)) where
  pub create_chat_run_rows :
      (get_active_chat_run db new.thread_id new.user_id ≡ none)
      × (db'.runs ≡ run ∷ db.runs)
      × (run.thread_id ≡ new.thread_id)
      × (run.user_id ≡ new.user_id)
      × (run.status ≡ queued)
      × (run.completed_at ≡ none)
      × (run.started_at ≡ none)
  unfolding create_chat_run
  create_chat_run_rows = ground arith

  create-IsExclusive : IsExclusive db → IsExclusive db'
  unfolding get_active_chat_run
  create-IsExclusive h t u =
      let (idle, rows, thread, user, status, _, _) = create_chat_run_rows in
      let zero_active = latest-none _ db.runs idle in
      elim (Bool-cases (active_in t u run)) [
        | inr other ↦ rw (rows, other) (h t u)
        | inl mine ↦
            let (same_thread, same_user) = active_in-owner t u run mine in
            let none_active : count (active_in t u) db.runs ≡ 0 =
              subst₂ (λ x y. count (active_in x y) db.runs ≡ 0) (sym thread ∙ same_thread)
                (sym user ∙ same_user) zero_active in
            rw (rows, mine, none_active) (omega arith)
      ]

-- One committed call of the service on the database.
pub data Step (db : Database) (db' : Database) : Type 0 where
  created :
      (restorable : String → Bool) (new : NewChatRun) (run : AgentRun)
      → create_chat_run restorable db new ≡ ok (db', run)
      → Step db db'
  marked : (run_id : String) (now : ℕ) → db' ≡ (mark_chat_run_running db run_id now).0 → Step db db'
  finalized :
      (e : Ending) (run : Option AgentRun) → finalize_chat_run db e ≡ ok (db', run) → Step db db'
  -- `adopt_model_snapshot` for a run that has none: what it captures is written, also where the
  -- restore after the commit fails
  adopted :
      (restorable : String → Bool) (run_id current workflow_id : String) (values : WorkflowValues)
      (envelope : RunModelEnvelope)
      → capture_envelope restorable current workflow_id values true ≡ ok envelope
      → db' ≡ write_snapshot run_id envelope db
      → Step db db'
  -- the other tables are written by other services too
  elsewhere : db'.runs ≡ db.runs → Step db db'

pub data Reach (db : Database) : Database → Type 0 where
  here : Reach db db
  next : {db₁ db₂ : Database} → Reach db db₁ → Step db₁ db₂ → Reach db db₂

Step-IsExclusive : (db db' : Database) → Step db db' → IsExclusive db → IsExclusive db'
Step-IsExclusive db db' (created rs new run made) h = create-IsExclusive rs db new db' run made h
Step-IsExclusive db db' (marked r now e) h = rw e (mark-IsExclusive db r now h)
Step-IsExclusive db db' (finalized e run done) h = finalize-IsExclusive db e db' run done h
Step-IsExclusive db db' (adopted rs id current wid values envelope captured e) h = λ t u.
    let fewer =
      count-update-le (active_in t u) (λ r. str_eq r.run_id id) (with_envelope envelope) db.runs
        (λ r test a. a) in
    rw e (omega (arith, h t u, fewer))
Step-IsExclusive db db' (elsewhere e) h = λ t u. rw e (h t u)

-- Whatever calls of the service are made, in any order, no thread of a user ever has two active
-- runs, if no thread has at the start.
pub Reach-IsExclusive : {db db' : Database} → Reach db db' → IsExclusive db → IsExclusive db'
Reach-IsExclusive here h = h
Reach-IsExclusive (next {db₁ = db₁} {db₂ = db₂} r s) h =
    Step-IsExclusive db₁ db₂ s (Reach-IsExclusive r h)
