-- ===== src/Run/Rows.antt =====
-- What every committed call keeps of the rows: of a finished run, and of the agreement of each row
-- with its status.
use mathlib.Core.List.{Memᴰ}
use smart_class_agent.Common.{
  ◌≤◌, ◌≡◌, ◌∙◌, refl, sym, ap, str_eq, Bool-cases, true, none, some, String, is_some, All, arith,
  inl, inr,
}
use smart_class_agent.Common.Rows.{mem-update, mem-update_chosen, All-update, All-first}
use smart_class_agent.Run.{
  AgentRun, Database, queued_row, unfinished_row, queued, running, is_finished, started, finished,
  mark_chat_run_running, get_chat_run, with_envelope,
}
use smart_class_agent.Run.Exclusive.{
  Step, Reach, created, adopted, marked, finalized, elsewhere, here, next, create_chat_run_rows,
  finalize_chat_run_rows,
}

-- A row agrees with its status: it is complete exactly when it is finished, a queued run has not
-- started, a running one has, and the sequence number of a finished run is at least 1.
pub record RowIsValid (r : AgentRun) : Type 0 where
  pub completed : is_some r.completed_at ≡ is_finished r.status
  pub waits : r.status ≡ queued → r.started_at ≡ none
  pub runs : r.status ≡ running → is_some r.started_at ≡ true
  pub numbered : is_finished r.status ≡ true → 1 ≤ r.last_event_sequence

abbrev pub RowsAreValid : Database → Type 0
RowsAreValid db = All RowIsValid db.runs

pub Step-RowsAreValid : (db db' : Database) → Step db db' → RowsAreValid db → RowsAreValid db'
unfolding mark_chat_run_running finished
Step-RowsAreValid db db' (created rs new run made) h =
    let (idle, rows, thread, user, status, open', unstarted) =
      create_chat_run_rows rs db new db' run made in
    rw rows (ground arith, h)
Step-RowsAreValid db db' (marked id now e) h =
    rw e (All-update RowIsValid (queued_row id) (started now) db.runs (λ r t v. ground arith) h)
Step-RowsAreValid db db' (finalized e run done) h =
    let (valid, rows) = finalize_chat_run_rows db e db' run done in
    elim rows [
      | inl same ↦ rw same h
      | inr new ↦ rw new (
          All-update RowIsValid (unfinished_row e.run_id) (finished e) db.runs
            (λ r t v. ground arith) h)
    ]
Step-RowsAreValid db db' (adopted rs id current wid values envelope captured e) h = rw e (
    All-update RowIsValid (λ r. str_eq r.run_id id) (with_envelope envelope) db.runs
      (λ r t v. record {
        completed = v.completed;
        waits = v.waits;
        runs = v.runs;
        numbered = v.numbered;
      })
      h)
Step-RowsAreValid db db' (elsewhere e) h = rw e h

-- After any calls of the service the rows agree with their statuses, if they did at the start: a
-- run has a completion time exactly when it is finished, and then a sequence number from 1; a
-- queued one has not started and a running one has.
pub Reach-RowsAreValid : {db db' : Database} → Reach db db' → RowsAreValid db → RowsAreValid db'
Reach-RowsAreValid here h = h
Reach-RowsAreValid (next {db₁ = db₁} {db₂ = db₂} r s) h =
    Step-RowsAreValid db₁ db₂ s (Reach-RowsAreValid r h)

pub found-RowIsValid :
    (db : Database) (run_id : String) (run : AgentRun)
    → RowsAreValid db
    → get_chat_run db run_id ≡ some run
    → RowIsValid run
unfolding get_chat_run
found-RowIsValid db run_id run h found = All-first RowIsValid _ db.runs run found h

-- The row with another model configuration, if with any.
abbrev pub IsSameBut : AgentRun → AgentRun → Type 0
IsSameBut r r' = record r { model_config_snapshot = r'.model_config_snapshot } ≡ r'

IsSameBut-trans : (a b c : AgentRun) → IsSameBut a b → IsSameBut b c → IsSameBut a c
IsSameBut-trans a b c h k =
    ap (λ (x : AgentRun). record x { model_config_snapshot = c.model_config_snapshot }) h ∙ k

-- The row is in the table, with another configuration at most.
abbrev pub HasRow : AgentRun → Database → Type 0
HasRow r db = (r' : AgentRun) × Memᴰ r' db.runs × IsSameBut r r'

Step-finished_kept :
    (db db' : Database) (r : AgentRun)
    → Step db db'
    → Memᴰ r db.runs
    → is_finished r.status ≡ true
    → HasRow r db'
unfolding mark_chat_run_running
Step-finished_kept db db' r (created rs new run made) m over =
    let (idle, rows, thread, user, status, open', unstarted) =
      create_chat_run_rows rs db new db' run made in
    (r, rw rows (Memᴰ.tail m), refl)
Step-finished_kept db db' r (marked id now e) m over =
    (r, rw e (mem-update (queued_row id) (started now) (ground arith) m), refl)
Step-finished_kept db db' r (finalized e run done) m over =
    let (valid, rows) = finalize_chat_run_rows db e db' run done in
    elim rows [
      | inl same ↦ (r, rw same m, refl)
      | inr new ↦
          (r, rw new (mem-update (unfinished_row e.run_id) (finished e) (ground arith) m), refl)
    ]
Step-finished_kept db db' r (adopted rs id current wid values envelope captured e) m over =
    elim (Bool-cases (str_eq r.run_id id)) [
      | inl own ↦ (
        with_envelope envelope r,
        rw e (
            mem-update_chosen (λ (x : AgentRun). str_eq x.run_id id) (with_envelope envelope) own
              m),
        refl,
      )
      | inr other ↦ (
        r,
        rw e (mem-update (λ (x : AgentRun). str_eq x.run_id id) (with_envelope envelope) other m),
        refl,
      )
    ]
Step-finished_kept db db' r (elsewhere e) m over = (r, rw e m, refl)

-- After any later calls of the service, the row of a finished run is in the table with each column
-- as it was, but for the model configuration, which an adoption may still write: the status, the
-- output, the error, the sequence number and the times are final.
pub finished_run_kept :
    (r : AgentRun) {db db' : Database}
    → Reach db db'
    → Memᴰ r db.runs
    → is_finished r.status ≡ true
    → HasRow r db'
finished_run_kept r here m over = (r, m, refl)
finished_run_kept r (next {db₁ = db₁} {db₂ = db₂} way s) m over =
    let (r₁, m₁, same₁) = finished_run_kept r way m over in
    let over₁ : is_finished r₁.status ≡ true =
      ap (λ (x : AgentRun). is_finished x.status) (sym same₁) ∙ over in
    let (r₂, m₂, same₂) = Step-finished_kept db₁ db₂ r₁ s m₁ over₁ in
    (r₂, m₂, IsSameBut-trans r r₁ r₂ same₁ same₂)
