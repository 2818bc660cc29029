-- ===== src/Run/Lifecycle.antt =====
-- The life of one run: it is finished once, by the first call, and stays as that call left it.
use mathlib.Core.Path.{◌∙◌, ap}
use smart_class_agent.Common.{
  ◌+◌, String, ◌≡◌, ◌≢◌, refl, true, false, some, update, ok, arith, eq_iff, str_eq, suc, max,
}
use smart_class_agent.Common.Rows.{first-update_self, first-update_other, first-some}
use smart_class_agent.Reflection.{register_reflection_candidates}
use smart_class_agent.Run.{
  AgentRun, Database, Ending, unfinished_row, is_finished, finished, finalize_chat_run,
  get_chat_run,
}

-- The values that a call of `finalize_chat_run` takes for a run.
module _ (db : Database) (e : Ending) (valid : is_finished e.status ≡ true) where
  -- The row as the call leaves it.
  abbrev pub ended : AgentRun → AgentRun
  ended run = record run {
    status = e.status;
    output_text = e.output_text;
    last_event_sequence = suc e.last_sequence;
    error_message = e.error_message;
    completed_at = some e.now;
  }

  -- A call with a status that ends a run, for a run that is not finished, succeeds and stores the
  -- status, the output, the error, the time and the sequence number after the last one; it
  -- registers the reflection candidates and touches neither another run nor a session.
  pub finalize_chat_run_effect :
      (run : AgentRun)
      → get_chat_run db e.run_id ≡ some run
      → is_finished run.status ≡ false
      → (db' : Database) × (finalize_chat_run db e ≡ ok (db', some (ended run)))
        × (get_chat_run db' e.run_id ≡ some (ended run))
        × ((other : String) → other ≢ e.run_id → get_chat_run db' other ≡ get_chat_run db other)
        × (db'.sessions ≡ db.sessions)
        × (db'.jobs ≡ register_reflection_candidates e.now e.reflection_candidates db.jobs)
  unfolding finalize_chat_run get_chat_run
  finalize_chat_run_effect run found open' =
      let touch = unfinished_row e.run_id in
      let write = finished e in
      let next_sequence : max e.last_sequence 0 + 1 ≡ suc e.last_sequence = omega arith in
      let same_row : write run ≡ ended run = rw next_sequence in
      let own : str_eq run.run_id e.run_id ≡ true = (first-some _ db.runs run found).1 in
      (
        record db {
          runs = update touch write db.runs;
          jobs = register_reflection_candidates e.now e.reflection_candidates db.jobs;
        },
        ground arith,
        first-update_self _ touch write db.runs (λ r. refl) run found (ground arith)
            ∙ ap some same_row,
        λ other ne.
            first-update_other _ touch write db.runs (λ r. refl)
              (λ r q. ground (arith, eq_iff r.run_id other, eq_iff r.run_id e.run_id)),
        refl,
        refl,
      )

  -- A call with a status that ends a run, for a run that is finished, answers its row and changes
  -- nothing.
  pub finalize_chat_run_again :
      (run : AgentRun)
      → get_chat_run db e.run_id ≡ some run
      → is_finished run.status ≡ true
      → finalize_chat_run db e ≡ ok (db, some run)
  unfolding finalize_chat_run
  finalize_chat_run_again run found over = rw (valid, found, over)
