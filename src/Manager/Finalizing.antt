-- ===== src/Manager/Finalizing.antt =====
-- How a run is ended: the row, the live events and the announcement of the end agree, and the end
-- happens once.
use smart_class_agent.Common.{
  suc, ◌≤◌, ◌<◌, max, String, ◌≡◌, ◌≢◌, refl, true, false, some, [], ◌∷◌, ◌++◌, length, arith,
  str_eq, eq_iff, ok, if◌then◌else◌,
}
use smart_class_agent.Run.{AgentRun, RunStatus, Ending, is_finished, get_chat_run}
use smart_class_agent.Run.Lifecycle.{ended, finalize_chat_run_effect, finalize_chat_run_again}
use smart_class_agent.Events.Store.{Redis, Payload}
use smart_class_agent.Events.Scripts.{done_entry}
use smart_class_agent.Events.Transport.{delivered, Options, append_done}
use smart_class_agent.Events.Consistency.{IsConsistent, output_of}
use smart_class_agent.Events.Ending.{append_done_next, append_done_again}
use smart_class_agent.Events.Snapshots.{get_snapshot-live}
use smart_class_agent.Manager.{
  Circumstances, Finalization, World, put_keys, candidates_of, final_output, announce,
  commit_ending, finalize_run,
}

module _ (R : Redis) (options : Options) (done_payload : String → RunStatus → Payload) where
  open R use {Keys, stream}

  -- The ending that `_finalize_run` commits for a run with a live stream.
  abbrev pub ending_of : Circumstances → Finalization → World R → Ending
  ending_of c f w = record {
    run_id = f.run_id;
    status = f.status;
    output_text =
        if f.prefer_fallback_output
        then f.fallback_output
        else output_of (stream (w.keys f.run_id));
    last_sequence = max f.fallback_sequence (length (stream (w.keys f.run_id)));
    error_message = f.error_message;
    reflection_candidates = candidates_of c f.status (get_chat_run w.db f.run_id);
    now = c.now;
  }

  module _ (c : Circumstances) (f : Finalization) (w : World R)
      (h : IsConsistent R (w.keys f.run_id)) (alive : 0 < length (stream (w.keys f.run_id)))
      (read : c.snapshot_network 0 ≡ delivered) where
    finalize_run-commit :
        finalize_run R options done_payload c f w
        ≡ commit_ending R options done_payload c (ending_of c f w) w
    unfolding finalize_run final_output
    finalize_run-commit =
        rw (get_snapshot-live R options c.snapshot_network (w.keys f.run_id) h read alive) refl

    -- A call that finds an unfinished run, with a status that ends runs, over the consistent and
    -- not empty stream of the run, whose first reading of the snapshot and whose announcement reach
    -- the store, with a fallback number that is not above the stream's length: it answers the run
    -- as it ended, with the output of the stream (or the fallback, where that is preferred) and the
    -- number after the last event; that row is stored; the terminal event with the run's status
    -- is added to the stream with that number and the keys stay consistent; the other runs' rows
    -- and keys stay as they were.
    pub finalize_run_announces :
        (run : AgentRun)
        → get_chat_run w.db f.run_id ≡ some run
        → is_finished run.status ≡ false
        → (valid : is_finished f.status ≡ true)
        → f.fallback_sequence ≤ length (stream (w.keys f.run_id))
        → c.done_network 0 ≡ delivered
        → let r = finalize_run R options done_payload c f w in
          let row = ended w.db (ending_of c f w) valid run in
          (r.1 ≡ ok (some row))
          × (get_chat_run r.0.db f.run_id ≡ some row)
          × (row.last_event_sequence ≡ suc (length (stream (w.keys f.run_id))))
          × (stream (r.0.keys f.run_id)
              ≡ stream (w.keys f.run_id)
                ++ (done_entry R row.last_event_sequence
                      (done_payload f.run_id f.status)
                      (c.done_clock 0)
                    ∷ []))
          × IsConsistent R (r.0.keys f.run_id)
          × ((other : String)
              → other ≢ f.run_id
              → (get_chat_run r.0.db other ≡ get_chat_run w.db other)
                × (r.0.keys other ≡ w.keys other))
    unfolding commit_ending announce
    finalize_run_announces run found open' valid le up =
        let e = ending_of c f w in
        let row = ended w.db e valid run in
        let k = w.keys f.run_id in
        let (db', made, stored, others, _, _) =
          finalize_chat_run_effect w.db e valid run found open' in
        let next_number : row.last_event_sequence ≡ suc (length (stream k)) = omega (arith, le) in
        let (reply, rows, next) =
          append_done_next R options c.done_network c.done_clock (done_payload f.run_id f.status)
            row.last_event_sequence k h up (omega arith) next_number in
        let k' =
          (append_done R options c.done_network c.done_clock row.last_event_sequence
            (done_payload f.run_id f.status) k).0 in
        let ran : commit_ending R options done_payload c e w
            ≡ (put_keys R f.run_id k' (record w { db = db' }), ok (some row)) =
          rw (commit_ending, made, announce, reply) refl in
        let own : str_eq f.run_id f.run_id ≡ true = ground (arith, eq_iff f.run_id f.run_id) in
        rw (finalize_run-commit, ran)
          (
            refl,
            stored,
            next_number,
            rw own rows,
            rw own next,
            λ other ne. (
              others other ne,
              (let apart : str_eq other f.run_id ≡ false =
                    ground (arith, ne, eq_iff other f.run_id) in
                  rw apart refl),
            ),
          )

  module _ (c : Circumstances) (w : World R) (run : AgentRun)
      (over : is_finished run.status ≡ true) where
    -- The announcement of a finished run whose terminal event is there changes nothing.
    commit_ending-again :
        (e : Ending)
        → get_chat_run w.db e.run_id ≡ some run
        → is_finished e.status ≡ true
        → IsConsistent R (w.keys e.run_id)
        → 0 < length (stream (w.keys e.run_id))
        → run.last_event_sequence ≡ length (stream (w.keys e.run_id))
        → c.done_network 0 ≡ delivered
        → let r = commit_ending R options done_payload c e w in
          (r.1 ≡ ok (some run))
          × (r.0.db ≡ w.db)
          × ((other : String) → r.0.keys other ≡ w.keys other)
    unfolding commit_ending announce
    commit_ending-again e found valid h alive last up =
        let answer =
          append_done_again R options c.done_network c.done_clock (done_payload e.run_id run.status)
            run.last_event_sequence (w.keys e.run_id) h up (omega arith) last in
        let same = finalize_chat_run_again w.db e valid run found over in
        let ran : commit_ending R options done_payload c e w
            ≡ (put_keys R e.run_id (w.keys e.run_id) w, ok (some run)) =
          rw (commit_ending, same, announce, answer) refl in
        rw ran (refl, refl, λ other. ground (arith, eq_iff other e.run_id))

    -- A call for a run that is finished and whose terminal event is the last of its consistent
    -- stream, with a status that ends runs and an announcement that reaches the store, answers the
    -- row as it stands and changes neither the database nor the keys of any run, whatever its
    -- status, output and circumstances are.
    pub finalize_run_again :
        (f : Finalization)
        → get_chat_run w.db f.run_id ≡ some run
        → is_finished f.status ≡ true
        → IsConsistent R (w.keys f.run_id)
        → 0 < length (stream (w.keys f.run_id))
        → run.last_event_sequence ≡ length (stream (w.keys f.run_id))
        → c.done_network 0 ≡ delivered
        → let r = finalize_run R options done_payload c f w in
          (r.1 ≡ ok (some run))
          × (r.0.db ≡ w.db)
          × ((other : String) → r.0.keys other ≡ w.keys other)
    unfolding finalize_run
    finalize_run_again f = commit_ending-again _
