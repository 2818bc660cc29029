-- ===== src/Manager.antt =====
-- `ChatRunManager` of backend/app/core/chat_runs.py: the composition of the runs in the database,
-- their live events and the task that executes them.
-- A run is executed by one task, so between the steps of one call nothing else writes the run's
-- row or its keys. Logging and metrics are not modelled.
pub mod Candidates
pub mod Finalizing
pub mod Recovery
pub mod Executing
pub mod Streaming
use smart_class_agent.Common.{
  ℕ, suc, max, String, Bool, true, false, Option, none, some, List, [], ◌∷◌, Text, str_eq,
  if◌then◌else◌, Result, ok, err,
}
use smart_class_agent.Envelope.{ConfigError}
use smart_class_agent.Reflection.{ReflectionJobCandidate}
use smart_class_agent.Run.{
  AgentRun, Database, RunError, RunStatus, failed, cancelled, Ending, LiveSnapshot, is_active,
  get_chat_run, finalize_chat_run, list_stale_chat_runs,
}
use smart_class_agent.Events.Store.{Redis, EventType, Payload, error}
use smart_class_agent.Events.Transport.{
  Network, Options, StoreError, unsupported_event, terminal_not_positive, append, append_done,
  get_snapshot,
}
use smart_class_agent.Manager.Candidates.{
  Capture, CheckpointValues, build_reflection_job_candidates,
}

-- What a call of the manager may raise.
pub data ManagerError : Type 0 where
  run_error : RunError → ManagerError
  store_error : StoreError → ManagerError

-- `ChatRunEventStoreError` and its subclass; the others are `ValueError`s.
abbrev pub is_store_error : StoreError → Bool
is_store_error (unsupported_event event) = false
is_store_error terminal_not_positive = false
is_store_error _ = true

-- `except ChatRunEventStoreError`, of a call whose answer is not used.
abbrev swallow {ℓ} : {A : Type ℓ} → Result StoreError A → Result ManagerError (Unit {0})
swallow (ok a) = ok tt
swallow (err e) = if is_store_error e then ok tt else err (store_error e)

-- The arguments of `_finalize_run`.
pub record Finalization : Type 0 where
  pub run_id : String
  pub status : RunStatus
  pub fallback_output : Text
  pub fallback_sequence : ℕ
  pub error_message : Option Text
  pub prefer_fallback_output : Bool

-- What one ending of a run meets outside: the networks of its calls of the event store and the
-- clocks of those that write, the checkpoint of the run's thread (`none` if it is missing, empty or
-- cannot be read), what its reflection candidates are made from, and the identifiers and the time
-- of the transaction.
pub record Circumstances : Type 0 where
  pub snapshot_network : Network
  pub append_network : Network
  pub append_clock : ℕ → ℕ
  pub done_network : Network
  pub done_clock : ℕ → ℕ
  pub checkpoint_values : Option CheckpointValues
  pub capture : Capture
  pub job_id : ℕ → String
  pub now : ℕ

-- The identifiers that the registration gives to the candidates.
with_ids : (ℕ → String) → ℕ → List ReflectionJobCandidate → List (String × ReflectionJobCandidate)
with_ids job_id i [] = []
with_ids job_id i (c ∷ cs) = (job_id i, c) ∷ with_ids job_id (suc i) cs

-- A failure to build the candidates is logged, and there are none.
built : Result ConfigError (List ReflectionJobCandidate) → List ReflectionJobCandidate
built (ok candidates) = candidates
built (err e) = []

-- `reflection_candidates`; the agent runtime can read checkpoints.
unfoldable pub candidates_of :
    Circumstances → RunStatus → Option AgentRun → List (String × ReflectionJobCandidate)
unfolding with_ids built
candidates_of c status none = []
candidates_of c status (some source_run) =
    with_ids c.job_id 0
      (built (build_reflection_job_candidates c.capture source_run status c.checkpoint_values))

-- The output and the last sequence number with which the run is ended.
unfoldable pub final_output : Finalization → Result StoreError (Option LiveSnapshot) → Text × ℕ
final_output f (err e) = (f.fallback_output, f.fallback_sequence)
final_output f (ok none) = (f.fallback_output, f.fallback_sequence)
final_output f (ok (some snapshot)) = (
  if f.prefer_fallback_output then f.fallback_output else snapshot.output_text,
  max f.fallback_sequence snapshot.last_sequence,
)

abbrev forget {ℓ} : {A : Type ℓ} → Result ManagerError A → Result ManagerError (Unit {0})
forget (ok a) = ok tt
forget (err e) = err e

-- The output and the number that `start` takes from the snapshot, if there is one, and the number
-- that its own event gets, if it could be appended.
abbrev known : Text → Option LiveSnapshot → Text
known stored none = stored
known stored (some snapshot) = snapshot.output_text

abbrev last_number : ℕ → Option LiveSnapshot → Result StoreError ℕ → ℕ
last_number stored snapshot (ok sequence) = sequence
last_number stored none (err e) = stored
last_number stored (some snapshot) (err e) = snapshot.last_sequence

module _ (R : Redis) where
  open R use {Keys}

  -- The database, and the keys of each run in the event store.
  pub record World : Type 0 where
    pub db : Database
    pub keys : String → Keys

  abbrev pub put_keys : String → Keys → World → World
  put_keys run_id k w = record w { keys = λ other. if str_eq other run_id then k else w.keys other }

  abbrev answering {ℓ} :
      {A : Type ℓ} → A → World × Result ManagerError (Unit {0}) → World × Result ManagerError A
  answering a (w, ok u) = (w, ok a)
  answering a (w, err e) = (w, err e)

  -- `done_payload` is the JSON object of a run's identifier and a status.
  module _ (options : Options) (done_payload : String → RunStatus → Payload) where
    -- `append_done`, with the failures of the store swallowed.
    unfoldable pub announce :
        Circumstances → String → AgentRun → World → World × Result ManagerError (Unit {0})
    announce c run_id run w =
        let (k, reply) =
          append_done R options c.done_network c.done_clock run.last_event_sequence
            (done_payload run_id run.status) (w.keys run_id) in
        (put_keys run_id k w, swallow reply)

    -- The transaction of `finalize_chat_run`, and the event that announces the row it returns.
    unfoldable pub commit_ending :
        Circumstances → Ending → World → World × Result ManagerError (Option AgentRun)
    unfolding announce
    commit_ending c ending w = elim (finalize_chat_run w.db ending) [
      | err e ↦ (w, err (run_error e))
      | ok (db, none) ↦ (record w { db = db }, ok none)
      | ok (db, some run) ↦
          answering (some run) (announce c ending.run_id run (record w { db = db }))
    ]

    -- `_finalize_run`
    unfoldable pub finalize_run :
        Circumstances → Finalization → World → World × Result ManagerError (Option AgentRun)
    unfolding commit_ending candidates_of final_output
    finalize_run c f w =
        let (output_text, last_sequence) =
          final_output f (get_snapshot R options c.snapshot_network (w.keys f.run_id)) in
        commit_ending c
          (record {
            run_id = f.run_id;
            status = f.status;
            output_text = output_text;
            last_sequence = last_sequence;
            error_message = f.error_message;
            reflection_candidates = candidates_of c f.status (get_chat_run w.db f.run_id);
            now = c.now;
          })
          w

    -- `cancel` of a run without a live task; `workflow` is `cancel_model_workflow` of the graph, which
    -- touches neither the database nor the event store.
    unfoldable pub cancel_idle :
        Circumstances → String → World → World × Result ManagerError (Unit {0})
    unfolding finalize_run
    cancel_idle c run_id w = elim (get_chat_run w.db run_id) [
      | none ↦ (w, ok tt)
      | some run ↦
          if is_active run.status
          then (let (w', reply) =
                finalize_run c
                  (record {
                    run_id = run_id;
                    status = cancelled;
                    fallback_output = run.output_text;
                    fallback_sequence = run.last_event_sequence;
                    error_message = none;
                    prefer_fallback_output = false;
                  })
                  w in
              (w', forget reply))
          else (w, ok tt)
    ]

    -- `message` is the JSON object of a run's identifier and a text; `stale_run_error_message` is
    -- `STALE_RUN_ERROR_MESSAGE`.
    module _ (message : String → Text → Payload) (stale_run_error_message : Text) where
      -- The `try` of `start` for one run: what the event store has of it, and its last event.
      unfoldable pub close_stream : Circumstances → AgentRun → World → World × Text × ℕ
      close_stream c run w = elim (get_snapshot R options c.snapshot_network (w.keys run.run_id)) [
        | err e ↦ (w, run.output_text, run.last_event_sequence)
        | ok snapshot ↦
            let (k, reply) =
              append R options c.append_network c.append_clock error
                (message run.run_id stale_run_error_message) (w.keys run.run_id) in
            (
              put_keys run.run_id k w,
              known run.output_text snapshot,
              last_number run.last_event_sequence snapshot reply,
            )
      ]

      -- The round of `start` for one stale run.
      unfoldable pub reconcile :
          Circumstances → AgentRun → World → World × Result ManagerError (Option AgentRun)
      unfolding close_stream commit_ending
      reconcile c run w =
          let (w', output_text, last_sequence) = close_stream c run w in
          commit_ending c
            (record {
              run_id = run.run_id;
              status = failed;
              output_text = output_text;
              last_sequence = last_sequence;
              error_message = some stale_run_error_message;
              reflection_candidates = [];
              now = c.now;
            })
            w'

      unfoldable pub reconcile_all :
          (ℕ → Circumstances) → ℕ → List AgentRun → World → World × Result ManagerError (Unit {0})
      unfolding reconcile
      reconcile_all cs i [] w = (w, ok tt)
      reconcile_all cs i (run ∷ runs) w =
          let (w', reply) = reconcile (cs i) run w in
          elim reply [ err e ↦ (w', err e) | ok finalized ↦ reconcile_all cs (suc i) runs w' ]

      -- `start`
      unfoldable pub start : (ℕ → Circumstances) → World → World × Result ManagerError (Unit {0})
      unfolding reconcile_all
      start cs w = reconcile_all cs 0 (list_stale_chat_runs w.db) w
