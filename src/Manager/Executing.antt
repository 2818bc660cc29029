-- ===== src/Manager/Executing.antt =====
-- `_execute_run` of backend/app/core/chat_runs.py: the agent's events become live events, with the
-- tokens of the answer in batches, and the end of the agent's stream ends the run.
-- A step is an event of the agent, or the moment at which the timer of the token buffer is due; each
-- has the network and the clock that its calls of the event store meet. A cancellation arrives
-- between two steps.
use smart_class_agent.Common.{
  ℕ, String, Bool, true, false, ◌&&◌, ◌||◌, not, Option, none, some, List, [], ◌∷◌, ◌++◌, Text,
  join, update, str_eq, if◌then◌else◌, Result, ok, err,
}
use smart_class_agent.Envelope.{WorkflowValues}
use smart_class_agent.Run.{
  AgentRun, Database, RunStatus, running, waiting_approval, succeeded, failed, cancelled,
  mark_chat_run_running, adopt_model_snapshot,
}
use smart_class_agent.Events.Store.{
  Redis, EventType, Payload, metadata, token, approval, error, is_token, is_done, is_supported,
}
use smart_class_agent.Events.Transport.{Network, Options, append}
use smart_class_agent.Tokens.{
  TokenBuffer, Outcome, returned, raised, new_buffer, add, flush, close, timer_fires,
}
use smart_class_agent.Tokens.Publishing.{fills, waits, due}
use smart_class_agent.Manager.{Circumstances, ManagerError, World, put_keys, finalize_run}

-- `event["event"]` and `event["data"]`, which is `none` if it is no dict.
pub record AgentEvent : Type 0 where
  pub event_type : EventType
  pub payload : Option Payload

pub record Link : Type 0 where
  pub network : Network
  pub clock : ℕ → ℕ

pub data Step : Type 0 where
  -- the links of the flush before the event and of the event's own publication
  arrives : AgentEvent → Link → Link → Step
  fires : Link → Step

abbrev is_approval : EventType → Bool
is_approval approval = true
is_approval _ = false

abbrev is_error : EventType → Bool
is_error error = true
is_error _ = false

-- `event_type not in SUPPORTED_RUN_EVENTS or event_type == "done"`
abbrev pub is_published : EventType → Bool
is_published event = is_supported event && not (is_done event)

-- The text of a token, if the payload has one.
abbrev pub text_in : EventType → Payload → Option Text
text_in event payload = if is_token event then payload.text else none

abbrev pub went : Outcome → Bool
went returned = true
went raised = false

-- `rest` is what a token's payload holds besides its text: the run's identifier.
module _ (R : Redis) (options : Options) (rest : String) where
  open R use {Keys}

  -- What `_execute_run` and its publisher keep.
  pub record Execution : Type 0 where
    pub keys : Keys
    pub last_sequence : ℕ
    pub token_buffer : TokenBuffer
    pub local_output : Text
    pub saw_approval : Bool
    pub saw_error : Bool

  -- `_RunPublisher.publish`
  unfoldable pub publish : Link → EventType → Payload → Execution → Execution × Outcome
  publish link event payload x =
      let (k, reply) = append R options link.network link.clock event payload x.keys in
      elim reply [
        | ok sequence ↦ (record x { keys = k; last_sequence = sequence }, returned)
        | err e ↦ (record x { keys = k }, raised)
      ]

  abbrev pub token_payload : Text → Payload
  token_payload text = record { text = some text; rest = rest }

  -- A call of the buffer that publishes a text if `full` says so.
  unfoldable pub through :
      Link
      → Bool
      → Text
      → (Bool → TokenBuffer → TokenBuffer × Outcome)
      → Execution
      → Execution × Outcome
  unfolding publish
  through link full text call x =
      let (sent, up) = if full then publish link token (token_payload text) x else (x, returned) in
      let (b, outcome) = call (went up) x.token_buffer in
      (record sent { token_buffer = b }, outcome)

  unfoldable pub add_token : Link → Text → Execution → Execution × Outcome
  unfolding through
  add_token link text x =
      through link (fills text x.token_buffer) (join (x.token_buffer.fragments ++ (text ∷ [])))
        (add text) x

  unfoldable pub flush_tokens : Link → Execution → Execution × Outcome
  unfolding through
  flush_tokens link x = through link (waits x.token_buffer) (join x.token_buffer.fragments) flush x

  unfoldable pub close_tokens : Link → Execution → Execution × Outcome
  unfolding through
  close_tokens link x = through link (waits x.token_buffer) (join x.token_buffer.fragments) close x

  -- The timer's flush is no call of the loop: what it raises stays in the buffer.
  unfoldable pub fire_timer : Link → Execution → Execution
  unfolding through
  fire_timer link x =
      (through link (due x.token_buffer) (join x.token_buffer.fragments)
        (λ up b. (timer_fires up b, returned)) x).0

  noted : EventType → Execution × Outcome → Execution × Outcome
  noted event (x, raised) = (x, raised)
  noted event (x, returned) = (
    record x {
      saw_approval = x.saw_approval || is_approval event;
      saw_error = x.saw_error || is_error event;
    },
    returned,
  )

  -- The `else` of the loop: any other event, after the tokens that wait.
  unfoldable pub publish_event : Link → Link → EventType → Payload → Execution → Execution × Outcome
  unfolding flush_tokens publish noted
  publish_event before link event payload x =
      let (y, flushed) = flush_tokens before x in
      elim flushed [ raised ↦ (y, raised) | returned ↦ noted event (publish link event payload y) ]

  unfoldable pub take_payload : Link → Link → EventType → Payload → Execution → Execution × Outcome
  unfolding add_token publish_event
  take_payload before link event payload x = elim (text_in event payload) [
    | some text ↦ add_token link text (record x { local_output = x.local_output ++ text })
    | none ↦ publish_event before link event payload x
  ]

  -- The body of the loop.
  unfoldable pub take_event : AgentEvent → Link → Link → Execution → Execution × Outcome
  unfolding take_payload
  take_event event before link x =
      if is_published event.event_type
      then (elim (event.payload) [
        | none ↦ (x, returned)
        | some payload ↦ take_payload before link event.event_type payload x
      ])
      else (x, returned)

  unfoldable pub take_step : Step → Execution → Execution × Outcome
  unfolding take_event fire_timer
  take_step (arrives event before link) x = take_event event before link x
  take_step (fires link) x = (fire_timer link x, returned)

  -- `async for`, until a call raises.
  unfoldable pub take_steps : List Step → Execution → Execution × Outcome
  unfolding take_step
  take_steps [] x = (x, returned)
  take_steps (s ∷ ss) x =
      let (y, outcome) = take_step s x in
      elim outcome [ returned ↦ take_steps ss y | raised ↦ (y, raised) ]

  unfoldable pub final_status : Execution → RunStatus
  final_status x =
      if x.saw_approval then waiting_approval else if x.saw_error then failed else succeeded

-- How the stream of the agent's events ends: it is exhausted, it raises, the user cancels the run,
-- or the process stops.
pub data Finish : Type 0 where
  exhausted agent_raised cancelled_by_user process_stopped : Finish

-- What one execution meets: the time of its start, whether its attachments could be read, the
-- values of the checkpoint, the process's configuration, the steps, their end, and the links of the
-- first event, of the last flush and of the error event. `max_chars` and `user_message` are those of
-- the code.
pub record Course : Type 0 where
  pub started_at : ℕ
  pub attachments_read : Bool
  pub workflow_values : WorkflowValues
  pub restorable : String → Bool
  pub current : String
  pub workflow_id : String
  pub max_chars : ℕ
  pub user_message : Text
  pub metadata_payload : Payload
  pub metadata_link : Link
  pub steps : List Step
  pub finish : Finish
  pub close_link : Link
  pub error_link : Link
  pub ending : Circumstances

module _ (R : Redis) (options : Options) (done_payload : String → RunStatus → Payload)
    (message : String → Text → Payload) (rest : String) where
  open R use {Keys}

  new_execution : ℕ → Keys → Execution R options rest
  new_execution max_chars k = record {
    keys = k;
    last_sequence = 0;
    token_buffer = new_buffer max_chars;
    local_output = [];
    saw_approval = false;
    saw_error = false;
  }

  -- `_finalize_run` with what the execution leaves.
  finalize_with :
      Course
      → String
      → Execution R options rest
      → RunStatus
      → Option Text
      → Bool
      → World R
      → World R × Result ManagerError (Option AgentRun)
  finalize_with c run_id x status error_message prefer w =
      finalize_run R options done_payload c.ending
        (record {
          run_id = run_id;
          status = status;
          fallback_output = x.local_output;
          fallback_sequence = x.last_sequence;
          error_message = error_message;
          prefer_fallback_output = prefer;
        })
        (put_keys R run_id x.keys w)

  -- `except Exception`: the tokens that wait and an error event are published if they can be.
  on_exception :
      Course
      → String
      → Execution R options rest
      → World R
      → World R × Result ManagerError (Option AgentRun)
  unfolding finalize_with
  on_exception c run_id x w =
      let closed = (close_tokens R options rest c.close_link x).0 in
      let told =
        (publish R options rest c.error_link error (message run_id c.user_message) closed).0 in
      finalize_with c run_id told failed (some c.user_message) true w

  -- The end of the stream.
  on_finish :
      Finish
      → Course
      → String
      → Execution R options rest
      → World R
      → World R × Result ManagerError (Option AgentRun)
  unfolding finalize_with on_exception
  on_finish exhausted c run_id x w =
      let (closed, outcome) = close_tokens R options rest c.close_link x in
      elim outcome [
        | returned ↦ finalize_with c run_id closed (final_status R options rest closed) none false w
        | raised ↦ on_exception c run_id closed w
      ]
  on_finish agent_raised c run_id x w = on_exception c run_id x w
  on_finish cancelled_by_user c run_id x w =
      finalize_with c run_id (close_tokens R options rest c.close_link x).0 cancelled none false w
  on_finish process_stopped c run_id x w =
      (put_keys R run_id (close_tokens R options rest c.close_link x).0.keys w, ok none)

  -- The metadata event, the loop and its end, for a run that could be prepared.
  execute_steps : Course → String → World R → World R × Result ManagerError (Option AgentRun)
  unfolding new_execution on_finish
  execute_steps c run_id w =
      let (x, first) =
        publish R options rest c.metadata_link metadata c.metadata_payload
          (new_execution c.max_chars (w.keys run_id)) in
      elim first [
        | raised ↦ on_exception c run_id x w
        | returned ↦
            let (y, outcome) = take_steps R options rest c.steps x in
            elim outcome [
              | raised ↦ on_exception c run_id y w
              | returned ↦ on_finish c.finish c run_id y w
            ]
      ]

  -- The row with the configuration that it has adopted.
  put_row : AgentRun → Database → Database
  put_row run db = record db { runs = update (λ r. str_eq r.run_id run.run_id) (λ r. run) db.runs }

  execute_running : Course → AgentRun → World R → World R × Result ManagerError (Option AgentRun)
  unfolding execute_steps put_row on_exception
  execute_running c run w =
      if c.attachments_read
      then (elim (adopt_model_snapshot c.restorable run c.workflow_values c.current c.workflow_id) [
        | err e ↦ on_exception c run.run_id (new_execution c.max_chars (w.keys run.run_id)) w
        | ok (adopted, envelope) ↦
            execute_steps c run.run_id (record w { db = put_row adopted w.db })
      ])
      else on_exception c run.run_id (new_execution c.max_chars (w.keys run.run_id)) w

  is_started : RunStatus → Bool
  is_started running = true
  is_started _ = false

  -- `_execute_run`
  unfoldable pub execute_run :
      Course → String → World R → World R × Result ManagerError (Option AgentRun)
  unfolding execute_running is_started
  execute_run c run_id w =
      let (db, found) = mark_chat_run_running w.db run_id c.started_at in
      let marked = record w { db = db } in
      elim found [
        | none ↦ (marked, ok none)
        | some run ↦
            if is_started run.status then execute_running c run marked else (marked, ok none)
      ]
