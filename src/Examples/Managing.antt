-- ===== src/Examples/Managing.antt =====
-- A run that the manager ends, finds again at its start, and streams.
use smart_class_agent.Common.{
  ◌≢◌, String, ◌≡◌, refl, true, false, Option, none, some, [], ◌∷◌, ◌++◌, Text, join, List, ok,
  Result, arith,
}
use smart_class_agent.Run.{AgentRun, RunStatus, succeeded, cancelled, get_chat_run}
use smart_class_agent.Run.Lifecycle.{ended}
use smart_class_agent.Events.Store.{Payload, token, progress}
use smart_class_agent.Events.Scripts.{done_entry}
use smart_class_agent.Events.Memory.{memory_redis, empty}
use smart_class_agent.Events.Consistency.{IsConsistent}
use smart_class_agent.Tokens.{Outcome, returned, new_buffer}
use smart_class_agent.Manager.{
  Circumstances, Finalization, ManagerError, World, finalize_run, start,
}
use smart_class_agent.Manager.Candidates.{Capture}
use smart_class_agent.Manager.Finalizing.{ending_of, finalize_run_announces, finalize_run_again}
use smart_class_agent.Manager.Recovery.{IsIdle, start-IsIdle}
use smart_class_agent.Manager.Executing.{
  Link, Step, arrives, fires, Execution, take_steps, close_tokens,
}
use smart_class_agent.Manager.Streaming.{IsLive, character, other, spell, take_steps_spelt}
use smart_class_agent.Examples.Runs.{started_run, ended_run, with_run, found}
use smart_class_agent.Examples.Streams.{hello, keys, keys-IsConsistent, options, good, clock}

abbrev capture : Capture
capture = record {
  is_space = λ c. false;
  restorable = λ snapshot. true;
  current = "config";
  user_name = λ n. "7";
  profile_body = λ t. "profile";
  experience_body = λ values kind. "experience";
  now = 30;
}

abbrev circumstances : Circumstances
circumstances = record {
  snapshot_network = good;
  append_network = good;
  append_clock = clock;
  done_network = good;
  done_clock = clock;
  checkpoint_values = none;
  capture = capture;
  job_id = λ i. "job";
  now = 30;
}

abbrev status_payload : String → RunStatus → Payload
status_payload run_id status = record { text = none; rest = "status" }

abbrev message : String → Text → Payload
message run_id text = record { text = none; rest = "message" }

abbrev world : AgentRun → World memory_redis
world run = record { db = with_run run; keys = λ run_id. keys }

abbrev success : Finalization
success = record {
  run_id = "run";
  status = succeeded;
  fallback_output = 104 ∷ 105 ∷ [];
  fallback_sequence = 1;
  error_message = none;
  prefer_fallback_output = false;
}

abbrev answer : World memory_redis × Result ManagerError (Option AgentRun)
answer = finalize_run memory_redis options status_payload circumstances success (world started_run)

abbrev row : AgentRun
row =
    ended (with_run started_run)
      (ending_of memory_redis options status_payload circumstances success (world started_run)) refl
      started_run

finalize_run_announces_example :
    (answer.1 ≡ ok (some row))
    × (get_chat_run answer.0.db "run" ≡ some row)
    × (row.last_event_sequence ≡ 3)
    × ((answer.0.keys "run").rows
        ≡ keys.rows
          ++ (done_entry memory_redis row.last_event_sequence (status_payload "run" succeeded) 0
              ∷ []))
    × IsConsistent memory_redis (answer.0.keys "run")
    × ((id : String)
        → id ≢ "run"
        → (get_chat_run answer.0.db id ≡ get_chat_run (with_run started_run) id)
          × (answer.0.keys id ≡ keys))
finalize_run_announces_example =
    finalize_run_announces memory_redis options status_payload circumstances success
      (world started_run) keys-IsConsistent (omega arith) refl started_run (found started_run refl)
      refl refl (omega arith) refl

-- The end of the stream in memory is that of the row.
abbrev over : AgentRun
over = record ended_run { last_event_sequence = 2 }

abbrev cancellation : Finalization
cancellation = record success { status = cancelled }

abbrev late : World memory_redis × Result ManagerError (Option AgentRun)
late = finalize_run memory_redis options status_payload circumstances cancellation (world over)

finalize_run_again_example :
    (late.1 ≡ ok (some over))
    × (late.0.db ≡ with_run over)
    × ((id : String) → late.0.keys id ≡ keys)
finalize_run_again_example =
    finalize_run_again memory_redis options status_payload circumstances (world over) over refl
      cancellation (found over refl) refl keys-IsConsistent (omega arith) refl refl

abbrev restarted : World memory_redis × Result ManagerError (Unit {0})
restarted =
    start memory_redis options status_payload message [] (λ i. circumstances) (world started_run)

start-IsIdle_example : (restarted.1 ≡ ok tt) × ((id : String) → IsIdle restarted.0.db id)
start-IsIdle_example =
    start-IsIdle memory_redis options status_payload message [] (λ i. circumstances)
      (world started_run)
      (
        record {
          completed = refl;
          waits = λ q. absurd (cc);
          runs = λ r. refl;
          numbered = λ f. absurd (cc);
        },
        tt,
      )

abbrev link : Link
link = record { network = good; clock = clock }

abbrev note : Payload
note = record { text = none; rest = "note" }

-- Two tokens, another event, and a token behind it; the timer fires once.
abbrev steps : List Step
steps =
    arrives (record { event_type = token; payload = some hello }) link link
    ∷ arrives (record { event_type = token; payload = some hello }) link link
    ∷ arrives (record { event_type = progress; payload = some note }) link link
    ∷ arrives (record { event_type = token; payload = some hello }) link link
    ∷ fires link
    ∷ []

abbrev execution : Execution memory_redis options "run"
execution = record {
  keys = empty;
  last_sequence = 0;
  token_buffer = new_buffer 3;
  local_output = [];
  saw_approval = false;
  saw_error = false;
}

execution-IsLive : IsLive memory_redis options "run" execution
unfolding new_buffer
execution-IsLive = record {
  consistent = record { numbered = tt; counted = refl; printed = refl };
  calm = refl;
}

nothing_waits : join execution.token_buffer.fragments ≡ []
unfolding new_buffer
nothing_waits = refl

abbrev streamed : Execution memory_redis options "run" × Outcome
streamed = take_steps memory_redis options "run" steps execution

abbrev closed : Execution memory_redis options "run" × Outcome
closed = close_tokens memory_redis options "run" link streamed.0

take_steps_spelt_example :
    (streamed.1 ≡ returned)
    × (closed.1 ≡ returned)
    × IsConsistent memory_redis closed.0.keys
    × (spell closed.0.keys.rows
        ≡ character 104
          ∷ character 105
          ∷ character 104
          ∷ character 105
          ∷ other progress note
          ∷ character 104
          ∷ character 105
          ∷ [])
take_steps_spelt_example =
    take_steps_spelt memory_redis options "run" execution steps link execution-IsLive nothing_waits
      ((refl, refl), ((refl, refl), ((refl, refl), ((refl, refl), (refl, tt))))) refl
