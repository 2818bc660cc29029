-- ===== src/Examples/Runs.antt =====
-- A thread with one run, which is accepted, started and ended.
use mathlib.Core.List.{Memᴰ}
use smart_class_agent.Common.{
  ◌≢◌, String, ◌≡◌, refl, Bool, true, false, none, some, [], ◌∷◌, ok, arith,
}
use smart_class_agent.Envelope.{
  RunModelEnvelope, no_values, selected, restore_envelope, capture_envelope, entry_update,
}
use smart_class_agent.Envelope.Pinning.{
  capture_envelope-entry_update, restore_envelope-capture_envelope,
}
use smart_class_agent.Reflection.{register_reflection_candidates}
use smart_class_agent.Run.{
  write_snapshot, AgentRun, Database, NewChatRun, Ending, queued, running, succeeded, get_chat_run,
  get_active_chat_run, latest, create_chat_run, mark_chat_run_running, finalize_chat_run,
}
use smart_class_agent.Run.Exclusive.{
  IsExclusive, Reach, here, next, created, marked, finalized, adopted, Reach-IsExclusive,
}
use smart_class_agent.Run.Lifecycle.{finalize_chat_run_effect}
use smart_class_agent.Run.Rows.{RowsAreValid, Reach-RowsAreValid, HasRow, finished_run_kept}

abbrev pub valid : String → Bool
valid snapshot = true

abbrev pub start : Database
start = record { sessions = ("lesson", 7) ∷ []; runs = []; jobs = [] }

abbrev request : NewChatRun
request = record {
  thread_id = "lesson";
  user_id = 7;
  plan_id = 1;
  message = 104 ∷ 105 ∷ [];
  attachment_ids = [];
  approval = none;
  workflow_state = no_values;
  current = "config";
  run_id = "run";
  workflow_id = "workflow";
  now = 10;
}

abbrev envelope : RunModelEnvelope
envelope = record {
  version = 1;
  current = "config";
  workflow = none;
  workflow_id = none;
  legacy_snapshot_adopted = false;
}

abbrev accepted_run : AgentRun
accepted_run = record {
  run_id = "run";
  thread_id = "lesson";
  user_id = 7;
  plan_id = 1;
  status = queued;
  message = 104 ∷ 105 ∷ [];
  attachment_ids = [];
  approval = none;
  model_config_snapshot = some envelope;
  output_text = [];
  last_event_sequence = 0;
  error_message = none;
  created_at = 10;
  started_at = none;
  completed_at = none;
}

abbrev pub started_run : AgentRun
started_run = record accepted_run { status = running; started_at = some 11 }

abbrev ending : Ending
ending = record {
  run_id = "run";
  status = succeeded;
  output_text = 111 ∷ 107 ∷ [];
  last_sequence = 4;
  error_message = none;
  reflection_candidates = [];
  now = 20;
}

abbrev pub ended_run : AgentRun
ended_run = record started_run {
  status = succeeded;
  output_text = 111 ∷ 107 ∷ [];
  last_event_sequence = 5;
  completed_at = some 20;
}

abbrev pub with_run : AgentRun → Database
with_run r = record start { runs = r ∷ [] }

accepted : create_chat_run valid start request ≡ ok (with_run accepted_run, accepted_run)
unfolding create_chat_run capture_envelope get_active_chat_run latest
accepted = refl

started : with_run started_run ≡ (mark_chat_run_running (with_run accepted_run) "run" 11).0
unfolding mark_chat_run_running
started = refl

done : finalize_chat_run (with_run started_run) ending ≡ ok (with_run ended_run, some ended_run)
unfolding finalize_chat_run register_reflection_candidates
done = refl

abbrev way : Reach start (with_run ended_run)
way =
    next (next (next here (created valid request accepted_run accepted)) (marked "run" 11 started))
      (finalized ending (some ended_run) done)

Reach-IsExclusive_example : IsExclusive (with_run ended_run)
Reach-IsExclusive_example = Reach-IsExclusive way (λ t u. omega arith)

Reach-RowsAreValid_example : RowsAreValid (with_run ended_run)
Reach-RowsAreValid_example = Reach-RowsAreValid way tt

-- An ended run without a configuration, which adopts one after its end.
abbrev legacy : AgentRun
legacy = record ended_run { model_config_snapshot = none }

abbrev late : RunModelEnvelope
late = record envelope { current = "late"; legacy_snapshot_adopted = true }

captured_late : capture_envelope valid "late" "w" no_values true ≡ ok late
unfolding capture_envelope
captured_late = refl

finished_run_kept_example : HasRow legacy (write_snapshot "run" late (with_run legacy))
finished_run_kept_example =
    finished_run_kept legacy {db = with_run legacy}
      (next here (adopted valid "run" "late" "w" no_values late captured_late refl))
      (Memᴰ.head refl) refl

pub found : (r : AgentRun) → r.run_id ≡ "run" → get_chat_run (with_run r) "run" ≡ some r
unfolding get_chat_run
found r e = rw e refl

finalize_chat_run_effect_example :
    (db' : Database) × (finalize_chat_run (with_run started_run) ending ≡ ok (db', some ended_run))
    × (get_chat_run db' "run" ≡ some ended_run)
    × ((other : String)
        → other ≢ "run"
        → get_chat_run db' other ≡ get_chat_run (with_run started_run) other)
    × (db'.sessions ≡ start.sessions)
    × (db'.jobs ≡ register_reflection_candidates 20 [] [])
finalize_chat_run_effect_example =
    finalize_chat_run_effect (with_run started_run) ending refl started_run (found started_run refl)
      refl

abbrev active_envelope : RunModelEnvelope
active_envelope = record envelope { current = "old"; workflow = some "old"; workflow_id = some "w" }

capture_envelope-entry_update_example :
    (e' : RunModelEnvelope) × (capture_envelope valid "config" "fresh"
        (entry_update active_envelope)
        false
      ≡ ok e')
    × (e'.workflow ≡ some "old")
    × (e'.workflow_id ≡ some "w")
    × (selected e' ≡ "old")
    × (e'.legacy_snapshot_adopted ≡ false)
    × (e'.current ≡ "config")
capture_envelope-entry_update_example =
    capture_envelope-entry_update valid "config" "fresh" "old" active_envelope refl refl

captured : capture_envelope valid "config" "fresh" no_values false ≡ ok envelope
unfolding capture_envelope
captured = refl

restore_envelope-capture_envelope_example : restore_envelope valid envelope ≡ ok envelope
restore_envelope-capture_envelope_example =
    restore_envelope-capture_envelope valid "config" "fresh" no_values false envelope refl captured
