-- ===== src/Examples/Working.antt =====
-- A worker with one running job, whose model answers with a new memory.
use smart_class_agent.Common.{◌≡◌, ◌≢◌, String, refl, true, false, some, [], ◌∷◌, ok}
use smart_class_agent.Reflection.{MemoryReflectionJob, Jobs, is_terminal}
use smart_class_agent.Reflection.Single.{get_job}
use smart_class_agent.Worker.{Circumstances, Wording, State, process_claimed}
use smart_class_agent.Worker.Processing.{process_claimed-ends}
use smart_class_agent.Examples.Jobs.{active_job, waiting}
use smart_class_agent.Examples.MemoryEdits.{memory_store, environment, proposal, nothing}

abbrev wording : Wording
wording = record {
  shadow_mode = 115 ∷ [];
  policy_skip = 112 ∷ [];
  status_name = λ status. 97 ∷ [];
  categorize_error = λ e. 101 ∷ [];
  unknown_error = 117 ∷ [];
  failure_message = 109 ∷ [];
}

-- The commit of the memory fails.
abbrev circumstances : Circumstances
circumstances = record {
  current = "config";
  extract = λ job. ok proposal;
  memory_now = 50;
  now = 51;
  adopt_commits = true;
  apply_commits = false;
  end_commits = true;
}

abbrev state : State memory_store environment wording false
state = record { jobs = active_job ∷ waiting ∷ []; memories = nothing }

abbrev processed : Jobs
processed =
    (process_claimed memory_store environment wording false circumstances active_job state).jobs

process_claimed-ends_example :
    ((row : MemoryReflectionJob) × (get_job "b" processed ≡ some row)
      × (is_terminal row.status ≡ true))
    × ((other : String) → other ≢ "b" → get_job other processed ≡ get_job other state.jobs)
process_claimed-ends_example =
    process_claimed-ends memory_store environment wording false circumstances active_job active_job
      state refl refl
