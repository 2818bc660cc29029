-- ===== src/Examples/Intakes.antt =====
-- A task with an instruction, a summary of an attachment and a question, within 80 characters.
use smart_class_agent.Common.{◌≤◌, true, false, none, some, [], ◌∷◌, arith}
use smart_class_agent.History.Exchanges.{human, ai, system}
use smart_class_agent.Intake.{Texts, IntakeState, total, build_bounded_intake_messages}
use smart_class_agent.Intake.Budget.{build_bounded_intake_messages-fits}

abbrev texts : Texts
texts = record { strip = λ t. t; is_summary_text = λ t. true; summary_key = λ t. t }

abbrev task : IntakeState
task = record {
  messages = system none (1 ∷ 2 ∷ []) false ∷ human none (3 ∷ 4 ∷ []) ∷ ai none (5 ∷ []) [] ∷ [];
  start = 0;
  previous = some (6 ∷ 7 ∷ []);
  initial_request = 3 ∷ 4 ∷ [];
}

build_bounded_intake_messages-fits_example :
    total (build_bounded_intake_messages texts 4 80 task) ≤ 80
build_bounded_intake_messages-fits_example =
    build_bounded_intake_messages-fits texts 4 80 task (omega arith)
