-- ===== src/Examples/Calls.antt =====
-- A model that is overloaded at first.
use smart_class_agent.Common.{ℕ, zero, suc, ◌≤◌, false, some, ok, err, arith}
use smart_class_agent.Requests.{Attempt, answered, Answer, agenerate}
use smart_class_agent.Requests.Budget.{agenerate-fits}

abbrev provider : ℕ → Attempt ℕ
provider zero = record { reply = err (answered false (some 429) false false false 500); took = 40 }
provider (suc i) = record { reply = ok 1; took = 90000 }

abbrev answer : Answer ℕ
answer = agenerate provider 60000 2 0 10

agenerate-fits_example : (answer.requests ≤ 2) × (10 ≤ answer.time) × (answer.time ≤ 60000)
agenerate-fits_example = agenerate-fits provider 60000 2 0 10 (omega arith)
