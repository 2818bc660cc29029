-- ===== src/Examples/Teachers.antt =====
-- Two teachers, of whom one tries to change what the other has.
use smart_class_agent.Common.{ℕ, ◌≡◌, not, List, [], ◌∷◌, arith}
use smart_class_agent.Accounts.{Tables}
use smart_class_agent.Accounts.Isolation.{
  Request, deletes_plan, renames_session, creates_session, serve_all, plans_of, sessions_of,
  serve_all-isolated,
}

abbrev tables : Tables
tables = record {
  users = [];
  plans =
      record { id = 1; user_id = 7; name = "algebra" }
      ∷ record { id = 2; user_id = 8; name = "poems" }
      ∷ [];
  sessions = record { id = 1; name = "sets"; thread_id = "t"; user_id = 7; plan_id = 1 } ∷ [];
}

abbrev requests : List (ℕ × Request)
requests =
    (8, deletes_plan 1)
    ∷ (8, renames_session 1 "stolen")
    ∷ (8, creates_session 2 "rhymes" "u" 2)
    ∷ []

serve_all-isolated_example :
    (plans_of 7 (serve_all not requests tables) ≡ plans_of 7 tables)
    × (sessions_of 7 (serve_all not requests tables) ≡ sessions_of 7 tables)
serve_all-isolated_example =
    serve_all-isolated not 7 requests tables (omega arith, (omega arith, (omega arith, tt)))
