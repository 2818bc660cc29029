-- ===== src/Examples/Conversations.antt =====
-- A conversation with one tool call.
use smart_class_agent.Common.{
  ℕ, ◌-◌, ◌≤◌, ◌≡◌, refl, true, false, Option, none, some, List, [], ◌∷◌, ◌++◌, keep, take, drop,
  length, ok,
}
use smart_class_agent.History.Exchanges.{
  Message, human, ai, tool, is_system, exchange_step, add_calls, boundaries_from,
  exchange_boundaries, last_boundary, recent_history,
}
use smart_class_agent.History.Compression.{
  ThreadState, CompressionSettings, estimate_message_tokens, human_indexes, nth, recent_turn_cutoff,
  plan_at, build_compression_plan,
}
use smart_class_agent.History.Cuts.{pending_after, recent_history-cut}
use smart_class_agent.History.Plans.{Promise, build_compression_plan-Promise}

abbrev messages : List Message
messages =
    human (some "1") (104 ∷ [])
    ∷ ai (some "2") [] (record { id = some "call"; name = "search" } ∷ [])
    ∷ tool (some "3") (114 ∷ []) "call"
    ∷ human (some "4") (105 ∷ [])
    ∷ []

abbrev boundaries : List ℕ
boundaries = 0 ∷ 1 ∷ 3 ∷ 4 ∷ []

bounded : exchange_boundaries messages ≡ ok boundaries
unfolding exchange_boundaries boundaries_from exchange_step add_calls
bounded = refl

recent_history-cut_example :
    (cutoff : ℕ) × (cutoff ≤ length messages - 2)
    × (pending_after [] (take cutoff messages) ≡ ok [])
    × ((n : ℕ) → n ≤ length messages - 2 → pending_after [] (take n messages) ≡ ok [] → n ≤ cutoff)
    × (recent_history 2 messages
        ≡ ok (keep is_system (take cutoff messages) ++ drop cutoff messages))
    × ((bs' : List ℕ) × (exchange_boundaries
            (keep is_system (take cutoff messages) ++ drop cutoff messages)
          ≡ ok bs'))
recent_history-cut_example = recent_history-cut 2 messages boundaries bounded

abbrev state : ThreadState
state = record { messages = messages; pending_approval = false }

abbrev settings : CompressionSettings
settings = record {
  enabled = true;
  trigger_tokens = 5;
  keep_recent_turns = 1;
  max_output_tokens = 256;
  max_preface_chars = 1000;
}

abbrev counter : List Message → Option ℕ
counter ms = none

planned : (build_compression_plan state settings counter).should_compress ≡ true
unfolding build_compression_plan estimate_message_tokens recent_turn_cutoff human_indexes nth
    plan_at exchange_boundaries boundaries_from exchange_step add_calls last_boundary
planned = refl

build_compression_plan-Promise_example :
    Promise messages 5
      (recent_turn_cutoff messages 1)
      (build_compression_plan state settings counter)
build_compression_plan-Promise_example =
    build_compression_plan-Promise state settings counter planned
