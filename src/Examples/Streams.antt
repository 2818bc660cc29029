-- ===== src/Examples/Streams.antt =====
-- The events of a run, over keys held in memory.
use smart_class_agent.Common.{
  ℕ, suc, ◌<◌, ◌≤◌, ◌+◌, ◌≡◌, refl, Bool, true, false, none, some, [], ◌∷◌, ◌++◌, length, Result,
  ok, err, arith, ◌>>=◌, zero,
}
use smart_class_agent.Events.Store.{Entry, Payload, token}
use smart_class_agent.Events.Scripts.{Message, append_script, done_entry}
use smart_class_agent.Events.Transport.{
  Network, delivered, lost_reply, Options, StoreError, token_text_of, append, append_done,
  read_after, terminal_inconsistent, ChatRunEvent, decode_rows, decode_event, batch,
}
use smart_class_agent.Events.Memory.{Memory, memory_redis}
use smart_class_agent.Events.Consistency.{IsConsistent}
use smart_class_agent.Events.Appending.{row_of, append_script_effect}
use smart_class_agent.Events.Delivery.{Grows, append_at_least_once}
use smart_class_agent.Events.Ending.{append_done_next, append_done_again, append_done_refused}
use smart_class_agent.Events.Replay.{resume_at, read_after_window, read_after_resumed}

abbrev pub hello : Payload
hello = record { text = some (104 ∷ 105 ∷ []); rest = "" }

abbrev first_token : Entry
first_token = record { sequence = 1; event = token; data_field = some hello; created_at = some 5 }

abbrev second_token : Entry
second_token = record first_token { sequence = 2 }

-- Two tokens are in the stream.
abbrev pub keys : Memory
keys = record {
  rows = first_token ∷ second_token ∷ [];
  last = some 2;
  written = some (104 ∷ 105 ∷ 104 ∷ 105 ∷ []);
}

pub keys-IsConsistent : IsConsistent memory_redis keys
unfolding token_text_of
keys-IsConsistent = record { numbered = (refl, (refl, tt)); counted = refl; printed = refl }

abbrev pub options : Options
options = record {
  active_ttl_seconds = 3600;
  terminal_retention_seconds = 60;
  append_max_retries = 2;
  read_batch_size = 100;
  read_block_ms = 1000;
}

abbrev pub clock : ℕ → ℕ
clock i = i

abbrev pub good : Network
good i = delivered

-- The first reply is lost.
abbrev bad : Network
bad zero = lost_reply
bad (suc i) = delivered

abbrev appended : Memory × Result StoreError ℕ
appended = append memory_redis options bad clock token hello keys

append_at_least_once_example :
    Grows memory_redis token hello 3 keys appended.0
    × ((n : ℕ) → appended.1 ≡ ok n → (n ≡ length (appended.0.rows)) × (2 < n))
append_at_least_once_example =
    append_at_least_once memory_redis options bad clock token hello keys keys-IsConsistent refl refl

abbrev note : Message
note = record { event = token; payload = hello; token_text = 104 ∷ 105 ∷ []; created_at = 9 }

append_script_effect_example :
    ((append_script memory_redis note 3600 keys).1 ≡ some 3)
    × ((append_script memory_redis note 3600 keys).0.rows ≡ keys.rows ++ (row_of note 3 ∷ []))
    × IsConsistent memory_redis (append_script memory_redis note 3600 keys).0
unfolding token_text_of
append_script_effect_example =
    append_script_effect memory_redis note 3600 keys keys-IsConsistent refl

abbrev status : Payload
status = record { text = none; rest = "succeeded" }

abbrev ended : Memory × Result StoreError Bool
ended = append_done memory_redis options good clock 3 status keys

append_done_next_example :
    (ended.1 ≡ ok true)
    × (ended.0.rows ≡ keys.rows ++ (done_entry memory_redis 3 status 0 ∷ []))
    × IsConsistent memory_redis ended.0
append_done_next_example =
    append_done_next memory_redis options good clock status 3 keys keys-IsConsistent refl
      (omega arith) refl

append_done_again_example :
    append_done memory_redis options good clock 2 status keys ≡ (keys, ok false)
append_done_again_example =
    append_done_again memory_redis options good clock status 2 keys keys-IsConsistent refl
      (omega arith) refl

append_done_refused_example :
    append_done memory_redis options good clock 7 status keys ≡ (keys, err terminal_inconsistent)
append_done_refused_example =
    append_done_refused memory_redis options good clock status 7 keys keys-IsConsistent refl
      (omega arith) (omega arith) (omega arith) (omega arith)

-- The second row is malformed; a third one is added before the second read.
abbrev malformed : Entry
malformed = record second_token { data_field = none }

abbrev short : Memory
short = record {
  rows = first_token ∷ malformed ∷ [];
  last = some 2;
  written = some (104 ∷ 105 ∷ []);
}

abbrev third_token : Entry
third_token = record first_token { sequence = 3 }

abbrev longer : Memory
longer = record {
  rows = first_token ∷ malformed ∷ third_token ∷ [];
  last = some 3;
  written = some (104 ∷ 105 ∷ 104 ∷ 105 ∷ []);
}

short-IsConsistent : IsConsistent memory_redis short
unfolding token_text_of
short-IsConsistent = record { numbered = (refl, (refl, tt)); counted = refl; printed = refl }

longer-IsConsistent : IsConsistent memory_redis longer
unfolding token_text_of
longer-IsConsistent = record {
  numbered = (refl, (refl, (refl, tt)));
  counted = refl;
  printed = refl;
}

abbrev first_event : ChatRunEvent
first_event = record {
  run_id = "run";
  sequence = 1;
  event_type = token;
  payload = hello;
  created_at = 5;
}

first_read :
    read_after memory_redis options good "run" 0 (some 0) (some 2) short ≡ ok (first_event ∷ [])
unfolding decode_rows decode_event batch
first_read =
    read_after_window memory_redis options "run" good 0 (some 0) (some 2) short refl
      short-IsConsistent

read_after_resumed_example :
    (c : ℕ) × (c ≤ 2)
    × (resume_at 0 (first_event ∷ []) ≡ 0 + c)
    × ((do
      ys ← read_after memory_redis options good "run" 1 (some 0) (some 2) longer
      ok ((first_event ∷ []) ++ ys))
        ≡ read_after memory_redis options good "run" 0 (some 0) (some (c + 2)) longer)
read_after_resumed_example =
    read_after_resumed memory_redis options "run" good good good 0 1 1 (some 0) (some 0) (some 0)
      short longer (third_token ∷ []) (first_event ∷ []) refl refl refl short-IsConsistent
      longer-IsConsistent refl first_read
