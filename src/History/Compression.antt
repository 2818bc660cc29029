-- ===== src/History/Compression.antt =====
-- backend/app/core/context_compression.py: when a thread is compressed, and what replaces what.
use smart_class_agent.Common.{
  ℕ, zero, suc, ◌+◌, ◌-◌, ◌/◌, String, Bool, true, false, not, Option, none, some, List, [], ◌∷◌,
  ◌++◌, Text, keep, any, take, drop, length, map, str_eq, leb, ltb, ◌==◌, if◌then◌else◌, ok, err,
  max,
}
use smart_class_agent.History.Exchanges.{
  Message, human, ai, tool, system, is_empty, exchange_boundaries, last_boundary,
}

abbrev char_token_ratio : ℕ
char_token_ratio = 4

pub data Reason : Type 0 where
  disabled below_threshold waiting_for_approval invalid_tool_history unfinished_tool_exchange
        too_few_messages missing_message_ids threshold_reached :
      Reason

pub record CompressionSettings : Type 0 where
  pub enabled : Bool
  pub trigger_tokens : ℕ
  pub keep_recent_turns : ℕ
  pub max_output_tokens : ℕ
  pub max_preface_chars : ℕ

pub record CompressionPlan : Type 0 where
  pub should_compress : Bool
  pub reason : Reason
  pub estimated_tokens : ℕ
  pub message_count : ℕ
  pub retained_messages : List Message
  pub compressible_messages : List Message

-- The state of the graph that is read: its messages, and whether an approval is pending.
pub record ThreadState : Type 0 where
  pub messages : List Message
  pub pending_approval : Bool

abbrev message_id : Message → Option String
message_id (human i t) = i
message_id (ai i t calls) = i
message_id (tool i t id) = i
message_id (system i t c) = i

abbrev text_of : Message → Text
text_of (human i t) = t
text_of (ai i t calls) = t
text_of (tool i t id) = t
text_of (system i t c) = t

-- `getattr(message, "id", None)`, as a test.
abbrev pub has_id : Message → Bool
has_id m = elim (message_id m) [ none ↦ false | some i ↦ not (str_eq i "") ]

abbrev is_human : Message → Bool
is_human (human i t) = true
is_human _ = false

-- The `total_chars` of the fallback.
abbrev total_chars : List Message → ℕ
total_chars [] = 0
total_chars (m ∷ ms) = 8 + length (text_of m) + total_chars ms

-- `counter` is the model's `get_num_tokens_from_messages`, which answers nothing if there is no
-- model, if it has no such method or if that raises.
unfoldable pub estimate_message_tokens : (List Message → Option ℕ) → List Message → ℕ
estimate_message_tokens counter ms = elim (counter ms) [
  | some tokens ↦ tokens
  | none ↦ max 1 ((total_chars ms + char_token_ratio - 1) / char_token_ratio)
]

-- `human_indexes`, for messages counted from `index`; a human message is no system message, so
-- that none of them is a compressed context.
unfoldable pub human_indexes : ℕ → List Message → List ℕ
human_indexes index [] = []
human_indexes index (m ∷ ms) =
    let rest = human_indexes (suc index) ms in if is_human m then index ∷ rest else rest

unfoldable pub nth : ℕ → List ℕ → ℕ
nth n [] = 0
nth zero (x ∷ xs) = x
nth (suc n) (x ∷ xs) = nth n xs

-- `human_indexes[-keep_recent_turns]`: the index 0 stands for itself.
unfoldable pub recent_turn_cutoff : List Message → ℕ → ℕ
unfolding human_indexes nth
recent_turn_cutoff ms keep_recent_turns =
    let indexes = human_indexes 0 ms in
    if leb (length indexes) keep_recent_turns
    then 0
    else if keep_recent_turns == 0
    then nth 0 indexes
    else nth (length indexes - keep_recent_turns) indexes

abbrev skipping : Reason → ℕ → ℕ → CompressionPlan
skipping reason estimated count = record {
  should_compress = false;
  reason = reason;
  estimated_tokens = estimated;
  message_count = count;
  retained_messages = [];
  compressible_messages = [];
}

-- The plan for a cut.
unfoldable pub plan_at : ℕ → List Message → ℕ → CompressionPlan
plan_at estimated ms cutoff =
    let compressible = take cutoff ms in
    let retained = drop cutoff ms in
    if leb cutoff 0
    then skipping too_few_messages estimated (length ms)
    else if is_empty compressible
    then skipping too_few_messages estimated (length ms)
    else record {
      should_compress = not (any (λ m. not (has_id m)) ms);
      reason = if any (λ m. not (has_id m)) ms then missing_message_ids else threshold_reached;
      estimated_tokens = estimated;
      message_count = length ms;
      retained_messages = retained;
      compressible_messages = compressible;
    }

unfoldable pub build_compression_plan :
    ThreadState → CompressionSettings → (List Message → Option ℕ) → CompressionPlan
unfolding estimate_message_tokens recent_turn_cutoff plan_at
build_compression_plan state settings counter =
    let ms = state.messages in
    let estimated = estimate_message_tokens counter ms in
    if not settings.enabled
    then skipping disabled estimated (length ms)
    else if ltb estimated settings.trigger_tokens
    then skipping below_threshold estimated (length ms)
    else if state.pending_approval
    then skipping waiting_for_approval estimated (length ms)
    else elim (exchange_boundaries ms) [
      | err e ↦ skipping invalid_tool_history estimated (length ms)
      | ok boundaries ↦
          if any (λ b. b == length ms) boundaries
          then plan_at estimated ms
              (last_boundary (recent_turn_cutoff ms settings.keep_recent_turns) boundaries)
          else skipping unfinished_tool_exchange estimated (length ms)
    ]

-- A removal by identifier, or a message that is added.
pub data Update : Type 0 where
  remove : Option String → Update
  add : Message → Update

unfoldable build_replacement_update : List Message → Message → List Message → List Update
build_replacement_update ms compressed retained =
    map (λ m. remove (message_id m)) (keep has_id ms) ++ (add compressed ∷ map add retained)
