-- ===== src/History/Exchanges.antt =====
-- backend/app/core/model_access/messages.py: the boundaries of tool exchanges, and the recent history.
use smart_class_agent.Common.{
  ℕ, suc, ◌-◌, String, Bool, true, false, ◌&&◌, not, Option, none, some, List, [], ◌∷◌, ◌++◌, Text,
  keep, any, take, drop, length, str_eq, leb, if◌then◌else◌, Result, ok, err, ◌>>=◌, ◌>>◌, guard,
  max,
}

pub record ToolCall : Type 0 where
  pub id : Option String
  pub name : String

pub data Message : Type 0 where
  human : Option String → Text → Message
  ai : Option String → Text → List ToolCall → Message
  tool : Option String → Text → String → Message
  -- a system message, with its flag of a compressed context
  system : Option String → Text → Bool → Message

pub data HistoryError : Type 0 where
  unfinished_exchange missing_or_duplicate_call unmatched_result : HistoryError

abbrev pub is_empty {ℓ} : {A : Type ℓ} → List A → Bool
is_empty [] = true
is_empty (x ∷ xs) = false

-- `isinstance(message, (HumanMessage, AIMessage))`
abbrev is_conversation : Message → Bool
is_conversation (human i t) = true
is_conversation (ai i t calls) = true
is_conversation _ = false

abbrev pub is_system : Message → Bool
is_system (system i t c) = true
is_system _ = false

-- The calls of a message are added to those that wait for a result.
unfoldable pub add_calls : List String → List ToolCall → Result HistoryError (List String)
add_calls pending [] = ok pending
add_calls pending (call ∷ calls) = elim call.id [
  | none ↦ err missing_or_duplicate_call
  | some id ↦
      let rest = add_calls (id ∷ pending) calls in
      if str_eq id ""
      then err missing_or_duplicate_call
      else if any (str_eq id) pending
      then err missing_or_duplicate_call
      else rest
]

-- What a message does to the calls that wait: the body of the loop, without the boundary.
unfoldable pub exchange_step : List String → Message → Result HistoryError (List String)
unfolding add_calls
exchange_step pending m =
    guard (not (not (is_empty pending) && is_conversation m)) unfinished_exchange >> (elim m [
      | human i t ↦ ok pending
      | ai i t calls ↦ add_calls pending calls
      | tool i t id ↦
          if any (str_eq id) pending
          then ok (keep (λ c. not (str_eq id c)) pending)
          else err unmatched_result
      | system i t c ↦ ok pending
    ])

-- The loop, from the index of the next message: the boundaries after the first one.
unfoldable pub boundaries_from : ℕ → List String → List Message → Result HistoryError (List ℕ)
unfolding exchange_step
boundaries_from index pending [] = ok []
boundaries_from index pending (m ∷ ms) = do
  pending' ← exchange_step pending m
  rest ← boundaries_from (suc index) pending' ms
  ok (if is_empty pending' then suc index ∷ rest else rest)

unfoldable pub exchange_boundaries : List Message → Result HistoryError (List ℕ)
unfolding boundaries_from
exchange_boundaries ms = do rest ← boundaries_from 0 [] ms; ok (0 ∷ rest)

-- `max((i for i in boundaries if i <= target), default=0)`
unfoldable pub last_boundary : ℕ → List ℕ → ℕ
last_boundary target [] = 0
last_boundary target (b ∷ bs) =
    let rest = last_boundary target bs in if leb b target then max b rest else rest

-- `max(0, len(messages) - limit)` for the target, of a limit that is not negative.
unfoldable pub recent_history : ℕ → List Message → Result HistoryError (List Message)
unfolding exchange_boundaries last_boundary
recent_history limit ms = do
  boundaries ← exchange_boundaries ms
  let cutoff = last_boundary (length ms - limit) boundaries in
      ok (keep is_system (take cutoff ms) ++ drop cutoff ms)
