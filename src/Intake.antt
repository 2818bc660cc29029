-- ===== src/Intake.antt =====
-- `build_bounded_intake_messages` of backend/app/core/conversation_orchestration.py: the messages with
-- which a teaching task is taken in, within a budget of characters. It is modelled for a task without
-- calls of tools and without messages of provider blocks, which take another branch, and for a budget
-- of at least 80 characters, as the configuration asks for 1000 or more: no subtraction of the code
-- is below zero then.
pub mod Budget
use smart_class_agent.Common.{
  ℕ, ◌+◌, ◌-◌, ◌*◌, ◌/◌, max, min, Bool, true, false, ◌&&◌, ◌||◌, not, Option, none, some, List, [],
  ◌∷◌, ◌++◌, Text, any, keep, take, drop, length, ltb, leb, ◌==◌, if◌then◌else◌,
}
use smart_class_agent.History.Exchanges.{Message, human, ai, tool, system, is_empty}

-- What the code takes from Python on texts: `str.strip`, whether a text begins as a summary of an
-- attachment does, and the part of a summary before its storage paths.
pub record Texts : Type 0 where
  pub strip : Text → Text
  pub is_summary_text : Text → Bool
  pub summary_key : Text → Text

-- The keys of the state that are read; `previous` is the text on the metadata submitted before, if
-- there are any.
pub record IntakeState : Type 0 where
  pub messages : List Message
  pub start : ℕ
  pub previous : Option Text
  pub initial_request : Text

abbrev same_text : Text → Text → Bool
same_text [] [] = true
same_text (a ∷ s) (b ∷ t) = let rest = same_text s t in if a == b then rest else false
same_text _ _ = false

-- `message_text`
abbrev pub message_text : Message → Text
message_text (human i t) = t
message_text (ai i t calls) = t
message_text (tool i t call) = t
message_text (system i t compressed) = t

-- `_copy_with_bounded_content`
abbrev pub with_content : Text → Message → Message
with_content content (human i t) = human i content
with_content content (ai i t calls) = ai i content calls
with_content content (tool i t call) = tool i content call
with_content content (system i t compressed) = system i content compressed

abbrev is_system_message : Message → Bool
is_system_message (system i t compressed) = true
is_system_message _ = false

-- A result of a tool, or a message that calls one.
abbrev uses_tools : Message → Bool
uses_tools (ai i t calls) = not (is_empty calls)
uses_tools (tool i t call) = true
uses_tools _ = false

abbrev pub total : List Message → ℕ
total [] = 0
total (m ∷ ms) = length (message_text m) + total ms

backwards : List Message → List Message
backwards [] = []
backwards (m ∷ ms) = backwards ms ++ (m ∷ [])

module _ (X : Texts) where
  open X use {strip, is_summary_text, summary_key}

  -- Whether a message is eligible after the summaries seen so far, and those seen then.
  admit : List Text → Message → Option (List Text)
  admit seen m =
      let content = strip (message_text m) in
      let key = summary_key content in
      if uses_tools m || is_empty content
      then none
      else if is_system_message m && is_summary_text content
      then (if any (same_text key) seen then none else some (key ∷ seen))
      else some seen

  eligible_from : List Text → List Message → List Message
  unfolding admit
  eligible_from seen [] = []
  eligible_from seen (m ∷ ms) = elim (admit seen m) [
    | none ↦ eligible_from seen ms
    | some seen' ↦ m ∷ eligible_from seen' ms
  ]

  -- The first message and the last ones, where there are more than the turns allow.
  trim_turns : ℕ → List Message → List Message
  trim_turns maximum [] = []
  trim_turns maximum (m ∷ ms) =
      if ltb maximum (length (m ∷ ms))
      then m ∷ drop (length (m ∷ ms) - (maximum - 1)) (m ∷ ms)
      else m ∷ ms

  -- The content of a message as it is selected with `remaining` characters left, if it is.
  chosen : ℕ → Text → Option Text
  chosen remaining content =
      if is_empty content
      then none
      else if leb (length content) remaining
      then some content
      else if ltb remaining 80
      then none
      else some (drop (length content - remaining) content)

  -- The loop over the reversed messages, in its order.
  select : ℕ → List Message → List Message
  unfolding chosen
  select remaining [] = []
  select remaining (m ∷ ms) = elim (chosen remaining (strip (message_text m))) [
    | none ↦ select remaining ms
    | some content ↦ elim (leb (remaining - length content) 0) [
      | true ↦ with_content content m ∷ []
      | false ↦ with_content content m ∷ select (remaining - length content) ms
    ]
  ]

  previous_part : ℕ → Option Text → List Message
  previous_part budget none = []
  previous_part budget (some text) =
      system none (take (min 2000 (max 80 (budget / 4))) text) false ∷ []

  initial_part : ℕ → ℕ → Text → List Message
  initial_part budget remaining request =
      let content = take (min 4000 (min (max 80 (budget / 3)) remaining)) request in
      if is_empty content then [] else human none content ∷ []

  others : Text → List Message → List Message
  others request eligible =
      if is_empty request
      then eligible
      else keep (λ m. not (same_text (strip (message_text m)) request)) eligible

  -- `reversed(eligible)`
  reversed_eligible : ℕ → IntakeState → List Message
  unfolding eligible_from trim_turns others backwards
  reversed_eligible max_turns s = backwards (
      others (strip s.initial_request)
        (trim_turns (max_turns * 2 + 2) (eligible_from [] (drop s.start s.messages))))

  unfoldable pub build_bounded_intake_messages : (max_turns budget : ℕ) → IntakeState → List Message
  unfolding reversed_eligible select previous_part initial_part backwards
  build_bounded_intake_messages max_turns budget s =
      let first = previous_part budget s.previous in
      let second = initial_part budget (budget - total first) (strip s.initial_request) in
      (first ++ second)
      ++ backwards (select (budget - total first - total second) (reversed_eligible max_turns s))
