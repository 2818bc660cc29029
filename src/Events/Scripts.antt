-- ===== src/Events/Scripts.antt =====
-- The two Lua scripts. A script is atomic, but what it has written before a command of it fails
-- stays written.
use smart_class_agent.Common.{
  ℕ, ◌-◌, Bool, true, false, ◌&&◌, not, Option, none, some, [], ◌∷◌, Text, any, ltb, ◌==◌,
  if◌then◌else◌,
}
use smart_class_agent.Events.Store.{Redis, EventType, Payload, Entry, is_token, done, number}

abbrev pub is_empty : Text → Bool
is_empty [] = true
is_empty (c ∷ cs) = false

-- What `append` hands to its script.
pub record Message : Type 0 where
  pub event : EventType
  pub payload : Payload
  pub token_text : Text
  pub created_at : ℕ

-- The replies of `_TERMINAL_SCRIPT`: -1, 0 and 1.
pub data Terminal : Type 0 where
  inconsistent already_there written : Terminal

module _ (R : Redis) where
  open R use {Keys, stream, last_sequence, hincrby, hset, xadd, append_text, expire}

  -- `_APPEND_SCRIPT`; `none` is an error reply.
  unfoldable pub append_script : Message → ℕ → Keys → Keys × Option ℕ
  append_script m ttl k =
      let (counted, sequence) = hincrby k in
      let (added, accepted) =
        xadd
          (record {
            sequence = sequence;
            event = m.event;
            data_field = some m.payload;
            created_at = some m.created_at;
          })
          counted in
      if accepted
      then (
        expire ttl (
            if is_token m.event && not (is_empty m.token_text)
            then append_text m.token_text added
            else added),
        some sequence,
      )
      else (added, none)

  -- The row that the script adds; `status` is the payload's.
  unfoldable pub done_entry : ℕ → Payload → ℕ → Entry
  done_entry target payload created_at = record {
    sequence = target;
    event = done;
    data_field = some payload;
    created_at = some created_at;
  }

  unfoldable pub write_done : ℕ → Payload → ℕ → ℕ → Keys → Keys × Option Terminal
  unfolding done_entry
  write_done target payload created_at ttl k =
      let (added, accepted) = xadd (done_entry target payload created_at) k in
      if accepted then (expire ttl (hset target added), some written) else (added, none)

  -- `_TERMINAL_SCRIPT`; `none` is an error reply.
  unfoldable pub terminal_script : ℕ → Payload → ℕ → ℕ → Keys → Keys × Option Terminal
  unfolding write_done
  terminal_script target payload created_at ttl k =
      let current = number (last_sequence k) in
      if ltb target current
      then (k, some inconsistent)
      else if current == target
      then (
        k,
        some (if any (λ e. e.sequence == target) (stream k) then already_there else inconsistent),
      )
      else if not (current == target - 1) && not (current == 0)
      then (k, some inconsistent)
      else write_done target payload created_at ttl k
