-- ===== src/Tokens.antt =====
-- `_TokenEventBuffer` of backend/app/core/chat_runs.py: the text of a model's answer is published
-- in batches, when enough of it is there, when an interval has passed, and before other events.
-- The lock of the buffer makes each method one step. A call of `publish` returns or raises, as its
-- argument `up` says; the batches that it returned for are kept in `published`, which the code has
-- not. The timer's task is its presence: it fires once or is cancelled.
pub mod Delivery
pub mod Bounds
pub mod Publishing
use smart_class_agent.Common.{
  ℕ, ◌+◌, Bool, true, false, List, [], ◌∷◌, ◌++◌, Text, join, length, leb, if◌then◌else◌,
}

pub record TokenBuffer : Type 0 where
  pub max_chars : ℕ
  pub fragments : List Text
  pub characters : ℕ
  pub timer : Bool
  pub failure : Bool
  pub published : List Text

pub data Outcome : Type 0 where
  returned raised : Outcome

unfoldable pub new_buffer : ℕ → TokenBuffer
new_buffer max_chars = record {
  max_chars = max_chars;
  fragments = [];
  characters = 0;
  timer = false;
  failure = false;
  published = [];
}

-- The rest of `_flush_locked` where there are fragments: the timer is cancelled first, and the
-- fragments go only after the publication.
publish_batch : Bool → TokenBuffer → TokenBuffer × Outcome
publish_batch false b = (record b { timer = false }, raised)
publish_batch true b = (
  record b {
    timer = false;
    fragments = [];
    characters = 0;
    published = b.published ++ (join b.fragments ∷ []);
  },
  returned,
)

-- `if not self._fragments: return`, told by the fragments.
flush_fragments : List Text → Bool → TokenBuffer → TokenBuffer × Outcome
flush_fragments [] up b = (b, returned)
flush_fragments (f ∷ fs) up b = publish_batch up b

pub flush_locked : Bool → TokenBuffer → TokenBuffer × Outcome
unfolding flush_fragments publish_batch
flush_locked up b = flush_fragments b.fragments up b

-- The rest of `add` for a text that is not empty.
add_fragment : Text → Bool → TokenBuffer → TokenBuffer × Outcome
unfolding flush_locked
add_fragment text up b =
    let b' = record b {
      fragments = b.fragments ++ (text ∷ []);
      characters = b.characters + length text;
      timer = true;
    } in
    if b.failure
    then (b, raised)
    else if leb b'.max_chars b'.characters
    then flush_locked up b'
    else (b', returned)

pub add : Text → Bool → TokenBuffer → TokenBuffer × Outcome
unfolding add_fragment
add [] up b = (b, returned)
add (c ∷ cs) up b = add_fragment (c ∷ cs) up b

pub flush : Bool → TokenBuffer → TokenBuffer × Outcome
unfolding flush_locked
flush up b = if b.failure then (b, raised) else flush_locked up b

-- `close` cancels the timer only if its flush has not raised.
after_flush : TokenBuffer × Outcome → TokenBuffer × Outcome
after_flush (b, raised) = (b, raised)
after_flush (b, returned) = (record b { timer = false }, returned)

pub close : Bool → TokenBuffer → TokenBuffer × Outcome
unfolding flush after_flush
close up b = after_flush (flush up b)

-- A raise inside the timer's task is kept in `_failure`, for the next call to raise.
keep_failure : TokenBuffer × Outcome → TokenBuffer
keep_failure (b, raised) = record b { failure = true; timer = false }
keep_failure (b, returned) = record b { timer = false }

-- `_flush_after_interval`, when the interval is over; a cancelled timer does nothing.
pub timer_fires : Bool → TokenBuffer → TokenBuffer
unfolding flush_locked keep_failure
timer_fires up b = if b.timer then keep_failure (flush_locked up b) else b
