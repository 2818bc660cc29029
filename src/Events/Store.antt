-- ===== src/Events/Store.antt =====
-- The events, and what the code relies on of Redis: the commands that its scripts call, on the
-- three keys of one run, with their documented behaviour.
use smart_class_agent.Common.{
  ℕ, suc, ◌≡◌, String, Bool, true, false, Option, none, some, List, [], ◌∷◌, ◌++◌, Text, keep, take,
  ltb, if◌then◌else◌,
}

-- `SUPPORTED_EVENT_TYPES`, and any other name.
pub data EventType : Type 0 where
  metadata progress token artifact artifact_trace approval suggestions error done : EventType
  unsupported : String → EventType

abbrev pub is_supported : EventType → Bool
is_supported (unsupported name) = false
is_supported _ = true

abbrev pub is_token : EventType → Bool
is_token token = true
is_token _ = false

abbrev pub is_done : EventType → Bool
is_done done = true
is_done _ = false

-- A JSON object: the `text` that it has, if that is a string, and the rest of it.
pub record Payload : Type 0 where
  pub text : Option Text
  pub rest : String

-- A row of the stream. Its fields are texts, which may fail to parse: `data` is `none` if it is no
-- JSON object, and `created_at` if it is no date.
pub record Entry : Type 0 where
  pub sequence : ℕ
  pub event : EventType
  pub data_field : Option Payload
  pub created_at : Option ℕ

-- The number of the last entry.
abbrev pub top : List Entry → ℕ
top [] = 0
top (e ∷ []) = e.sequence
top (e ∷ e' ∷ es) = top (e' ∷ es)

abbrev pub number : Option ℕ → ℕ
number none = 0
number (some n) = n

abbrev pub text_or_empty : Option Text → Text
text_or_empty none = []
text_or_empty (some t) = t

-- The rows above a cursor, at most `count` of them.
abbrev pub rows_after : ℕ → ℕ → List Entry → List Entry
rows_after cursor count rows = take count (keep (λ e. ltb cursor e.sequence) rows)

-- `Keys` is the state of the stream, of the hash field `last_sequence` and of the output string. A
-- key that does not exist is an empty stream, or `none`.
pub record Redis : Type 1 where
  pub Keys : Type 0
  pub stream : Keys → List Entry
  pub last_sequence : Keys → Option ℕ
  pub output : Keys → Option Text
  pub hincrby : Keys → Keys × ℕ
  pub hset : ℕ → Keys → Keys
  -- refused if the identifier is not above that of the last entry
  pub xadd : Entry → Keys → Keys × Bool
  pub append_text : Text → Keys → Keys
  pub expire : ℕ → Keys → Keys
  pub del : Keys → Keys × ℕ
  pub xrange : ℕ → ℕ → Keys → List Entry
  pub xread : ℕ → ℕ → Keys → List Entry
  pub hincrby_value : (k : Keys) → (hincrby k).1 ≡ suc (number (last_sequence k))
  pub hincrby_last :
      (k : Keys) → last_sequence (hincrby k).0 ≡ some (suc (number (last_sequence k)))
  pub hincrby_stream : (k : Keys) → stream (hincrby k).0 ≡ stream k
  pub hincrby_output : (k : Keys) → output (hincrby k).0 ≡ output k
  pub hset_last : (n : ℕ) (k : Keys) → last_sequence (hset n k) ≡ some n
  pub hset_stream : (n : ℕ) (k : Keys) → stream (hset n k) ≡ stream k
  pub hset_output : (n : ℕ) (k : Keys) → output (hset n k) ≡ output k
  pub xadd_accepted : (e : Entry) (k : Keys) → (xadd e k).1 ≡ ltb (top (stream k)) e.sequence
  pub xadd_stream :
      (e : Entry) (k : Keys)
      → stream (xadd e k).0
        ≡ (if ltb (top (stream k)) e.sequence then stream k ++ (e ∷ []) else stream k)
  pub xadd_last : (e : Entry) (k : Keys) → last_sequence (xadd e k).0 ≡ last_sequence k
  pub xadd_output : (e : Entry) (k : Keys) → output (xadd e k).0 ≡ output k
  pub append_text_output :
      (t : Text) (k : Keys) → output (append_text t k) ≡ some (text_or_empty (output k) ++ t)
  pub append_text_stream : (t : Text) (k : Keys) → stream (append_text t k) ≡ stream k
  pub append_text_last : (t : Text) (k : Keys) → last_sequence (append_text t k) ≡ last_sequence k
  pub expire_stream : (s : ℕ) (k : Keys) → stream (expire s k) ≡ stream k
  pub expire_last : (s : ℕ) (k : Keys) → last_sequence (expire s k) ≡ last_sequence k
  pub expire_output : (s : ℕ) (k : Keys) → output (expire s k) ≡ output k
  pub del_stream : (k : Keys) → stream (del k).0 ≡ []
  pub del_last : (k : Keys) → last_sequence (del k).0 ≡ none
  pub del_output : (k : Keys) → output (del k).0 ≡ none
  pub xrange_rows :
      (cursor count : ℕ) (k : Keys) → xrange cursor count k ≡ rows_after cursor count (stream k)
  pub xread_rows :
      (cursor count : ℕ) (k : Keys) → xread cursor count k ≡ rows_after cursor count (stream k)
