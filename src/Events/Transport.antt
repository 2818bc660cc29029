-- ===== src/Events/Transport.antt =====
-- `ChatRunRedis`: each operation is a call over a connection that may fail, and is retried.
-- The cache of script hashes is not modelled: a server without the script answers `NoScriptError`
-- with nothing done, and the code loads and calls it at once.
use smart_class_agent.Common.{
  ℕ, zero, suc, ◌+◌, String, Bool, true, false, not, ◌||◌, Option, none, some, List, [], ◌∷◌, Text,
  ltb, if◌then◌else◌, Result, ok, err, ◌>>=◌,
}
use smart_class_agent.Run.{LiveSnapshot}
use smart_class_agent.Events.Store.{
  Redis, EventType, Payload, Entry, is_supported, is_token, is_done, number, text_or_empty,
}
use smart_class_agent.Events.Scripts.{
  Terminal, inconsistent, already_there, written, append_script, terminal_script,
}

-- What becomes of one attempt: it runs and its reply arrives, the request is lost, or the reply is.
pub data Delivery : Type 0 where
  delivered lost_request lost_reply : Delivery

-- The deliveries of the attempts of a call, counted from 0.
abbrev pub Network : Type 0
Network = ℕ → Delivery

pub data StoreError : Type 0 where
  unsupported_event : EventType → StoreError
  terminal_not_positive : StoreError
  operation_failed : StoreError
  storage_unavailable : StoreError
  terminal_inconsistent : StoreError

module _ {ℓ} {K : Type ℓ} {A : Type 0} where
  -- One pass of the loop of `_execute`; a reply of `none` is a `RedisError` too.
  unfoldable pub attempt : Delivery → (K → K × Option A) → K → K × Option A
  attempt delivered callback k = callback k
  attempt lost_request callback k = (k, none)
  attempt lost_reply callback k = ((callback k).0, none)

  -- `for attempt in range(retries + 1)` from the attempt `i`, with `n` of them left. The callback
  -- takes the number of the attempt, as each reads the clock again.
  unfoldable pub attempts : Network → (ℕ → K → K × Option A) → (n i : ℕ) → K → K × Option A
  unfolding attempt
  attempts net callback zero i k = (k, none)
  attempts net callback (suc n) i k =
      let (k', reply) = attempt (net i) (callback i) k in
      elim reply [ none ↦ attempts net callback n (suc i) k' | some a ↦ (k', some a) ]

  -- `_execute`
  unfoldable pub execute :
      Network
      → (unavailable : Bool) → (retries : ℕ) → (ℕ → K → K × Option A)
      → K
      → K × Result StoreError A
  unfolding attempts
  execute net unavailable retries callback k =
      let (k', reply) = attempts net callback (retries + 1) 0 k in
      (
        k',
        elim reply [
          | some a ↦ ok a
          | none ↦ err (if unavailable then storage_unavailable else operation_failed)
        ],
      )

-- `payload.get("text") if event_type == "token" else ""`, or "" if it is no string.
unfoldable pub token_text_of : EventType → Payload → Text
token_text_of event payload = if is_token event then text_or_empty payload.text else []

-- `_decode_event`: the row, unless it is malformed.
pub record ChatRunEvent : Type 0 where
  pub run_id : String
  pub sequence : ℕ
  pub event_type : EventType
  pub payload : Payload
  pub created_at : ℕ

unfoldable pub decode_event : String → Entry → Option ChatRunEvent
decode_event run_id e =
    if ltb e.sequence 1 || not (is_supported e.event) then none else elim (e.data_field) [
      | none ↦ none
      | some payload ↦ elim (e.created_at) [
        | none ↦ none
        | some at ↦ some (record {
          run_id = run_id;
          sequence = e.sequence;
          event_type = e.event;
          payload = payload;
          created_at = at;
        })
      ]
    ]

-- The rows that decode, in order.
unfoldable pub decode_rows : String → List Entry → List ChatRunEvent
unfolding decode_event
decode_rows run_id [] = []
decode_rows run_id (e ∷ es) =
    let rest = decode_rows run_id es in
    elim (decode_event run_id e) [ none ↦ rest | some event ↦ event ∷ rest ]

-- The options of the client.
pub record Options : Type 0 where
  pub active_ttl_seconds : ℕ
  pub terminal_retention_seconds : ℕ
  pub append_max_retries : ℕ
  pub read_batch_size : ℕ
  pub read_block_ms : ℕ

module _ (R : Redis) (options : Options) where
  open R use {Keys, stream, last_sequence, output, xrange, xread, del}

  -- `clock i` is the time of the attempt `i`.
  unfoldable pub append :
      Network → (clock : ℕ → ℕ) → EventType → Payload → Keys → Keys × Result StoreError ℕ
  unfolding execute token_text_of
  append net clock event payload k =
      if not (is_supported event) || is_done event
      then (k, err (unsupported_event event))
      else execute net false options.append_max_retries
          (λ i.
            append_script R
              (record {
                event = event;
                payload = payload;
                token_text = token_text_of event payload;
                created_at = clock i;
              })
              options.active_ttl_seconds)
          k

  unfoldable pub terminal_reply : Result StoreError Terminal → Result StoreError Bool
  terminal_reply (err e) = err e
  terminal_reply (ok inconsistent) = err terminal_inconsistent
  terminal_reply (ok already_there) = ok false
  terminal_reply (ok written) = ok true

  -- `payload` holds the status. It tells whether this call wrote the event.
  unfoldable pub append_done :
      Network
      → (clock : ℕ → ℕ) → (sequence : ℕ) → (payload : Payload) → Keys
      → Keys × Result StoreError Bool
  unfolding execute terminal_reply
  append_done net clock sequence payload k =
      if ltb sequence 1
      then (k, err terminal_not_positive)
      else let (k', reply) =
          execute net false 0
            (λ i. terminal_script R sequence payload (clock i) options.terminal_retention_seconds)
            k in
        (k', terminal_reply reply)

  unfoldable pub snapshot_of : Option ℕ → Option Text → Option LiveSnapshot
  snapshot_of none none = none
  snapshot_of sequence text =
      some (record { last_sequence = number sequence; output_text = text_or_empty text })

  -- The pipeline is not a transaction; both reads see the keys of one run between its appends.
  unfoldable pub get_snapshot : Network → Keys → Result StoreError (Option LiveSnapshot)
  unfolding execute snapshot_of
  get_snapshot net k =
      (execute net false 0 (λ i k'. (k', some (snapshot_of (last_sequence k') (output k')))) k).1

  -- `limit or self.read_batch_size`
  unfoldable pub batch : Option ℕ → ℕ
  batch none = options.read_batch_size
  batch (some zero) = options.read_batch_size
  batch (some (suc n)) = suc n

  pub wait_ms : Option ℕ → ℕ
  wait_ms none = options.read_block_ms
  wait_ms (some ms) = ms

  unfoldable pub read_after :
      Network
      → String
      → (after_sequence : ℕ) → (block_ms limit : Option ℕ) → Keys
      → Result StoreError (List ChatRunEvent)
  unfolding execute batch wait_ms
  read_after net run_id after_sequence block_ms limit k = do
    rows ←
        (execute net false 0
          (λ i k'. (
            k',
            some (
                if ltb 0 (wait_ms block_ms)
                then xread after_sequence (batch limit) k'
                else xrange after_sequence (batch limit) k'),
          ))
          k).1
    ok (decode_rows run_id rows)

  unfoldable cleanup : Network → Keys → Keys × Result StoreError ℕ
  unfolding execute
  cleanup net k = execute net false 0 (λ i k'. ((del k').0, some (del k').1)) k
