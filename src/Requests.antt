-- ===== src/Requests.antt =====
-- Requests to a model: the errors and the budget of backend/app/core/model_access/errors.py, and the
-- retry loop `_agenerate` of backend/app/core/model_access/messages.py. Times are in milliseconds.
-- A cancellation from outside ends the loop at once and is not modelled.
pub mod Budget
use smart_class_agent.Common.{
  ℕ, zero, suc, ◌+◌, ◌-◌, max, min, String, Bool, true, false, ◌&&◌, ◌||◌, not, Option, none, some,
  is_some, List, [], ◌∷◌, any, ltb, leb, ◌==◌, if◌then◌else◌, Result, ok, err,
}

-- The categories of `ModelAccessError`.
pub data Category : Type 0 where
  authentication_error permission_error rate_limit server_error capability_error : Category
  timeout network_error validation_error model_error context_limit : Category
  budget_exhausted cancelled truncated refusal : Category

pub record ModelAccessError : Type 0 where
  pub category : Category
  pub retry_after : ℕ

-- What `classify` reads of an exception: its kind, the status of its answer, whether its body tells
-- of too long a context, whether its type or its name says timeout or connection, and the exception
-- that `langchain_google_genai` wraps.
pub data RequestError : Type 0 where
  model_access : ModelAccessError → RequestError
  config_error cancelled_error : RequestError
  wrapped : (too_long : Bool) → RequestError → RequestError
  answered :
      (too_long : Bool) (status : Option ℕ) (is_timeout is_connection is_value_error : Bool)
      (retry_after : ℕ)
      → RequestError

by_kind : Bool → Bool → Bool → Category
by_kind is_timeout is_connection is_value_error =
    if is_timeout
    then timeout
    else if is_connection
    then network_error
    else if is_value_error
    then validation_error
    else model_error

by_status : Option ℕ → Category → Category
by_status none other = other
by_status (some code) other =
    if code == 401
    then authentication_error
    else if code == 403
    then permission_error
    else if code == 429
    then rate_limit
    else if leb 500 code
    then server_error
    else if code == 400 || (code == 404 || code == 422)
    then capability_error
    else other

unfoldable pub classify : RequestError → Category
unfolding by_kind by_status
classify (model_access e) = e.category
classify config_error = capability_error
classify cancelled_error = cancelled
classify (wrapped too_long cause) =
    let inner = classify cause in if too_long then context_limit else inner
classify (answered too_long status t c v retry_after) =
    if too_long then context_limit else by_status status (by_kind t c v)

-- `normalized_error`: the delay is the `retry-after` of the answer.
unfoldable pub normalized_error : RequestError → ModelAccessError
unfolding classify
normalized_error (wrapped too_long cause) = normalized_error cause
normalized_error (answered too_long status t c v retry_after) = record {
  category = classify (answered too_long status t c v retry_after);
  retry_after = retry_after;
}
normalized_error exc = record { category = classify exc; retry_after = 0 }

abbrev pub is_retried : Category → Bool
is_retried rate_limit = true
is_retried server_error = true
is_retried network_error = true
is_retried timeout = true
is_retried _ = false

abbrev is_final : Category → Bool
is_final authentication_error = true
is_final permission_error = true
is_final capability_error = true
is_final budget_exhausted = true
is_final cancelled = true
is_final _ = false

unfoldable fallback_allowed : RequestError → Bool
unfolding classify
fallback_allowed exc = not (is_final (classify exc))

-- `RequestBudget.seconds`, at the time `now`.
abbrev pub seconds : (deadline now : ℕ) → ℕ
seconds deadline now = deadline - now

-- `RequestBudget.delay`: a tenth of a second at least, and less than what is left.
unfoldable pub delay : (deadline now remaining : ℕ) → ModelAccessError → Option ℕ
delay deadline now remaining error =
    let wait = max error.retry_after 100 in
    if not (is_retried error.category) || leb remaining 0
    then none
    else if ltb wait (seconds deadline now)
    then some wait
    else none

-- What the provider does with one attempt: its reply, once the completion is checked, and the time
-- that it takes for it.
pub record Attempt (A : Type 0) : Type 0 where
  pub reply : Result RequestError A
  pub took : ℕ

-- How a call ends: its result, the time, and the number of the requests that were sent.
pub record Answer (A : Type 0) : Type 0 where
  pub result : Result ModelAccessError A
  pub time : ℕ
  pub requests : ℕ

module _ {A : Type 0} (provider : ℕ → Attempt A) (deadline : ℕ) where
  -- `asyncio.timeout(budget.seconds)` around the attempt `i`.
  abbrev limited : ℕ → ℕ → Result RequestError A
  limited i now =
      if ltb (provider i).took (seconds deadline now)
      then (provider i).reply
      else err (answered false none true false false 0)

  abbrev pub after : ℕ → ℕ → ℕ
  after i now = now + min (provider i).took (seconds deadline now)

  -- The loop of `_agenerate` with `remaining` requests, from the attempt `i` at the time `now`.
  unfoldable pub agenerate : (remaining i now : ℕ) → Answer A
  unfolding delay normalized_error
  agenerate zero i now = record {
    result = err (record { category = budget_exhausted; retry_after = 0 });
    time = now;
    requests = 0;
  }
  agenerate (suc remaining) i now = elim (leb (seconds deadline now) 0) [
    | true ↦ record {
      result = err (record { category = budget_exhausted; retry_after = 0 });
      time = now;
      requests = 0;
    }
    | false ↦ elim (limited i now) [
      | ok a ↦ record { result = ok a; time = after i now; requests = 1 }
      | err exc ↦ elim (delay deadline (after i now) remaining (normalized_error exc)) [
        | none ↦ record { result = err (normalized_error exc); time = after i now; requests = 1 }
        | some wait ↦
            let next = agenerate remaining (suc i) (after i now + wait) in
            record next { requests = suc next.requests }
      ]
    ]
  ]
