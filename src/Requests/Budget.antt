-- ===== src/Requests/Budget.antt =====
-- A call of a model stays within its budget.
use smart_class_agent.Common.{
  ℕ, zero, suc, ◌+◌, ◌≤◌, ◌<◌, ◌≡◌, true, some, leb, arith, Bool-cases, Option-cases, Result-cases,
  inl, inr,
}
use smart_class_agent.Requests.{
  ModelAccessError, Attempt, Answer, seconds, delay, limited, after, agenerate, normalized_error,
  is_retried,
}

delay-fits :
    (deadline now remaining : ℕ) (e : ModelAccessError) (wait : ℕ)
    → delay deadline now remaining e ≡ some wait
    → (wait < seconds deadline now) × (0 < remaining) × (is_retried e.category ≡ true)
unfolding delay
delay-fits deadline now remaining e wait h = ground arith

module _ {A : Type 0} (provider : ℕ → Attempt A) (deadline : ℕ) where
  -- What a call promises.
  abbrev Fits : (remaining now : ℕ) → Answer A → Type 0
  Fits remaining now r = (r.requests ≤ remaining) × (now ≤ r.time) × (r.time ≤ deadline)

  after-fits :
      (i now : ℕ)
      → now ≤ deadline
      → (now ≤ after provider deadline i now) × (after provider deadline i now ≤ deadline)
  after-fits i now h = (omega arith, omega arith)

  -- A call that starts before its deadline ends by it, whatever the provider answers and however
  -- long it takes, and sends at most the number of requests that its budget has.
  pub agenerate-fits :
      (remaining i now : ℕ)
      → now ≤ deadline
      → let r = agenerate provider deadline remaining i now in
        (r.requests ≤ remaining) × (now ≤ r.time) × (r.time ≤ deadline)
  unfolding agenerate
  agenerate-fits zero i now h = (omega arith, omega arith, h)
  agenerate-fits (suc remaining) i now h = elim (Bool-cases (leb (seconds deadline now) 0)) [
    | inl over ↦ rw (agenerate, over) (omega arith, omega arith, h)
    | inr time ↦
        let (later, in_time) = after-fits i now h in
        elim (Result-cases (limited provider deadline i now)) [
          | inl (a, got) ↦ rw (agenerate, time, got) (omega arith, later, in_time)
          | inr (exc, raised) ↦
              elim (Option-cases
                (delay deadline (after provider deadline i now) remaining (normalized_error exc))) [
                  | inl stop ↦ rw (agenerate, time, raised, stop) (omega arith, later, in_time)
                  | inr (wait, go) ↦
                      let (short, _, _) =
                        delay-fits deadline (after provider deadline i now) remaining
                          (normalized_error exc) wait go in
                      let (few, on, by) =
                        agenerate-fits remaining (suc i) (after provider deadline i now + wait)
                          (omega arith) in
                      rw (agenerate, time, raised, go) (omega arith, omega arith, by)
                ]
        ]
  ]
