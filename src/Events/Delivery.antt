-- ===== src/Events/Delivery.antt =====
-- An append over a connection that may lose requests and replies: the event is there at least once
-- if the call returns, and never more often than there were attempts.
use mathlib.Core.List.{append-nil, append_assoc}
use mathlib.Core.Path.{sym, ap, ◌∙◌}
use smart_class_agent.Common.{
  ℕ, zero, suc, ◌+◌, ◌≤◌, ◌<◌, ◌≡◌, refl, true, false, Option, none, some, List, [], ◌∷◌, ◌++◌,
  length, arith, length-append, All, All-append, ok, inl, inr, Option-cases,
}
use smart_class_agent.Events.Store.{Redis, EventType, Payload, Entry, is_supported, is_done}
use smart_class_agent.Events.Scripts.{Message, append_script}
use smart_class_agent.Events.Transport.{
  Delivery, delivered, lost_request, lost_reply, Network, Options, attempt, attempts, execute,
  append, token_text_of,
}
use smart_class_agent.Events.Consistency.{IsConsistent}
use smart_class_agent.Events.Appending.{row_of, append_script_effect}

module _ (R : Redis) (event : EventType) (payload : Payload) where
  open R use {Keys, stream}

  abbrev IsCopy : Entry → Type 0
  IsCopy e = (e.event ≡ event) × (e.data_field ≡ some payload)

  -- From `k` to `k'` the stream grew by copies of the event alone, at most `most` of them.
  pub record Grows (most : ℕ) (k k' : Keys) : Type 0 where
    pub copies : List Entry
    pub rows : stream k' ≡ stream k ++ copies
    pub same : All IsCopy copies
    pub few : length copies ≤ most
    pub consistent : IsConsistent R k'

  -- What a reply says of the keys.
  abbrev Answers : Keys → Keys → Option ℕ → Type 0
  Answers k k' none = Unit
  Answers k k' (some n) = (n ≡ length (stream k')) × (length (stream k) < n)

  module _ (clock : ℕ → ℕ) (ttl : ℕ) where
    abbrev message : ℕ → Message
    message i = record {
      event = event;
      payload = payload;
      token_text = token_text_of event payload;
      created_at = clock i;
    }

    abbrev call : ℕ → Keys → Keys × Option ℕ
    call i = append_script R (message i) ttl

    call-Grows :
        (i : ℕ) (k : Keys)
        → IsConsistent R k
        → Grows 1 k (call i k).0 × Answers k (call i k).0 (call i k).1
    call-Grows i k h =
        let (reply, rows, next) = append_script_effect R (message i) ttl k h refl in
        (
          record {
            copies = row_of (message i) (suc (length (stream k))) ∷ [];
            rows = rows;
            same = ((refl, refl), tt);
            few = omega arith;
            consistent = next;
          },
          rw (reply, rows, length-append) (omega arith, omega arith),
        )

    attempt-Grows :
        (d : Delivery) (i : ℕ) (k : Keys)
        → IsConsistent R k
        → Grows 1 k (attempt d (call i) k).0
          × Answers k (attempt d (call i) k).0 (attempt d (call i) k).1
    unfolding attempt
    attempt-Grows delivered i k h = call-Grows i k h
    attempt-Grows lost_request i k h = (
      record {
        copies = [];
        rows = sym (append-nil (stream k));
        same = tt;
        few = omega arith;
        consistent = h;
      },
      tt,
    )
    attempt-Grows lost_reply i k h = ((call-Grows i k h).0, tt)

    Grows-trans :
        {a b c : ℕ} {k₁ k₂ k₃ : Keys} → a + b ≤ c → Grows a k₁ k₂ → Grows b k₂ k₃ → Grows c k₁ k₃
    Grows-trans {k₁ = k₁} le g h = record {
      copies = g.copies ++ h.copies;
      rows = h.rows ∙ (ap (λ s. s ++ h.copies) g.rows ∙ append_assoc (stream k₁) g.copies h.copies);
      same = All-append IsCopy g.copies h.copies g.same h.same;
      few = rw length-append (omega (arith, g.few, h.few));
      consistent = h.consistent;
    }

    Answers-later :
        {a : ℕ} {k₁ k₂ : Keys}
        → Grows a k₁ k₂
        → (k₃ : Keys) (reply : Option ℕ) → Answers k₂ k₃ reply
        → Answers k₁ k₃ reply
    Answers-later g k₃ none h = tt
    Answers-later {k₁ = k₁} g k₃ (some n) h =
        (h.0, omega (arith, h.1, ap length g.rows, length-append (stream k₁) g.copies))

    attempts-Grows :
        (net : Network) (n i : ℕ) (k : Keys)
        → IsConsistent R k
        → Grows n k (attempts net call n i k).0
          × Answers k (attempts net call n i k).0 (attempts net call n i k).1
    unfolding attempts
    attempts-Grows net zero i k h = (
      record {
        copies = [];
        rows = sym (append-nil (stream k));
        same = tt;
        few = omega arith;
        consistent = h;
      },
      tt,
    )
    attempts-Grows net (suc n) i k h =
        let (grown, answer) = attempt-Grows (net i) i k h in
        let k' = (attempt (net i) (call i) k).0 in
        elim (Option-cases (attempt (net i) (call i) k).1) [
          | inl lost ↦
              let (more, later) = attempts-Grows net n (suc i) k' grown.consistent in
              rw (lost, attempts)
                (Grows-trans (omega arith) grown more, Answers-later grown _ _ later)
          | inr (v, got) ↦
              rw (got, attempts)
                (
                  record {
                    copies = grown.copies;
                    rows = grown.rows;
                    same = grown.same;
                    few = omega (arith, grown.few);
                    consistent = grown.consistent;
                  },
                  rw got at answer,
                )
        ]

    -- Every failed call raises `operation_failed`, and the keys are as the attempts left them.
    execute-Grows :
        (net : Network) (retries : ℕ) (k : Keys)
        → IsConsistent R k
        → Grows (retries + 1) k (execute net false retries call k).0
          × ((n : ℕ)
              → (execute net false retries call k).1 ≡ ok n
              → (n ≡ length (stream (execute net false retries call k).0))
                × (length (stream k) < n))
    unfolding execute
    execute-Grows net retries k h =
        let (grown, answer) = attempts-Grows net (retries + 1) 0 k h in
        (
          grown,
          λ n e. elim (Option-cases (attempts net call (retries + 1) 0 k).1) [
            | inl lost ↦ absurd (ground (arith, e))
            | inr (v, got) ↦ let same : v ≡ n = ground (arith, e) in rw (← same) (rw got at answer)
          ],
        )

module _ (R : Redis) (options : Options) (net : Network) (clock : ℕ → ℕ) where
  open R use {Keys, stream}

  -- From consistent keys, an append of a supported event that is not the terminal one leaves
  -- consistent keys, with copies of the event and nothing else added at the end of the stream: never
  -- more than there were attempts, whatever requests and replies were lost, and if the call returns
  -- then one at least, and it returns the number of the last row.
  pub append_at_least_once :
      (event : EventType) (payload : Payload) (k : Keys)
      → IsConsistent R k
      → is_supported event ≡ true
      → is_done event ≡ false
      → let r = append R options net clock event payload k in
        Grows R event payload (options.append_max_retries + 1) k r.0
        × ((n : ℕ) → r.1 ≡ ok n → (n ≡ length (stream r.0)) × (length (stream k) < n))
  unfolding append
  append_at_least_once event payload k h supported open' =
      rw (supported, open')
        (execute-Grows R event payload clock options.active_ttl_seconds net
          options.append_max_retries k h)
