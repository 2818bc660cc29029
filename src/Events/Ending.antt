-- ===== src/Events/Ending.antt =====
-- The terminal event of a run is written once, and only at the next number.
use mathlib.Core.List.{append-nil}
use mathlib.Core.Path.{sym, ap}
use smart_class_agent.Common.{
  ℕ, suc, ◌+◌, ◌≤◌, ◌<◌, ◌≡◌, ◌≢◌, refl, Bool, true, false, Option, some, List, [], ◌∷◌, ◌++◌,
  length, ◌-◌, arith, length-append, Result, ok, err, any, ◌==◌, ltb,
}
use smart_class_agent.Events.Store.{Redis, Payload, Entry, number, top}
use smart_class_agent.Events.Scripts.{
  Terminal, terminal_script, write_done, done_entry, written, already_there, inconsistent,
}
use smart_class_agent.Events.Transport.{
  delivered, Network, Options, StoreError, attempt, execute, append_done, terminal_reply,
  terminal_inconsistent, token_text_of,
}
use smart_class_agent.Events.Consistency.{
  IsConsistent, NumberedAfter, NumberedAfter-append, top-NumberedAfter, output_of-append,
}

-- A numbered list has a row for each number up to its length.
has_number :
    (n target : ℕ) (es : List Entry)
    → NumberedAfter n es
    → n < target
    → target ≤ n + length es
    → any (λ e. e.sequence == target) es ≡ true
has_number n target [] h lo hi = absurd (omega arith)
has_number n target (e ∷ es) h lo hi = ground (arith, h.0, has_number (suc n) target es h.1)

-- One attempt whose reply arrives is the call itself.
module _ {ℓ} {K : Type ℓ} {A : Type 0} (net : Network) (callback : ℕ → K → K × Option A) (k k' : K)
    (a : A) where
  attempt_delivered :
      net 0 ≡ delivered
      → callback 0 k ≡ (k', some a)
      → attempt (net 0) (callback 0) k ≡ (k', some a)
  unfolding attempt
  attempt_delivered up ran = rw up ran

  pub execute_delivered :
      net 0 ≡ delivered → callback 0 k ≡ (k', some a) → execute net false 0 callback k ≡ (k', ok a)
  unfolding execute
  execute_delivered up ran = ground (arith, attempt_delivered up ran)

  -- The same of a call with retries, whose first attempt it is.
  pub execute_first :
      (retries : ℕ)
      → net 0 ≡ delivered
      → callback 0 k ≡ (k', some a)
      → execute net false retries callback k ≡ (k', ok a)
  unfolding execute
  execute_first retries up ran =
      let more : retries + 1 ≡ suc retries = omega arith in
      rw more (ground (arith, attempt_delivered up ran))

module _ (R : Redis) (options : Options) (net : Network) (clock : ℕ → ℕ) (payload : Payload) where
  open R use {
    Keys, stream, last_sequence, output, hset, xadd, expire, hset_last, hset_stream, hset_output,
    xadd_accepted, xadd_stream, xadd_last, xadd_output, expire_stream, expire_last, expire_output,
  }

  -- A call whose request and reply arrive answers what the script replies.
  delivered_call :
      (target : ℕ) (k k' : Keys) (reply : Terminal)
      → net 0 ≡ delivered
      → 0 < target
      → terminal_script R target payload (clock 0) options.terminal_retention_seconds k
        ≡ (k', some reply)
      → append_done R options net clock target payload k ≡ (k', terminal_reply R options (ok reply))
  unfolding append_done
  delivered_call target k k' reply up positive ran =
      let fine : ltb target 1 ≡ false = ground arith in
      let reached =
        execute_delivered net
          (λ i. terminal_script R target payload (clock i) options.terminal_retention_seconds) k k'
          reply up ran in
      rw fine (
        ap {B = Keys × Result StoreError Bool}
          (λ (r : Keys × Result StoreError Terminal). (r.0, terminal_reply R options r.1)) reached)

  module _ (target : ℕ) (k : Keys) (h : IsConsistent R k) (up : net 0 ≡ delivered)
      (positive : 0 < target) where
    added : Keys × Bool
    added = xadd (done_entry R target payload (clock 0)) k

    -- On consistent keys, a call with a positive number whose reply arrives writes the event if
    -- the number is the next one, as the last row, and leaves consistent keys.
    pub append_done_next :
        target ≡ suc (length (stream k))
        → let r = append_done R options net clock target payload k in
          (r.1 ≡ ok true)
          × (stream r.0 ≡ stream k ++ (done_entry R target payload (clock 0) ∷ []))
          × IsConsistent R r.0
    unfolding terminal_script write_done added terminal_reply done_entry
    append_done_next e =
        let free : ltb (top (stream k)) target ≡ true =
          ground (arith, top-NumberedAfter (stream k) h.numbered) in
        let t₁ : ltb target (number (last_sequence k)) ≡ false = ground (arith, h.counted) in
        let t₂ : (number (last_sequence k) == target) ≡ false = ground (arith, h.counted) in
        let t₃ : (number (last_sequence k) == target - 1) ≡ true = ground (arith, h.counted) in
        let accepted : added.1 ≡ true = rw xadd_accepted free in
        let end : Keys = expire options.terminal_retention_seconds (hset target added.0) in
        let ran : terminal_script R target payload (clock 0) options.terminal_retention_seconds k
            ≡ (end, some written) =
          rw (t₁, t₂, t₃, accepted) in
        let rows : stream end ≡ stream k ++ (done_entry R target payload (clock 0) ∷ []) =
          rw (expire_stream, hset_stream, xadd_stream, free) in
        rw (delivered_call target k end written up positive ran) (
          refl,
          rows,
          record {
            numbered = rw rows (NumberedAfter-append 0 (stream k) _ h.numbered (omega arith));
            counted = rw (rows, length-append, expire_last, hset_last) (omega arith);
            printed =
                rw (rows, output_of-append, expire_output, hset_output, xadd_output, h.printed)
                  (unfold token_text_of in sym (append-nil _));
          },
        )

    -- On consistent keys, a call with a positive number whose reply arrives changes nothing if the
    -- number is that of the last row, and answers that it wrote nothing.
    pub append_done_again :
        target ≡ length (stream k)
        → append_done R options net clock target payload k ≡ (k, ok false)
    unfolding terminal_script terminal_reply
    append_done_again e =
        delivered_call target k k already_there up positive
          (ground (arith, h.counted, has_number 0 target (stream k) h.numbered))

    -- On consistent keys with a row in the stream, a call with a positive number whose reply
    -- arrives raises and changes nothing, if the number is neither the next one nor that of the
    -- last row.
    pub append_done_refused :
        target ≢ suc (length (stream k))
        → target ≢ length (stream k)
        → 0 < length (stream k)
        → append_done R options net clock target payload k ≡ (k, err terminal_inconsistent)
    unfolding terminal_script terminal_reply
    append_done_refused n₁ n₂ alive =
        delivered_call target k k inconsistent up positive (ground (arith, h.counted))
