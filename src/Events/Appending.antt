-- ===== src/Events/Appending.antt =====
-- What an append does to the keys of a run, however often its replies are lost.
use mathlib.Core.List.{append-nil}
use mathlib.Core.Path.{sym, ap, ◌∙◌}
use smart_class_agent.Common.{
  ℕ, suc, ◌≡◌, refl, Bool, true, false, some, [], ◌∷◌, ◌++◌, Text, length, ltb, if◌then◌else◌,
  arith, length-append, Bool-cases, inl, inr, not, ◌&&◌,
}
use smart_class_agent.Events.Store.{Redis, Entry, top, number, text_or_empty, is_token}
use smart_class_agent.Events.Scripts.{Message, append_script, is_empty}
use smart_class_agent.Events.Transport.{token_text_of}
use smart_class_agent.Events.Consistency.{
  IsConsistent, row_text, NumberedAfter-append, top-NumberedAfter, output_of-append,
}

-- The row that the script adds as number `n`.
abbrev pub row_of : Message → ℕ → Entry
row_of m n = record {
  sequence = n;
  event = m.event;
  data_field = some m.payload;
  created_at = some m.created_at;
}

-- Where the script appends no text, the row has none.
is_empty-eq_nil : (t : Text) → is_empty t ≡ true → t ≡ []
is_empty-eq_nil [] h = refl
is_empty-eq_nil (c ∷ cs) h = absurd (cc)

no_text :
    (m : Message)
    → (is_token m.event && not (is_empty m.token_text)) ≡ false
    → m.token_text ≡ token_text_of m.event m.payload
    → token_text_of m.event m.payload ≡ []
unfolding token_text_of
no_text m e t = elim (Bool-cases (is_token m.event)) [
  | inr plain ↦ rw plain
  | inl text ↦ sym t ∙ is_empty-eq_nil m.token_text (ground arith)
]

module _ (R : Redis) where
  open R use {
    Keys, stream, last_sequence, output, hincrby, xadd, append_text, expire, hincrby_value,
    hincrby_last, hincrby_stream, hincrby_output, xadd_accepted, xadd_stream, xadd_last,
    xadd_output, append_text_output, append_text_stream, append_text_last, expire_stream,
    expire_last, expire_output,
  }

  module _ (m : Message) (ttl : ℕ) (k : Keys) (h : IsConsistent R k) where
    added : Keys × Bool
    added = xadd (row_of m (suc (number (last_sequence k)))) (hincrby k).0

    free : ltb (top (stream k)) (suc (number (last_sequence k))) ≡ true
    free = ground (arith, top-NumberedAfter (stream k) h.numbered, h.counted)

    added_facts :
        (added.1 ≡ true)
        × (stream added.0 ≡ stream k ++ (row_of m (suc (length (stream k))) ∷ []))
        × (last_sequence added.0 ≡ some (suc (length (stream k))))
        × (output added.0 ≡ output k)
    unfolding added
    added_facts = (
      rw (xadd_accepted, hincrby_stream) free,
      rw (xadd_stream, hincrby_stream, free, h.counted),
      rw (xadd_last, hincrby_last, h.counted),
      rw (xadd_output, hincrby_output),
    )

    -- The keys as the script leaves them.
    written_text : Keys
    unfolding added
    written_text =
        if is_token m.event && not (is_empty m.token_text)
        then append_text m.token_text added.0
        else added.0

    written_facts :
        (stream written_text ≡ stream added.0)
        × (last_sequence written_text ≡ last_sequence added.0)
        × (m.token_text ≡ token_text_of m.event m.payload
            → text_or_empty (output written_text)
              ≡ text_or_empty (output added.0) ++ row_text (row_of m 0))
    unfolding written_text token_text_of
    written_facts = elim (Bool-cases (is_token m.event && not (is_empty m.token_text))) [
      | inl e ↦ (
        rw (e, append_text_stream),
        rw (e, append_text_last),
        λ t. rw (e, append_text_output) (ap (λ x. text_or_empty (output added.0) ++ x) t),
      )
      | inr e ↦ (rw e, rw e, λ t. rw (e, no_text m e t, append-nil))
    ]

    -- The script, on consistent keys and for a message whose token text is its payload's, answers
    -- the next number, adds the row with it at the end and keeps the keys consistent.
    pub append_script_effect :
        m.token_text ≡ token_text_of m.event m.payload
        → ((append_script R m ttl k).1 ≡ some (suc (length (stream k))))
          × (stream (append_script R m ttl k).0
              ≡ stream k ++ (row_of m (suc (length (stream k))) ∷ []))
          × IsConsistent R (append_script R m ttl k).0
    unfolding append_script written_text added
    append_script_effect t =
        let (accepted, rows, last, text) = added_facts in
        let (same_rows, same_last, more_text) = written_facts in
        let ran : append_script R m ttl k
            ≡ (expire ttl written_text, some (suc (number (last_sequence k)))) =
          rw (append_script, hincrby_value, accepted) in
        let rows' : stream (expire ttl written_text)
            ≡ stream k ++ (row_of m (suc (length (stream k))) ∷ []) =
          rw expire_stream (same_rows ∙ rows) in
        (
          rw (ran, h.counted),
          rw ran rows',
          rw ran (record {
            numbered = rw rows' (NumberedAfter-append 0 (stream k) _ h.numbered (omega arith));
            counted = rw (rows', length-append, expire_last, same_last, last) (omega arith);
            printed = rw (rows', output_of-append, expire_output, more_text t, text, h.printed);
          }),
        )
