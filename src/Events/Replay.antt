-- ===== src/Events/Replay.antt =====
-- Where a subscription reads on, and what its reads yield together.
use mathlib.Core.Path.{sym, ap, subst, ◌∙◌}
use smart_class_agent.Common.{
  ℕ, zero, suc, ◌+◌, ◌≤◌, ◌≡◌, String, refl, false, Option, some, List, [], ◌∷◌, ◌++◌, arith, take,
  drop, keep, ltb, take-add, drop-drop, drop-nil, Option-cases, ok, ◌>>=◌, if◌then◌else◌,
  Bool-cases, inl, inr, ◌⊎◌, length, ok-injective, take-take, take-drop_append, length-take_within,
  length-take-le,
}
use smart_class_agent.Events.Store.{Redis, Entry, rows_after}
use smart_class_agent.Events.Transport.{
  delivered, Network, Options, ChatRunEvent, read_after, decode_rows, decode_event, batch, wait_ms,
}
use smart_class_agent.Events.Consistency.{IsConsistent, NumberedAfter}
use smart_class_agent.Events.Ending.{execute_delivered}

-- The rows above a cursor are those from its place on.
abbrev above : ℕ → List Entry → List Entry
above cursor es = keep (λ e. ltb cursor e.sequence) es

above-all : (n a : ℕ) (es : List Entry) → NumberedAfter n es → a ≤ n → above a es ≡ es
above-all n a [] h le = refl
above-all n a (e ∷ es) h le = ground (arith, h.0, above-all (suc n) a es h.1)

above-drop : (n a c : ℕ) (es : List Entry) → NumberedAfter n es → a ≡ n + c → above a es ≡ drop c es
above-drop n a c [] h e = sym (drop-nil c)
above-drop n a zero (x ∷ xs) h e = above-all n a (x ∷ xs) h (omega arith)
above-drop n a (suc c) (x ∷ xs) h e =
    let below : ltb a x.sequence ≡ false = ground (arith, h.0) in
    rw below (above-drop (suc n) a c xs h.1 (omega arith))

decode_rows-append :
    (run_id : String) (xs ys : List Entry)
    → decode_rows run_id (xs ++ ys) ≡ decode_rows run_id xs ++ decode_rows run_id ys
unfolding decode_rows
decode_rows-append run_id [] ys = refl
decode_rows-append run_id (x ∷ xs) ys = elim (Option-cases (decode_event run_id x)) [
  | inl e ↦ rw (e, decode_rows) (decode_rows-append run_id xs ys)
  | inr (v, e) ↦ rw (e, decode_rows) (ap (λ l. v ∷ l) (decode_rows-append run_id xs ys))
]

-- `current_sequence` of a subscription that starts at a cursor, after it has sent some events: the
-- place from which it reads on.
abbrev pub resume_at : ℕ → List ChatRunEvent → ℕ
resume_at cursor [] = cursor
resume_at cursor (v ∷ vs) = resume_at v.sequence vs

decode_event-sequence :
    (run_id : String) (e : Entry) (v : ChatRunEvent)
    → decode_event run_id e ≡ some v
    → v.sequence ≡ e.sequence
unfolding decode_event
decode_event-sequence run_id e v h = ground arith

resume_at_cases :
    (n : ℕ) (vs : List ChatRunEvent) → (vs ≡ []) ⊎ (resume_at n vs ≡ resume_at (suc n) vs)
resume_at_cases n [] = inl refl
resume_at_cases n (v ∷ vs) = inr refl

-- The rows up to the last one that decodes: the place where a subscription resumes.
record IsReached (run_id : String) (n : ℕ) (es : List Entry) (c : ℕ) : Type 0 where
  within : c ≤ length es
  place : resume_at n (decode_rows run_id es) ≡ n + c
  all_sent : decode_rows run_id (take c es) ≡ decode_rows run_id es

decode_rows-IsReached :
    (run_id : String) (n : ℕ) (es : List Entry)
    → NumberedAfter n es
    → (c : ℕ) × IsReached run_id n es c
unfolding decode_rows
decode_rows-IsReached run_id n [] h =
    (0, record { within = omega arith; place = omega arith; all_sent = refl })
decode_rows-IsReached run_id n (e ∷ es) h =
    let (c, r) = decode_rows-IsReached run_id (suc n) es h.1 in
    elim (Option-cases (decode_event run_id e)) [
      | inr (v, got) ↦
          let at : v.sequence ≡ suc n = decode_event-sequence run_id e v got ∙ h.0 in
          (
            suc c,
            record {
              within = omega (arith, r.within);
              place = rw (decode_rows, got, at) (omega (arith, r.place));
              all_sent = rw (decode_rows, got) (ap (λ l. v ∷ l) r.all_sent);
            },
          )
      | inl lost ↦ elim (resume_at_cases n (decode_rows run_id es)) [
        | inl empty ↦ (
          0,
          record {
            within = omega arith;
            place = rw (decode_rows, lost, empty) (omega arith);
            all_sent = rw (decode_rows, lost, empty) refl;
          },
        )
        | inr same ↦ (
          suc c,
          record {
            within = omega (arith, r.within);
            place = rw (decode_rows, lost, same) (omega (arith, r.place));
            all_sent = rw (decode_rows, lost) r.all_sent;
          },
        )
      ]
    ]

NumberedAfter-drop :
    (n c : ℕ) (es : List Entry) → NumberedAfter n es → NumberedAfter (n + c) (drop c es)
NumberedAfter-drop n zero es h = subst (λ x. NumberedAfter x es) {x = n} {y = n + 0} (omega arith) h
NumberedAfter-drop n (suc c) [] h = tt
NumberedAfter-drop n (suc c) (e ∷ es) h =
    subst (λ x. NumberedAfter x (drop c es)) {x = suc n + c} {y = n + suc c} (omega arith)
      (NumberedAfter-drop (suc n) c es h.1)

NumberedAfter-take : (n m : ℕ) (es : List Entry) → NumberedAfter n es → NumberedAfter n (take m es)
NumberedAfter-take n zero es h = tt
NumberedAfter-take n (suc m) [] h = tt
NumberedAfter-take n (suc m) (e ∷ es) h = (h.0, NumberedAfter-take (suc n) m es h.1)

two_windows :
    (run_id : String) (cursor c n : ℕ) (es : List Entry) (xs : List ChatRunEvent)
    → xs ≡ decode_rows run_id (take c (drop cursor es))
    → xs ++ decode_rows run_id (take n (drop (cursor + c) es))
      ≡ decode_rows run_id (take (c + n) (drop cursor es))
two_windows run_id cursor c n es xs own =
    rw (own, ← drop-drop cursor c es, ← decode_rows-append) (rw (take-add c n (drop cursor es)))

module _ (R : Redis) (options : Options) (run_id : String) where
  open R use {Keys, stream, xrange, xread, xrange_rows, xread_rows}

  -- On consistent keys, a read whose reply arrives yields what decodes of the rows behind the
  -- cursor, as many as the limit allows, whether it waits or not.
  pub read_after_window :
      (net : Network) (cursor : ℕ) (block_ms limit : Option ℕ) (k : Keys)
      → net 0 ≡ delivered
      → IsConsistent R k
      → read_after R options net run_id cursor block_ms limit k
        ≡ ok (decode_rows run_id (take (batch R options limit) (drop cursor (stream k))))
  unfolding read_after
  read_after_window net cursor block_ms limit k up h =
      let size = batch R options limit in
      let rows = λ (k' : Keys).
        if ltb 0 (wait_ms R options block_ms)
        then xread cursor size k'
        else xrange cursor size k' in
      let reached = execute_delivered net (λ i k'. (k', some (rows k'))) k k (rows k) up refl in
      let same : rows k ≡ rows_after cursor size (stream k) =
        elim (Bool-cases (ltb 0 (wait_ms R options block_ms))) [
          | inl e ↦ rw e (xread_rows cursor size k)
          | inr e ↦ rw e (xrange_rows cursor size k)
        ] in
      rw reached (rw (same, above-drop 0 cursor cursor (stream k) h.numbered (omega arith)))

  batch_positive : (m : ℕ) → 1 ≤ m → batch R options (some m) ≡ m
  unfolding batch
  batch_positive zero h = absurd (omega (arith, h))
  batch_positive (suc m) h = refl

  -- A subscription reads, sends what the reply holds, and reads on from the number of the last event
  -- that it sent (or from its old cursor, if the rows of the reply were all malformed), on a stream
  -- that has grown in between. On consistent keys, and over calls whose replies arrive: it has then
  -- sent what one read of the grown stream from the first cursor yields, with a limit of as many
  -- rows as the two reads went over. No event is missed, repeated or put in another order.
  pub read_after_resumed :
      (net₁ net₂ net₃ : Network) (cursor m n : ℕ) (block₁ block₂ block₃ : Option ℕ) (k k' : Keys)
      (later : List Entry) (xs : List ChatRunEvent)
      → net₁ 0 ≡ delivered
      → net₂ 0 ≡ delivered
      → net₃ 0 ≡ delivered
      → IsConsistent R k
      → IsConsistent R k'
      → stream k' ≡ stream k ++ later
      → read_after R options net₁ run_id cursor block₁ (some (suc m)) k ≡ ok xs
      → (c : ℕ) × (c ≤ suc m)
        × (resume_at cursor xs ≡ cursor + c)
        × ((do
          ys ← read_after R options net₂ run_id (resume_at cursor xs) block₂ (some (suc n)) k'
          ok (xs ++ ys))
            ≡ read_after R options net₃ run_id cursor block₃ (some (c + suc n)) k')
  read_after_resumed net₁ net₂ net₃ cursor m n block₁ block₂ block₃ k k' later xs u₁ u₂ u₃ h h'
        grown first_read =
      let rows = drop cursor (stream k) in
      let numbered = NumberedAfter-drop 0 cursor (stream k) h.numbered in
      let from_cursor : NumberedAfter cursor rows =
        subst (λ x. NumberedAfter x rows) {x = 0 + cursor} {y = cursor} (omega arith) numbered in
      let (c, r) =
        decode_rows-IsReached run_id cursor (take (suc m) rows)
          (NumberedAfter-take cursor (suc m) rows from_cursor) in
      let sent : xs ≡ decode_rows run_id (take (suc m) rows) = ok-injective (
        sym first_read
        ∙ read_after_window net₁ cursor block₁ (some (suc m)) k u₁ h
        ∙ rw (batch_positive (suc m) (omega arith)) refl) in
      let grown_rows = drop cursor (stream k') in
      let same : take c (take (suc m) rows) ≡ take c grown_rows =
        take-take c (suc m) rows r.within
        ∙ sym (
            rw grown (
              take-drop_append c cursor (stream k) later
                (omega (arith, r.within, length-take_within (suc m) rows)))) in
      let own : xs ≡ decode_rows run_id (take c grown_rows) =
        sent ∙ sym r.all_sent ∙ ap (decode_rows run_id) same in
      let place : resume_at cursor xs ≡ cursor + c = ap (resume_at cursor) sent ∙ r.place in
      (
        c,
        omega (arith, r.within, length-take-le (suc m) rows),
        place,
        rw
            (
              place,
              read_after_window net₂ (cursor + c) block₂ (some (suc n)) k' u₂ h',
              read_after_window net₃ cursor block₃ (some (c + suc n)) k' u₃ h',
              batch_positive (suc n) (omega arith),
              batch_positive (c + suc n) (omega arith),
            )
            (ap (λ l. ok l) (two_windows run_id cursor c (suc n) (stream k') xs own)),
      )
