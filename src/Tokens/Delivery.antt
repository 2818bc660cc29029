-- ===== src/Tokens/Delivery.antt =====
-- No text is lost, repeated or reordered on its way through the buffer.
use mathlib.Core.List.{append-nil, append_assoc}
use mathlib.Core.Path.{sym, ap, ◌∙◌}
use smart_class_agent.Common.{
  ℕ, ◌+◌, ◌≡◌, refl, Bool, true, false, List, [], ◌∷◌, ◌++◌, Text, join, length, leb, if◌then◌else◌,
  if_cases,
}
use smart_class_agent.Tokens.{
  TokenBuffer, Outcome, returned, raised, new_buffer, publish_batch, flush_fragments, flush_locked,
  add_fragment, add, flush, close, timer_fires, keep_failure, after_flush,
}

-- What happens to a buffer; each call of `publish` on the way returns if the flag is set.
pub data Event : Type 0 where
  added : Text → Bool → Event
  flushed : Bool → Event
  fired : Bool → Event
  closed : Bool → Event

abbrev pub happen : Event → TokenBuffer → TokenBuffer
happen (added text up) b = (add text up b).0
happen (flushed up) b = (flush up b).0
happen (fired up) b = timer_fires up b
happen (closed up) b = (close up b).0

-- The text that an event hands over: `add` takes it unless it raises the failure of the timer.
abbrev pub taken : Event → TokenBuffer → Text
taken (added text up) b = if b.failure then [] else text
taken _ b = []

abbrev pub run : List Event → TokenBuffer → TokenBuffer
run [] b = b
run (e ∷ es) b = run es (happen e b)

abbrev pub all_taken : List Event → TokenBuffer → Text
all_taken [] b = []
all_taken (e ∷ es) b = taken e b ++ all_taken es (happen e b)

-- The text that was published, and then what waits.
abbrev pub content : TokenBuffer → Text
content b = join b.published ++ join b.fragments

pub join-append : (xs ys : List Text) → join (xs ++ ys) ≡ join xs ++ join ys
join-append [] ys = refl
join-append (x ∷ xs) ys = rw (join-append xs ys) (sym (append_assoc x (join xs) (join ys)))

content-publish_batch : (up : Bool) (b : TokenBuffer) → content (publish_batch up b).0 ≡ content b
unfolding publish_batch
content-publish_batch false b = refl
content-publish_batch true b = rw (append-nil, join-append, append-nil)

content-flush_fragments :
    (fs : List Text) (up : Bool) (b : TokenBuffer) → content (flush_fragments fs up b).0 ≡ content b
unfolding flush_fragments
content-flush_fragments [] up b = refl
content-flush_fragments (f ∷ fs) up b = content-publish_batch up b

-- A flush moves text from what waits to what is published, and does neither if it raises.
content-flush_locked : (up : Bool) (b : TokenBuffer) → content (flush_locked up b).0 ≡ content b
unfolding flush_locked
content-flush_locked up b = content-flush_fragments b.fragments up b

module _ (text : Text) (up : Bool) (b : TokenBuffer) where
  abbrev pub grown : TokenBuffer
  grown = record b {
    fragments = b.fragments ++ (text ∷ []);
    characters = b.characters + length text;
    timer = true;
  }

  content-grown : content grown ≡ content b ++ text
  content-grown =
      rw (join-append, append-nil) (sym (append_assoc (join b.published) (join b.fragments) text))

  content-add_fragment :
      content (add_fragment text up b).0 ≡ content b ++ (if b.failure then [] else text)
  unfolding add_fragment
  content-add_fragment =
      if_cases
        (λ (r : TokenBuffer × Outcome). content r.0 ≡ content b ++ (if b.failure then [] else text))
        b.failure _ _
        (λ e.
          let none_taken : (if b.failure then [] else text) ≡ [] = rw e in
          rw (none_taken, append-nil))
        (λ e.
          let all_of_it : (if b.failure then [] else text) ≡ text = rw e in
          rw all_of_it (
            if_cases (λ (r : TokenBuffer × Outcome). content r.0 ≡ content b ++ text)
              (leb grown.max_chars grown.characters) _ _
              (λ full. content-flush_locked up grown ∙ content-grown) (λ room. content-grown)))

content-after_flush : (r : TokenBuffer × Outcome) → content (after_flush r).0 ≡ content r.0
unfolding after_flush
content-after_flush (b, raised) = refl
content-after_flush (b, returned) = refl

content-keep_failure : (r : TokenBuffer × Outcome) → content (keep_failure r) ≡ content r.0
unfolding keep_failure
content-keep_failure (b, raised) = refl
content-keep_failure (b, returned) = refl

content-flush : (up : Bool) (b : TokenBuffer) → content (flush up b).0 ≡ content b
unfolding flush
content-flush up b =
    if_cases (λ (r : TokenBuffer × Outcome). content r.0 ≡ content b) b.failure _ _ (λ e. refl)
      (λ e. content-flush_locked up b)

-- One event adds to the content what it took, at the end.
content-happen : (e : Event) (b : TokenBuffer) → content (happen e b) ≡ content b ++ taken e b
unfolding add close timer_fires
content-happen (added [] up) b =
    if_cases (λ t. content b ≡ content b ++ t) b.failure [] [] (λ e. sym (append-nil _))
      (λ e. sym (append-nil _))
content-happen (added (c ∷ cs) up) b = content-add_fragment (c ∷ cs) up b
content-happen (flushed up) b = content-flush up b ∙ sym (append-nil _)
content-happen (fired up) b =
    if_cases (λ r. content r ≡ content b) b.timer _ _
      (λ e. content-keep_failure (flush_locked up b) ∙ content-flush_locked up b) (λ e. refl)
    ∙ sym (append-nil _)
content-happen (closed up) b =
    content-after_flush (flush up b) ∙ (content-flush up b ∙ sym (append-nil _))

content-run : (es : List Event) (b : TokenBuffer) → content (run es b) ≡ content b ++ all_taken es b
content-run [] b = sym (append-nil _)
content-run (e ∷ es) b =
    content-run es (happen e b)
    ∙ (ap (λ t. t ++ all_taken es (happen e b)) (content-happen e b)
        ∙ append_assoc (content b) (taken e b) (all_taken es (happen e b)))

-- Whatever is added, flushed, closed or fired by the timer, and whichever publications raise: the
-- batches that were published, followed by the fragments that wait, are the text that the buffer
-- took, in its order, each piece once.
pub buffer_loses_nothing :
    (max_chars : ℕ) (es : List Event)
    → join (run es (new_buffer max_chars)).published
        ++ join (run es (new_buffer max_chars)).fragments
      ≡ all_taken es (new_buffer max_chars)
unfolding new_buffer
buffer_loses_nothing max_chars es = content-run es (new_buffer max_chars)
