-- ===== src/Tokens/Bounds.antt =====
-- While the publications return, the buffer stays below its size, and waiting text has a timer.
use smart_class_agent.Common.{
  ℕ, ◌+◌, ◌<◌, ◌≡◌, refl, true, false, List, [], ◌∷◌, Text, join, length, leb, length-append, arith,
  if_cases, All, sym, ap, ◌∙◌,
}
use mathlib.Core.List.{append-nil}
use smart_class_agent.Tokens.{
  TokenBuffer, Outcome, returned, raised, new_buffer, flush_fragments, flush_locked, add_fragment,
  add, flush, close, timer_fires, keep_failure, after_flush,
}
use smart_class_agent.Tokens.Delivery.{
  Event, added, flushed, fired, closed, happen, run, join-append, grown,
}

-- The publications of an event return.
abbrev IsUp : Event → Type 0
IsUp (added text up) = up ≡ true
IsUp (flushed up) = up ≡ true
IsUp (fired up) = up ≡ true
IsUp (closed up) = up ≡ true

pub record IsSound (max_chars : ℕ) (b : TokenBuffer) : Type 0 where
  pub size : b.max_chars ≡ max_chars
  pub counted : b.characters ≡ length (join b.fragments)
  pub small : b.characters < max_chars
  pub healthy : b.failure ≡ false
  pub armed : b.timer ≡ false → b.fragments ≡ []

-- After a flush that returns nothing waits.
record IsFlushed (b r : TokenBuffer) : Type 0 where
  nothing : r.fragments ≡ []
  zero_characters : r.characters ≡ 0
  same_size : r.max_chars ≡ b.max_chars
  same_failure : r.failure ≡ b.failure

flush_locked-IsFlushed :
    (b : TokenBuffer)
    → b.characters ≡ length (join b.fragments)
    → IsFlushed b (flush_locked true b).0
unfolding flush_locked
flush_locked-IsFlushed b h = go b.fragments refl
  where
    go : (fs : List Text) → fs ≡ b.fragments → IsFlushed b (flush_fragments fs true b).0
    go [] e = record {
      nothing = sym e;
      zero_characters = h ∙ ap (λ l. length (join l)) (sym e);
      same_size = refl;
      same_failure = refl;
    }
    go (f ∷ fs) e = record {
      nothing = refl;
      zero_characters = refl;
      same_size = refl;
      same_failure = refl;
    }

flush_locked_returns : (b : TokenBuffer) → (flush_locked true b).1 ≡ returned
unfolding flush_locked
flush_locked_returns b = go b.fragments
  where
    go : (fs : List Text) → (flush_fragments fs true b).1 ≡ returned
    go [] = refl
    go (f ∷ fs) = refl

-- What follows a flush that returns only takes the timer away.
kept :
    (b : TokenBuffer) (x : TokenBuffer × Outcome)
    → x.1 ≡ returned
    → IsFlushed b x.0
    → IsFlushed b (keep_failure x)
unfolding keep_failure
kept b (r, raised) e f = absurd (cc)
kept b (r, returned) e f = record {
  nothing = f.nothing;
  zero_characters = f.zero_characters;
  same_size = f.same_size;
  same_failure = f.same_failure;
}

closed_after :
    (b : TokenBuffer) (x : TokenBuffer × Outcome) → IsFlushed b x.0 → IsFlushed b (after_flush x).0
unfolding after_flush
closed_after b (r, raised) f = f
closed_after b (r, returned) f = record {
  nothing = f.nothing;
  zero_characters = f.zero_characters;
  same_size = f.same_size;
  same_failure = f.same_failure;
}

module _ (max_chars : ℕ) (positive : 0 < max_chars) where
  IsFlushed-IsSound :
      (b r : TokenBuffer)
      → b.max_chars ≡ max_chars
      → b.failure ≡ false
      → IsFlushed b r
      → IsSound max_chars r
  IsFlushed-IsSound b r size healthy f = record {
    size = f.same_size ∙ size;
    counted = f.zero_characters ∙ sym (ap (λ l. length (join l)) f.nothing);
    small = omega (arith, f.zero_characters);
    healthy = f.same_failure ∙ healthy;
    armed = λ e. f.nothing;
  }

  flush-IsSound :
      (b : TokenBuffer) → IsSound max_chars b → IsSound max_chars (flush_locked true b).0
  flush-IsSound b h = IsFlushed-IsSound b _ h.size h.healthy (flush_locked-IsFlushed b h.counted)

  grown-counted :
      (text : Text) (b : TokenBuffer)
      → IsSound max_chars b
      → (grown text true b).characters ≡ length (join (grown text true b).fragments)
  grown-counted text b h =
      rw (join-append, append-nil, length-append) (ap (λ n. n + length text) h.counted)

  happen-IsSound :
      (e : Event) (b : TokenBuffer) → IsUp e → IsSound max_chars b → IsSound max_chars (happen e b)
  unfolding add add_fragment flush close timer_fires
  happen-IsSound (added [] up) b u h = h
  happen-IsSound (added (c ∷ cs) up) b u h = rw u (
      if_cases (λ (r : TokenBuffer × Outcome). IsSound max_chars r.0) b.failure _ _ (λ e. h)
        (λ e.
          if_cases (λ (r : TokenBuffer × Outcome). IsSound max_chars r.0)
            (leb b.max_chars (b.characters + length (c ∷ cs))) _ _
            (λ full.
              IsFlushed-IsSound (grown (c ∷ cs) true b) _ h.size h.healthy
                (flush_locked-IsFlushed (grown (c ∷ cs) true b) (grown-counted (c ∷ cs) b h)))
            (λ room. record {
              size = h.size;
              counted = grown-counted (c ∷ cs) b h;
              small = ground (arith, h.size);
              healthy = h.healthy;
              armed = λ t. absurd (cc);
            })))
  happen-IsSound (flushed up) b u h = rw u (
      if_cases (λ (r : TokenBuffer × Outcome). IsSound max_chars r.0) b.failure _ _ (λ e. h)
        (λ e. flush-IsSound b h))
  happen-IsSound (fired up) b u h = rw u (
      if_cases (λ r. IsSound max_chars r) b.timer _ _
        (λ e. IsFlushed-IsSound b _ h.size h.healthy (
          kept b (flush_locked true b) (flush_locked_returns b)
            (flush_locked-IsFlushed b h.counted)))
        (λ e. h))
  happen-IsSound (closed up) b u h = rw u (
      if_cases (λ (r : TokenBuffer × Outcome). IsSound max_chars (after_flush r).0) b.failure _ _
        (λ e. unfold after_flush in h)
        (λ e.
          IsFlushed-IsSound b _ h.size h.healthy
            (closed_after b (flush_locked true b) (flush_locked-IsFlushed b h.counted))))

  run-IsSound :
      (es : List Event) (b : TokenBuffer)
      → All IsUp es
      → IsSound max_chars b
      → IsSound max_chars (run es b)
  run-IsSound [] b u h = h
  run-IsSound (e ∷ es) b u h = run-IsSound es (happen e b) u.1 (happen-IsSound e b u.0 h)

  -- As long as every publication returns, a buffer of a positive size holds fewer characters than
  -- its size, counts them right, keeps no failure, and has a timer running whenever a fragment
  -- waits.
  pub buffer_bounded :
      (es : List Event) → All IsUp es → IsSound max_chars (run es (new_buffer max_chars))
  unfolding new_buffer
  buffer_bounded es u =
      run-IsSound es (new_buffer max_chars) u (record {
        size = refl;
        counted = refl;
        small = positive;
        healthy = refl;
        armed = λ e. refl;
      })
