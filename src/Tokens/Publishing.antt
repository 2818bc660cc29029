-- ===== src/Tokens/Publishing.antt =====
-- What the buffer publishes, and when: the text of a call that returns is the batch that it
-- published, if it published one, followed by what waits afterwards.
use mathlib.Core.List.{append-nil}
use mathlib.Core.Path.{Path, sym, ap, ◌∙◌}
use smart_class_agent.Common.{
  ℕ, ◌+◌, Bool, true, false, ◌&&◌, not, List, [], ◌∷◌, ◌++◌, Text, join, length, leb, ◌≡◌, refl,
  if◌then◌else◌, Bool-cases, inl, inr,
}
use smart_class_agent.Tokens.{
  TokenBuffer, Outcome, returned, raised, publish_batch, flush_fragments, flush_locked,
  add_fragment, add, flush, after_flush, close, keep_failure, timer_fires,
}
use smart_class_agent.Tokens.Delivery.{join-append, grown}

abbrev pub has_fragments : TokenBuffer → Bool
has_fragments b = elim (b.fragments) [ [] ↦ false | f ∷ fs ↦ true ]

-- A call of `add` publishes if its text fills the buffer, one of `flush` or `close` if a text waits,
-- and the timer if it still runs then.
abbrev pub fills : Text → TokenBuffer → Bool
fills [] b = false
fills (c ∷ cs) b = not b.failure && leb b.max_chars (b.characters + length (c ∷ cs))

abbrev pub waits : TokenBuffer → Bool
waits b = has_fragments b && not b.failure

abbrev pub due : TokenBuffer → Bool
due b = b.timer && has_fragments b

-- A call whose publication returns: it returns and keeps no failure.
pub record Passes (r : TokenBuffer × Outcome) : Type 0 where
  pub calm : r.0.failure ≡ false
  pub fine : r.1 ≡ returned

abbrev batch : Bool → Text → Text
batch full text = if full then text else []

raised-returned : Path Outcome raised returned → ⊥
raised-returned e = cc

flush_fragments-sent :
    (fs : List Text) (b : TokenBuffer)
    → b.fragments ≡ fs
    → b.failure ≡ false
    → Passes (flush_fragments fs true b) × (join (flush_fragments fs true b).0.fragments ≡ [])
unfolding flush_fragments publish_batch
flush_fragments-sent [] b e h = (record { calm = h; fine = refl }, ap join e)
flush_fragments-sent (f ∷ fs) b e h = (record { calm = h; fine = refl }, refl)

flush_locked-sent :
    (b : TokenBuffer)
    → b.failure ≡ false
    → Passes (flush_locked true b) × (join (flush_locked true b).0.fragments ≡ [])
unfolding flush_locked
flush_locked-sent b = flush_fragments-sent b.fragments b refl

waiting-batch :
    (fs : List Text) → (if (elim fs [ [] ↦ false | g ∷ gs ↦ true ]) then join fs else []) ≡ join fs
waiting-batch [] = refl
waiting-batch (f ∷ fs) = refl

after_flush-Passes :
    (r : TokenBuffer × Outcome)
    → Passes r
    → Passes (after_flush r) × ((after_flush r).0.fragments ≡ r.0.fragments)
unfolding after_flush
after_flush-Passes (b, returned) h = (record { calm = h.calm; fine = refl }, refl)
after_flush-Passes (b, raised) h = absurd (raised-returned h.fine)

keep_failure-Passes :
    (r : TokenBuffer × Outcome)
    → Passes r
    → ((keep_failure r).failure ≡ false) × ((keep_failure r).fragments ≡ r.0.fragments)
unfolding keep_failure
keep_failure-Passes (b, returned) h = (h.calm, refl)
keep_failure-Passes (b, raised) h = absurd (raised-returned h.fine)

waiting-batch-calm :
    (fs : List Text) (failure : Bool)
    → failure ≡ false
    → batch (elim fs [ [] ↦ false | g ∷ gs ↦ true ] && not failure) (join fs) ≡ join fs
waiting-batch-calm [] failure h = refl
waiting-batch-calm (f ∷ fs) failure h = rw h refl

module _ (b : TokenBuffer) (h : b.failure ≡ false) where
  flush-open : flush true b ≡ flush_locked true b
  unfolding flush
  flush-open = rw h refl

  -- A flush whose publication returns publishes what waits, and nothing waits any more.
  pub flush-sent :
      Passes (flush true b)
      × (join (flush true b).0.fragments ≡ [])
      × (batch (waits b) (join b.fragments) ≡ join b.fragments)
  flush-sent =
      let (passes, none_left) = flush_locked-sent b h in
      rw flush-open (passes, none_left, waiting-batch-calm b.fragments b.failure h)

  pub close-sent :
      Passes (close true b)
      × (join (close true b).0.fragments ≡ [])
      × (batch (waits b) (join b.fragments) ≡ join b.fragments)
  unfolding close
  close-sent =
      let (passes, none_left, published) = flush-sent in
      let (closed, same) = after_flush-Passes (flush true b) passes in
      (closed, ap join same ∙ none_left, published)

  timer_fires-on :
      b.timer ≡ true
      → (timer_fires true b ≡ keep_failure (flush_locked true b))
        × (batch (due b) (join b.fragments) ≡ join b.fragments)
  unfolding timer_fires
  timer_fires-on on = (rw on refl, rw on (waiting-batch b.fragments))

  timer_fires-off :
      b.timer ≡ false → (timer_fires true b ≡ b) × (batch (due b) (join b.fragments) ≡ [])
  unfolding timer_fires
  timer_fires-off off = (rw off refl, rw off refl)

  -- The timer, with a publication that returns, publishes what waits or does nothing.
  pub timer_fires-sent :
      ((timer_fires true b).failure ≡ false)
      × (batch (due b) (join b.fragments) ++ join (timer_fires true b).fragments ≡ join b.fragments)
  timer_fires-sent = elim (Bool-cases b.timer) [
    | inl on ↦
        let (ran, published) = timer_fires-on on in
        let (passes, none_left) = flush_locked-sent b h in
        let (calm, same) = keep_failure-Passes (flush_locked true b) passes in
        rw ran (calm, rw (published, same, none_left, append-nil) refl)
    | inr off ↦ let (ran, published) = timer_fires-off off in rw ran (h, rw published refl)
  ]

  module _ (c : ℕ) (cs : Text) where
    abbrev longer : TokenBuffer
    longer = grown (c ∷ cs) true b

    add-full :
        leb b.max_chars (b.characters + length (c ∷ cs)) ≡ true
        → (add (c ∷ cs) true b ≡ flush_locked true longer) × (fills (c ∷ cs) b ≡ true)
    unfolding add add_fragment
    add-full full = (rw (h, full) refl, rw (h, full) refl)

    add-room :
        leb b.max_chars (b.characters + length (c ∷ cs)) ≡ false
        → (add (c ∷ cs) true b ≡ (longer, returned)) × (fills (c ∷ cs) b ≡ false)
    unfolding add add_fragment
    add-room room = (rw (h, room) refl, rw (h, room) refl)

  -- An addition, with a publication that returns, publishes all that waits and the text, or keeps
  -- the text waiting behind the rest.
  pub add-sent :
      (text : Text)
      → Passes (add text true b)
        × (batch (fills text b) (join (b.fragments ++ (text ∷ [])))
              ++ join (add text true b).0.fragments
            ≡ join b.fragments ++ text)
  unfolding add
  add-sent [] = (record { calm = h; fine = refl }, sym (append-nil (join b.fragments)))
  add-sent (c ∷ cs) = elim (Bool-cases (leb b.max_chars (b.characters + length (c ∷ cs)))) [
    | inl full ↦
        let (ran, test) = add-full c cs full in
        let (passes, none_left) = flush_locked-sent (longer c cs) h in
        rw ran (passes, rw (test, none_left, append-nil, join-append, append-nil) refl)
    | inr room ↦
        let (ran, test) = add-room c cs room in
        rw ran (record { calm = h; fine = refl }, rw (test, join-append, append-nil) refl)
  ]
