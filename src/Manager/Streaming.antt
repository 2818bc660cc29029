-- ===== src/Manager/Streaming.antt =====
-- What a run publishes: the agent's events in their order, with the tokens cut into batches.
use mathlib.Core.List.{append-nil, append_assoc}
use mathlib.Core.Path.{sym, ap, ◌∙◌}
use smart_class_agent.Common.{
  ℕ, suc, String, ◌≡◌, refl, Bool, true, false, ◌||◌, not, Option, none, some, List, [], ◌∷◌, ◌++◌,
  Text, join, length, map, All, arith, if◌then◌else◌, ok, inl, inr, Bool-cases, Option-cases,
}
use smart_class_agent.Events.Store.{Redis, EventType, Payload, Entry, is_supported, is_done, token}
use smart_class_agent.Events.Scripts.{append_script, Message}
use smart_class_agent.Events.Transport.{delivered, Options, append, token_text_of}
use smart_class_agent.Events.Consistency.{IsConsistent}
use smart_class_agent.Events.Appending.{append_script_effect}
use smart_class_agent.Events.Ending.{execute_first}
use smart_class_agent.Tokens.{TokenBuffer, Outcome, returned, add, flush, close, timer_fires}
use smart_class_agent.Tokens.Publishing.{
  waits, due, flush-sent, close-sent, timer_fires-sent, add-sent,
}
use smart_class_agent.Manager.Executing.{
  Link, Step, arrives, fires, is_published, text_in, Execution, publish, through, token_payload,
  add_token, flush_tokens, close_tokens, fire_timer, publish_event, take_payload, take_event,
  take_step, take_steps,
}

-- A published stream spelt out: a character of the answer, or another event with its payload.
pub data Atom : Type 0 where
  character : ℕ → Atom
  other : EventType → Payload → Atom

abbrev pub spell_event : EventType → Payload → List Atom
spell_event event payload = elim (text_in event payload) [
  | some text ↦ map character text
  | none ↦ other event payload ∷ []
]

abbrev pub spell_row : Entry → List Atom
spell_row e = elim (e.data_field) [ none ↦ [] | some payload ↦ spell_event e.event payload ]

abbrev pub spell : List Entry → List Atom
spell [] = []
spell (e ∷ es) = spell_row e ++ spell es

-- What the agent hands over to be published.
abbrev pub spell_payload : EventType → Option Payload → List Atom
spell_payload event none = []
spell_payload event (some payload) = spell_event event payload

abbrev pub spell_step : Step → List Atom
spell_step (arrives e before link) =
    if is_published e.event_type then spell_payload e.event_type e.payload else []
spell_step (fires link) = []

abbrev pub spell_steps : List Step → List Atom
spell_steps [] = []
spell_steps (s ∷ ss) = spell_step s ++ spell_steps ss

abbrev pub IsUp : Link → Type 0
IsUp link = link.network 0 ≡ delivered

abbrev pub StepIsUp : Step → Type 0
StepIsUp (arrives e before link) = IsUp before × IsUp link
StepIsUp (fires link) = IsUp link

spell-append : (xs ys : List Entry) → spell (xs ++ ys) ≡ spell xs ++ spell ys
spell-append [] ys = refl
spell-append (x ∷ xs) ys =
    rw (spell-append xs ys) (sym (append_assoc (spell_row x) (spell xs) (spell ys)))

map-append : (xs ys : Text) → map character (xs ++ ys) ≡ map character xs ++ map character ys
map-append [] ys = refl
map-append (x ∷ xs) ys = ap (λ t. character x ∷ t) (map-append xs ys)

pair_eq {ℓ κ} : {A : Type ℓ} {B : Type κ} {p : A × B} {b : B} → p.1 ≡ b → p ≡ (p.0, b)
pair_eq {p = p} e = ap (λ b. (p.0, b)) e

module _ (R : Redis) (options : Options) (rest : String) where
  open R use {Keys, stream}

  append-delivered :
      (link : Link) (event : EventType) (payload : Payload) (k : Keys)
      → IsUp link
      → IsConsistent R k
      → is_published event ≡ true
      → let r = append R options link.network link.clock event payload k in
        (r.1 ≡ ok (suc (length (stream k))))
        × IsConsistent R r.0
        × (spell (stream r.0) ≡ spell (stream k) ++ spell_event event payload)
  unfolding append
  append-delivered link event payload k up h published =
      let m : Message = record {
        event = event;
        payload = payload;
        token_text = token_text_of event payload;
        created_at = link.clock 0;
      } in
      let (reply, rows, next) = append_script_effect R m options.active_ttl_seconds k h refl in
      let fine : (not (is_supported event) || is_done event) ≡ false = ground arith in
      let k' = (append_script R m options.active_ttl_seconds k).0 in
      let reached : append R options link.network link.clock event payload k
          ≡ (k', ok (suc (length (stream k)))) =
        rw fine (
          execute_first link.network _ k k' (suc (length (stream k))) options.append_max_retries up
            (pair_eq reply)) in
      rw reached (refl, next, rw (rows, spell-append, append-nil) refl)

  abbrev Run : Type 0
  Run = Execution R options rest

  -- The stream, and then the text that waits.
  abbrev pub content : Run → List Atom
  content x = spell (stream x.keys) ++ map character (join x.token_buffer.fragments)

  pub record IsLive (x : Run) : Type 0 where
    pub consistent : IsConsistent R x.keys
    pub calm : x.token_buffer.failure ≡ false

  module _ (link : Link) (up : IsUp link) (x : Run) (h : IsConsistent R x.keys) where
    publish-up :
        (event : EventType) (payload : Payload)
        → is_published event ≡ true
        → (k : Keys) × (publish R options rest link event payload x
            ≡ (record x { keys = k; last_sequence = suc (length (stream x.keys)) }, returned))
          × IsConsistent R k
          × (spell (stream k) ≡ spell (stream x.keys) ++ spell_event event payload)
    unfolding publish
    publish-up event payload published =
        let (reply, next, spelt) = append-delivered link event payload x.keys up h published in
        (
          (append R options link.network link.clock event payload x.keys).0,
          rw (publish, reply) refl,
          next,
          spelt,
        )

    -- A call of the buffer that publishes nothing, or one text.
    through-up :
        (full : Bool) (text : Text) (call : Bool → TokenBuffer → TokenBuffer × Outcome)
        → let r = through R options rest link full text call x in
          (r.1 ≡ (call true x.token_buffer).1)
          × (r.0.token_buffer ≡ (call true x.token_buffer).0)
          × IsConsistent R r.0.keys
          × (spell (stream r.0.keys)
              ≡ spell (stream x.keys) ++ map character (if full then text else []))
    unfolding through
    through-up true text call =
        let (k, ran, next, spelt) = publish-up token (token_payload R options rest text) refl in
        rw (through, ran) (refl, refl, next, spelt)
    through-up false text call = (refl, refl, h, sym (append-nil _))

    -- What a call of the buffer that publishes as it should adds to the content.
    through-content :
        (full : Bool) (text more : Text) (call : Bool → TokenBuffer → TokenBuffer × Outcome)
        → (call true x.token_buffer).0.failure ≡ false
        → (if full then text else []) ++ join (call true x.token_buffer).0.fragments
          ≡ join x.token_buffer.fragments ++ more
        → let r = through R options rest link full text call x in
          (r.1 ≡ (call true x.token_buffer).1)
          × IsLive r.0
          × (content r.0 ≡ content x ++ map character more)
    through-content full text more call calm sent =
        let (outcome, buffer, next, spelt) = through-up full text call in
        (
          outcome,
          record { consistent = next; calm = rw buffer calm },
          rw (spelt, buffer)
              (append_assoc (spell (stream x.keys)) _ _
                ∙ (ap (λ t. spell (stream x.keys) ++ t)
                      (sym (map-append (if full then text else []) _)
                        ∙ (ap (map character) sent ∙ map-append _ more))
                    ∙ sym (append_assoc (spell (stream x.keys)) _ (map character more)))),
        )

  -- A step that returns keeps the run live and adds to the content what it handed over.
  pub record Adds (x : Run) (r : Run × Outcome) (atoms : List Atom) : Type 0 where
    pub fine : r.1 ≡ returned
    pub live : IsLive r.0
    pub more : content r.0 ≡ content x ++ atoms

  module _ (x : Run) (h : IsLive x) where
    add_token-Adds :
        (link : Link) (text : Text)
        → IsUp link
        → Adds x (add_token R options rest link text x) (map character text)
    unfolding add_token
    add_token-Adds link text up =
        let (passes, sent) = add-sent x.token_buffer h.calm text in
        let (outcome, live, more) =
          through-content link up x h.consistent _ _ text (add text) passes.calm sent in
        record { fine = outcome ∙ passes.fine; live = live; more = more }

    flush_tokens-Adds :
        (link : Link)
        → IsUp link
        → Adds x (flush_tokens R options rest link x) []
          × (join (flush_tokens R options rest link x).0.token_buffer.fragments ≡ [])
    unfolding flush_tokens
    flush_tokens-Adds link up =
        let (passes, none_left, sent) = flush-sent x.token_buffer h.calm in
        let (outcome, live, more) =
          through-content link up x h.consistent _ _ [] flush passes.calm
            (rw (none_left, append-nil, append-nil) sent) in
        let (_, buffer, _, _) =
          through-up link up x h.consistent (waits x.token_buffer) (join x.token_buffer.fragments)
            flush in
        (record { fine = outcome ∙ passes.fine; live = live; more = more }, rw buffer none_left)

    fire_timer-Adds :
        (link : Link) → IsUp link → Adds x (fire_timer R options rest link x, returned) []
    unfolding fire_timer
    fire_timer-Adds link up =
        let (calm, sent) = timer_fires-sent x.token_buffer h.calm in
        let (outcome, live, more) =
          through-content link up x h.consistent (due x.token_buffer)
            (join x.token_buffer.fragments) [] (λ up' b. (timer_fires up' b, returned)) calm
            (rw append-nil sent) in
        record { fine = refl; live = live; more = more }

    publish_event-Adds :
        (before link : Link) (event : EventType) (payload : Payload)
        → IsUp before
        → IsUp link
        → is_published event ≡ true
        → Adds x
            (publish_event R options rest before link event payload x)
            (spell_event event payload)
    unfolding publish_event
    publish_event-Adds before link event payload up₁ up₂ published =
        let (flushed, none_left) = flush_tokens-Adds before up₁ in
        let y = (flush_tokens R options rest before x).0 in
        let (k, ran, next, spelt) =
          publish-up link up₂ y flushed.live.consistent event payload published in
        let same : content y ≡ spell (stream y.keys) = rw (none_left, append-nil) refl in
        rw (publish_event, flushed.fine, ran)
          (record {
            fine = refl;
            live = record { consistent = next; calm = flushed.live.calm };
            more =
                rw (none_left, append-nil, spelt)
                  (ap (λ t. t ++ spell_event event payload)
                    (sym same ∙ (flushed.more ∙ append-nil _)));
          })

    close_tokens-Adds :
        (link : Link)
        → IsUp link
        → Adds x (close_tokens R options rest link x) []
          × (join (close_tokens R options rest link x).0.token_buffer.fragments ≡ [])
    unfolding close_tokens
    close_tokens-Adds link up =
        let (passes, none_left, sent) = close-sent x.token_buffer h.calm in
        let (outcome, live, more) =
          through-content link up x h.consistent _ _ [] close passes.calm
            (rw (none_left, append-nil, append-nil) sent) in
        let (_, buffer, _, _) =
          through-up link up x h.consistent (waits x.token_buffer) (join x.token_buffer.fragments)
            close in
        (record { fine = outcome ∙ passes.fine; live = live; more = more }, rw buffer none_left)

  take_payload-Adds :
      (x : Run) (before link : Link) (event : EventType) (payload : Payload)
      → IsLive x
      → IsUp before
      → IsUp link
      → is_published event ≡ true
      → Adds x (take_payload R options rest before link event payload x) (spell_event event payload)
  unfolding take_payload
  take_payload-Adds x before link event payload h up₁ up₂ published =
      elim (Option-cases (text_in event payload)) [
        | inl plain ↦
            let ran : take_payload R options rest before link event payload x
                ≡ publish_event R options rest before link event payload x =
              rw (take_payload, plain) refl in
            rw ran (publish_event-Adds x h before link event payload up₁ up₂ published)
        | inr (text, found) ↦
            let x' : Run = record x { local_output = x.local_output ++ text } in
            let ran : take_payload R options rest before link event payload x
                ≡ add_token R options rest link text x' =
              rw (take_payload, found) refl in
            let spelt : spell_event event payload ≡ map character text =
              rw (spell_event, found) refl in
            let added =
              add_token-Adds x' (record { consistent = h.consistent; calm = h.calm }) link text
                up₂ in
            rw (ran, spelt) (record { fine = added.fine; live = added.live; more = added.more })
      ]

  nothing-Adds : (x : Run) → IsLive x → Adds x (x, returned) []
  nothing-Adds x h = record { fine = refl; live = h; more = sym (append-nil _) }

  take_step-Adds :
      (x : Run) (s : Step)
      → IsLive x
      → StepIsUp s
      → Adds x (take_step R options rest s x) (spell_step s)
  unfolding take_step take_event
  take_step-Adds x (fires link) h up = fire_timer-Adds x h link up
  take_step-Adds x (arrives e before link) h up = elim (Bool-cases (is_published e.event_type)) [
    | inr skipped ↦ rw (take_step, skipped) (nothing-Adds x h)
    | inl published ↦ elim (Option-cases e.payload) [
      | inl no_dict ↦ rw (take_step, published, no_dict) (nothing-Adds x h)
      | inr (payload, found) ↦
          let ran : take_event R options rest e before link x
              ≡ take_payload R options rest before link e.event_type payload x =
            rw (take_event, published, found) refl in
          let spelt : spell_step (arrives e before link) ≡ spell_event e.event_type payload =
            rw (published, found) refl in
          rw (ran, spelt)
            (take_payload-Adds x before link e.event_type payload h up.0 up.1 published)
    ]
  ]

  take_steps-Adds :
      (x : Run) (ss : List Step)
      → IsLive x
      → All StepIsUp ss
      → Adds x (take_steps R options rest ss x) (spell_steps ss)
  unfolding take_steps
  take_steps-Adds x [] h up = nothing-Adds x h
  take_steps-Adds x (s ∷ ss) h up =
      let first = take_step-Adds x s h up.0 in
      let y = (take_step R options rest s x).0 in
      let more = take_steps-Adds y ss first.live up.1 in
      rw (take_steps, first.fine)
        (record {
          fine = more.fine;
          live = more.live;
          more =
              more.more
              ∙ (ap (λ t. t ++ spell_steps ss) first.more
                  ∙ append_assoc (content x) (spell_step s) (spell_steps ss));
        })

  -- Over calls whose first attempts reach the store, on consistent keys and with nothing waiting:
  -- however the tokens are cut by sizes and by the timer, no call raises, the keys stay consistent,
  -- and after the last flush the stream, spelt out by characters and other events, is what it was,
  -- followed by the agent's events of the supported kinds with a payload, in their order, each once.
  pub take_steps_spelt :
      (x : Run) (ss : List Step) (last : Link)
      → IsLive x
      → join x.token_buffer.fragments ≡ []
      → All StepIsUp ss
      → IsUp last
      → let r = take_steps R options rest ss x in
        let closed = close_tokens R options rest last r.0 in
        (r.1 ≡ returned)
        × (closed.1 ≡ returned)
        × IsConsistent R closed.0.keys
        × (spell (stream closed.0.keys) ≡ spell (stream x.keys) ++ spell_steps ss)
  take_steps_spelt x ss last h nothing up up' =
      let steps = take_steps-Adds x ss h up in
      let y = (take_steps R options rest ss x).0 in
      let (ending, none_left) = close_tokens-Adds y steps.live last up' in
      let z = (close_tokens R options rest last y).0 in
      let before : content x ≡ spell (stream x.keys) = rw (nothing, append-nil) refl in
      let after : content z ≡ spell (stream z.keys) = rw (none_left, append-nil) refl in
      (
        steps.fine,
        ending.fine,
        ending.live.consistent,
        sym after
            ∙ (ending.more ∙ (append-nil _ ∙ (steps.more ∙ ap (λ t. t ++ spell_steps ss) before))),
      )
