-- ===== src/Intake/Budget.antt =====
-- The messages of an intake fit their budget.
use smart_class_agent.Common.{
  ℕ, zero, suc, ◌+◌, ◌-◌, ◌/◌, ◌≤◌, ◌≡◌, max, min, Option, none, some, List, [], ◌∷◌, ◌++◌, Text,
  drop, length, length-take-le, leb, arith, Bool-cases, Option-cases, inl, inr,
}
use smart_class_agent.History.Exchanges.{Message, human, ai, tool, system}
use smart_class_agent.Intake.{
  Texts, IntakeState, message_text, with_content, total, backwards, chosen, select,
  reversed_eligible, previous_part, initial_part, build_bounded_intake_messages,
}

length-drop : (n : ℕ) (t : Text) → length (drop n t) ≡ length t - n
length-drop zero t = omega arith
length-drop (suc n) [] = omega arith
length-drop (suc n) (x ∷ xs) = omega (arith, length-drop n xs)

total-append : (xs ys : List Message) → total (xs ++ ys) ≡ total xs + total ys
total-append [] ys = omega arith
total-append (x ∷ xs) ys = omega (arith, total-append xs ys)

total-backwards : (xs : List Message) → total (backwards xs) ≡ total xs
unfolding backwards
total-backwards [] = omega arith
total-backwards (x ∷ xs) = omega (arith, total-backwards xs, total-append (backwards xs) (x ∷ []))

with_content-length : (c : Text) (m : Message) → length (message_text (with_content c m)) ≡ length c
with_content-length c (human i t) = omega arith
with_content-length c (ai i t calls) = omega arith
with_content-length c (tool i t call) = omega arith
with_content-length c (system i t b) = omega arith

-- Three parts, each within what the ones before leave of the budget.
parts-fit :
    (budget : ℕ) (p q r : List Message)
    → total p ≤ budget
    → total q ≤ budget - total p
    → total r ≤ budget - total p - total q
    → total ((p ++ q) ++ backwards r) ≤ budget
parts-fit budget p q r hp hq hr =
    omega
      (arith, hp, hq, hr, total-append (p ++ q) (backwards r), total-append p q, total-backwards r)

module _ (X : Texts) where
  chosen-fits :
      (remaining : ℕ) (content c : Text)
      → chosen X remaining content ≡ some c
      → length c ≤ remaining
  unfolding chosen
  chosen-fits remaining content c h =
      ground (arith, length-drop (length content - remaining) content)

  select-fits : (remaining : ℕ) (ms : List Message) → total (select X remaining ms) ≤ remaining
  unfolding select
  select-fits remaining [] = omega arith
  select-fits remaining (m ∷ ms) =
      elim (Option-cases (chosen X remaining (X.strip (message_text m)))) [
        | inl skipped ↦ rw (select, skipped) (select-fits remaining ms)
        | inr (c, got) ↦
            let fits = chosen-fits remaining _ c got in
            let same = with_content-length c m in
            elim (Bool-cases (leb (remaining - length c) 0)) [
              | inl full ↦ rw (select, got, full) (omega arith)
              | inr room ↦
                  rw (select, got, room) (omega (arith, select-fits (remaining - length c) ms))
            ]
      ]

  previous_part-fits :
      (budget : ℕ) (p : Option Text) → 80 ≤ budget → total (previous_part X budget p) ≤ budget
  unfolding previous_part
  previous_part-fits budget none h = omega arith
  previous_part-fits budget (some t) h =
      omega (arith, length-take-le (min 2000 (max 80 (budget / 4))) t)

  initial_part-fits :
      (budget remaining : ℕ) (t : Text) → total (initial_part X budget remaining t) ≤ remaining
  unfolding initial_part
  initial_part-fits budget remaining t =
      ground (arith, length-take-le (min 4000 (min (max 80 (budget / 3)) remaining)) t)

  -- For every budget of at least 80 characters, and whatever the messages of the task (without calls of
  -- tools), its first request and the metadata submitted before are: the messages of the intake have
  -- no more characters together than the budget.
  pub build_bounded_intake_messages-fits :
      (max_turns budget : ℕ) (s : IntakeState)
      → 80 ≤ budget
      → total (build_bounded_intake_messages X max_turns budget s) ≤ budget
  unfolding build_bounded_intake_messages
  build_bounded_intake_messages-fits max_turns budget s h =
      parts-fit budget (previous_part X budget s.previous)
        (initial_part X budget _ (X.strip s.initial_request))
        (select X _ (reversed_eligible X max_turns s)) (previous_part-fits budget s.previous h)
        (initial_part-fits budget (budget - total (previous_part X budget s.previous))
          (X.strip s.initial_request))
        (select-fits _ (reversed_eligible X max_turns s))
