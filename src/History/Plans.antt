-- ===== src/History/Plans.antt =====
-- A compression plan replaces whole exchanges of identified messages.
use smart_class_agent.Common.{
  ℕ, zero, suc, ◌≤◌, ◌<◌, ◌≡◌, refl, ap, inl, inr, Bool, true, false, not, Option, List, [], ◌∷◌,
  ◌++◌, any, take, drop, length, length-take-le, leb, ltb, ◌==◌, if_cases, ok, Result-cases, arith,
}
use smart_class_agent.History.Exchanges.{Message, is_empty, exchange_boundaries, last_boundary}
use smart_class_agent.History.Compression.{
  ThreadState, CompressionSettings, CompressionPlan, estimate_message_tokens, recent_turn_cutoff,
  plan_at, build_compression_plan, has_id,
}
use smart_class_agent.History.Cuts.{
  pending_after, pending-exchange_boundaries, exchange_boundaries-IsCut, exchange_boundaries-zero,
  last_boundary-mem, last_boundary-le,
}

take-drop {ℓ} : {A : Type ℓ} (n : ℕ) (xs : List A) → take n xs ++ drop n xs ≡ xs
take-drop zero xs = refl
take-drop (suc n) [] = refl
take-drop (suc n) (x ∷ xs) = ap (◌∷◌ x) (take-drop n xs)

is_false : (b : Bool) → not b ≡ true → b ≡ false
is_false false h = refl
is_false true h = absurd (cc)

positive {ℓ} : {A : Type ℓ} (xs : List A) → is_empty xs ≡ false → 0 < length xs
positive [] e = absurd (cc)
positive (x ∷ xs) e = omega arith

-- What a plan to compress promises.
abbrev pub Promise : List Message → ℕ → ℕ → CompressionPlan → Type 0
Promise ms trigger cutoff plan =
    (plan.compressible_messages ++ plan.retained_messages ≡ ms)
    × (0 < length plan.compressible_messages)
    × (length plan.compressible_messages ≤ cutoff)
    × (pending_after [] plan.compressible_messages ≡ ok [])
    × ((bs : List ℕ) × (exchange_boundaries plan.retained_messages ≡ ok bs))
    × (any (λ m. not (has_id m)) ms ≡ false)
    × (trigger ≤ plan.estimated_tokens)

plan_at-Promise :
    (tokens : ℕ) (ms : List Message) (trigger target : ℕ) (bs : List ℕ)
    → exchange_boundaries ms ≡ ok bs
    → trigger ≤ tokens
    → (plan_at tokens ms (last_boundary target bs)).should_compress ≡ true
    → Promise ms trigger target (plan_at tokens ms (last_boundary target bs))
unfolding plan_at
plan_at-Promise tokens ms trigger target bs e reached =
    let cutoff = last_boundary target bs in
    let P : CompressionPlan → Type 0 =
      λ plan. plan.should_compress ≡ true → Promise ms trigger target plan in
    let (complete, (q, rest)) =
      exchange_boundaries-IsCut ms bs cutoff e
        (last_boundary-mem target bs (exchange_boundaries-zero ms bs e)) in
    let short = length-take-le cutoff ms in
    let low = last_boundary-le target bs in
    if_cases P (leb cutoff 0) _ _ (λ _ h. absurd (cc))
      (λ _.
        if_cases P (is_empty (take cutoff ms)) _ _ (λ _ h. absurd (cc))
          (λ some_left h. (
            take-drop cutoff ms,
            positive (take cutoff ms) some_left,
            omega (arith, short, low),
            complete,
            pending-exchange_boundaries (drop cutoff ms) q rest,
            is_false _ h,
            reached,
          )))

-- A plan that is to compress splits the thread, in order, in an older part that is not empty, that
-- ends no later than the turns to keep begin and in which no call is left waiting for its result,
-- and a part to retain whose exchanges are in order. Every message of the thread has an
-- identifier, and the estimate reached the trigger.
pub build_compression_plan-Promise :
    (state : ThreadState) (settings : CompressionSettings) (counter : List Message → Option ℕ)
    → (build_compression_plan state settings counter).should_compress ≡ true
    → Promise state.messages settings.trigger_tokens
        (recent_turn_cutoff state.messages settings.keep_recent_turns)
        (build_compression_plan state settings counter)
unfolding build_compression_plan plan_at
build_compression_plan-Promise state settings counter =
    let ms = state.messages in
    let tokens = estimate_message_tokens counter ms in
    let target = recent_turn_cutoff ms settings.keep_recent_turns in
    let P : CompressionPlan → Type 0 =
      λ plan. plan.should_compress ≡ true → Promise ms settings.trigger_tokens target plan in
    if_cases P (not settings.enabled) _ _ (λ _ h. absurd (cc))
      (λ _.
        if_cases P (ltb tokens settings.trigger_tokens) _ _ (λ _ h. absurd (cc))
          (λ reached.
            if_cases P state.pending_approval _ _ (λ _ h. absurd (cc))
              (λ _. elim (Result-cases (exchange_boundaries ms)) [
                | inr (x, f) ↦ rw f (λ h. absurd (cc))
                | inl (bs, f) ↦ rw f (
                    if_cases P (any (λ b. b == length ms) bs) _ _
                      (λ _.
                        plan_at-Promise tokens ms settings.trigger_tokens target bs f
                          (ground arith))
                      (λ _ h. absurd (cc)))
              ])))
