-- ===== src/History/Cuts.antt =====
-- A conversation that is cut at a boundary falls into two that need nothing of each other.
use mathlib.Core.Path.{subst}
use mathlib.Core.List.{Memᴰ}
use mathlib.Core.List.Memᴰ.{not-nil}
use smart_class_agent.Common.{
  ℕ, zero, suc, ◌+◌, ◌-◌, ◌≤◌, String, ◌≡◌, refl, sym, ap, ◌∙◌, ◌⊎◌, inl, inr, Bool, true, false,
  Option, List, [], ◌∷◌, ◌++◌, Text, keep, take, drop, length, leb, if◌then◌else◌, Result, ok,
  ◌>>=◌, Result-cases, max, arith, Bool-cases, if_cases, err-ok, ok-injective,
}
use smart_class_agent.History.Exchanges.{
  Message, HistoryError, is_empty, is_system, exchange_step, boundaries_from, exchange_boundaries,
  last_boundary, recent_history,
}

-- The calls that wait after some messages.
pub pending_after : List String → List Message → Result HistoryError (List String)
pending_after pending [] = ok pending
pending_after pending (m ∷ ms) = exchange_step pending m >>= λ pending'. pending_after pending' ms

boundaries_from-pending :
    (i : ℕ) (pending : List String) (ms : List Message) (bs : List ℕ)
    → boundaries_from i pending ms ≡ ok bs
    → (q : List String) × (pending_after pending ms ≡ ok q)
unfolding boundaries_from pending_after
boundaries_from-pending i pending [] bs e = (pending, refl)
boundaries_from-pending i pending (m ∷ ms) bs e = elim (Result-cases (exchange_step pending m)) [
  | inr (x, f) ↦ absurd (err-ok (rw f at e))
  | inl (p, f) ↦ elim (Result-cases (boundaries_from (suc i) p ms)) [
    | inr (x, g) ↦ absurd (err-ok (rw (f, g) at e))
    | inl (rest, g) ↦ let (q, h) = boundaries_from-pending (suc i) p ms rest g in (q, rw f h)
  ]
]

pending-boundaries_from :
    (i : ℕ) (pending : List String) (ms : List Message) (q : List String)
    → pending_after pending ms ≡ ok q
    → (bs : List ℕ) × (boundaries_from i pending ms ≡ ok bs)
unfolding boundaries_from pending_after
pending-boundaries_from i pending [] q e = ([], refl)
pending-boundaries_from i pending (m ∷ ms) q e = elim (Result-cases (exchange_step pending m)) [
  | inr (x, f) ↦ absurd (err-ok (rw f at e))
  | inl (p, f) ↦
      let (rest, g) =
        pending-boundaries_from (suc i) p ms q
          (ap (λ r. r >>= λ x. pending_after x ms) (sym f) ∙ e) in
      (if is_empty p then suc i ∷ rest else rest, rw (f, g) refl)
]

pub pending-exchange_boundaries :
    (ms : List Message) (q : List String)
    → pending_after [] ms ≡ ok q
    → (bs : List ℕ) × (exchange_boundaries ms ≡ ok bs)
unfolding exchange_boundaries
pending-exchange_boundaries ms q e =
    let (bs, f) = pending-boundaries_from 0 [] ms q e in (0 ∷ bs, rw f refl)

-- Nothing waits after `n` messages, and the rest is in order when nothing waits.
abbrev IsCut : List String → List Message → ℕ → Type 0
IsCut pending ms n =
    (pending_after pending (take n ms) ≡ ok [])
    × ((q : List String) × (pending_after [] (drop n ms) ≡ ok q))

is_empty-nil : (p : List String) → is_empty p ≡ true → p ≡ []
is_empty-nil [] e = refl
is_empty-nil (x ∷ p) e = absurd (cc)

mem-if :
    {b : ℕ} (c : Bool) (x : ℕ) (rest : List ℕ)
    → Memᴰ b (if c then x ∷ rest else rest)
    → ((c ≡ true) × (b ≡ x)) ⊎ Memᴰ b rest
mem-if true x rest (Memᴰ.head e) = inl (refl, e)
mem-if true x rest (Memᴰ.tail m) = inr m
mem-if false x rest m = inr m

boundaries_from-IsCut :
    (i : ℕ) (pending : List String) (ms : List Message) (bs : List ℕ) (b : ℕ)
    → boundaries_from i pending ms ≡ ok bs
    → Memᴰ b bs
    → (k : ℕ) × (b ≡ i + suc k) × IsCut pending ms (suc k)
unfolding boundaries_from pending_after
boundaries_from-IsCut i pending [] bs b e mem =
    absurd (not-nil (subst (Memᴰ b) (sym (ok-injective e)) mem))
boundaries_from-IsCut i pending (m ∷ ms) bs b e mem =
    elim (Result-cases (exchange_step pending m)) [
      | inr (x, f) ↦ absurd (err-ok (rw f at e))
      | inl (p, f) ↦ elim (Result-cases (boundaries_from (suc i) p ms)) [
        | inr (x, g) ↦ absurd (err-ok (rw (f, g) at e))
        | inl (rest, g) ↦
            let later : Memᴰ b rest → (k : ℕ) × (b ≡ i + suc k) × IsCut pending (m ∷ ms) (suc k) =
              λ mem'.
                let (k, at, (before, after)) = boundaries_from-IsCut (suc i) p ms rest b g mem' in
                (suc k, omega (arith, at), (rw f before, after)) in
            let here : is_empty p ≡ true
                → b ≡ suc i
                → (k : ℕ) × (b ≡ i + suc k) × IsCut pending (m ∷ ms) (suc k) =
              λ none' at. (
                0,
                omega (arith, at),
                (
                  rw (f, is_empty-nil p none') refl,
                  rw (sym (is_empty-nil p none')) (boundaries_from-pending (suc i) p ms rest g),
                ),
              ) in
            elim (mem-if (is_empty p) (suc i) rest
              (subst (Memᴰ b) (sym (ok-injective (rw (f, g) at e))) mem)) [
                | inl (none', at) ↦ here none' at
                | inr mem' ↦ later mem'
              ]
      ]
    ]

pub exchange_boundaries-IsCut :
    (ms : List Message) (bs : List ℕ) (b : ℕ)
    → exchange_boundaries ms ≡ ok bs
    → Memᴰ b bs
    → IsCut [] ms b
unfolding exchange_boundaries pending_after
exchange_boundaries-IsCut ms bs b e mem = elim (Result-cases (boundaries_from 0 [] ms)) [
  | inr (x, f) ↦ absurd (err-ok (rw f at e))
  | inl (rest, f) ↦ go rest f (subst (Memᴰ b) (sym (ok-injective (rw f at e))) mem)
]
  where
    go : (rest : List ℕ) → boundaries_from 0 [] ms ≡ ok rest → Memᴰ b (0 ∷ rest) → IsCut [] ms b
    go rest f (Memᴰ.head at) = rw at (refl, boundaries_from-pending 0 [] ms rest f)
    go rest f (Memᴰ.tail m) =
        let (k, at, cut) = boundaries_from-IsCut 0 [] ms rest b f m in
        subst (IsCut [] ms) {x = suc k} {y = b} (omega (arith, at)) cut

max-cases : (a b : ℕ) → (max a b ≡ a) ⊎ (max a b ≡ b)
max-cases a b = elim (Bool-cases (leb a b)) [
  | inl e ↦ inr (ground arith)
  | inr e ↦ inl (ground arith)
]

second : {b x y : ℕ} {bs : List ℕ} → Memᴰ b (x ∷ bs) → Memᴰ b (x ∷ y ∷ bs)
second (Memᴰ.head e) = Memᴰ.head e
second (Memᴰ.tail m) = Memᴰ.tail (Memᴰ.tail m)

last_boundary-default : (target : ℕ) (bs : List ℕ) → Memᴰ (last_boundary target bs) (0 ∷ bs)
unfolding last_boundary
last_boundary-default target [] = Memᴰ.head refl
last_boundary-default target (b ∷ bs) =
    let rest = second {y = b} (last_boundary-default target bs) in
    if_cases (λ x. Memᴰ x (0 ∷ b ∷ bs)) (leb b target) _ _
      (λ _. elim (max-cases b (last_boundary target bs)) [
        | inl e ↦ rw e (Memᴰ.tail (Memᴰ.head refl))
        | inr e ↦ rw e rest
      ])
      (λ _. rest)

-- The boundary that is chosen is a boundary, and not above the target.
pub last_boundary-mem : (target : ℕ) (bs : List ℕ) → Memᴰ 0 bs → Memᴰ (last_boundary target bs) bs
last_boundary-mem target bs zero_in = go (last_boundary-default target bs)
  where
    go : {x : ℕ} → Memᴰ x (0 ∷ bs) → Memᴰ x bs
    go (Memᴰ.head e) = rw e zero_in
    go (Memᴰ.tail m) = m

pub last_boundary-le : (target : ℕ) (bs : List ℕ) → last_boundary target bs ≤ target
unfolding last_boundary
last_boundary-le target [] = omega arith
last_boundary-le target (b ∷ bs) = ground (arith, last_boundary-le target bs)

pub exchange_boundaries-zero :
    (ms : List Message) (bs : List ℕ) → exchange_boundaries ms ≡ ok bs → Memᴰ 0 bs
unfolding exchange_boundaries
exchange_boundaries-zero ms bs e = elim (Result-cases (boundaries_from 0 [] ms)) [
  | inr (x, f) ↦ absurd (err-ok (rw f at e))
  | inl (rest, f) ↦ subst (Memᴰ 0) (ok-injective (rw f at e)) (Memᴰ.head refl)
]

-- Every boundary up to the target is at most the one that is chosen.
pub last_boundary-max :
    (target b : ℕ) (bs : List ℕ) → Memᴰ b bs → b ≤ target → b ≤ last_boundary target bs
unfolding last_boundary
last_boundary-max target b [] m le = elim m [ ]
last_boundary-max target b (x ∷ bs) (Memᴰ.head e) le = ground (arith, e)
last_boundary-max target b (x ∷ bs) (Memᴰ.tail m) le =
    ground (arith, last_boundary-max target b bs m le)

step-complete :
    (i k : ℕ) (p : List String) (ms : List Message) (rest : List ℕ)
    → ((j : ℕ)
        → suc j ≤ length ms
        → pending_after p (take (suc j) ms) ≡ ok []
        → Memᴰ (suc i + suc j) rest)
    → k ≤ length ms
    → pending_after p (take k ms) ≡ ok []
    → Memᴰ (i + suc k) (if is_empty p then suc i ∷ rest else rest)
unfolding pending_after
step-complete i zero p ms rest later le done = rw (ok-injective done) (Memᴰ.head (omega arith))
step-complete i (suc k) p ms rest later le done =
    let found : Memᴰ (i + suc (suc k)) rest =
      subst (λ x. Memᴰ x rest) {x = suc i + suc k} {y = i + suc (suc k)} (omega arith)
        (later k le done) in
    if_cases (Memᴰ (i + suc (suc k))) (is_empty p) _ _ (λ _. Memᴰ.tail found) (λ _. found)

-- Every place where no call waits is a boundary.
boundaries_from-complete :
    (i : ℕ) (pending : List String) (ms : List Message) (bs : List ℕ) (k : ℕ)
    → boundaries_from i pending ms ≡ ok bs
    → suc k ≤ length ms
    → pending_after pending (take (suc k) ms) ≡ ok []
    → Memᴰ (i + suc k) bs
unfolding boundaries_from pending_after
boundaries_from-complete i pending [] bs k e le done = absurd (omega arith)
boundaries_from-complete i pending (m ∷ ms) bs k e le done =
    elim (Result-cases (exchange_step pending m)) [
      | inr (x, f) ↦ absurd (err-ok (rw f at e))
      | inl (p, f) ↦ elim (Result-cases (boundaries_from (suc i) p ms)) [
        | inr (x, g) ↦ absurd (err-ok (rw (f, g) at e))
        | inl (rest, g) ↦ subst (Memᴰ (i + suc k)) (ok-injective (rw (f, g) at e)) (
            step-complete i k p ms rest
              (λ j le' done'. boundaries_from-complete (suc i) p ms rest j g le' done')
              (omega (arith, le)) (rw f at done))
      ]
    ]

pub exchange_boundaries-complete :
    (ms : List Message) (bs : List ℕ) (n : ℕ)
    → exchange_boundaries ms ≡ ok bs
    → n ≤ length ms
    → pending_after [] (take n ms) ≡ ok []
    → Memᴰ n bs
unfolding exchange_boundaries
exchange_boundaries-complete ms bs zero e le done = exchange_boundaries-zero ms bs e
exchange_boundaries-complete ms bs (suc k) e le done =
    elim (Result-cases (boundaries_from 0 [] ms)) [
      | inr (x, f) ↦ absurd (err-ok (rw f at e))
      | inl (rest, f) ↦ subst (Memᴰ (suc k)) (ok-injective (rw f at e)) (
          Memᴰ.tail (
            subst (λ x. Memᴰ x rest) {x = 0 + suc k} {y = suc k} (omega arith)
              (boundaries_from-complete 0 [] ms rest k f le done)))
    ]

system-step :
    (pending : List String) (i : Option String) (t : Text) (c : Bool)
    → exchange_step pending (Message.system i t c) ≡ ok pending
unfolding exchange_step
system-step [] i t c = refl
system-step (x ∷ pending) i t c = refl

-- System messages ask for nothing.
systems-pending :
    (pending : List String) (xs ys : List Message)
    → pending_after pending (keep is_system xs ++ ys) ≡ pending_after pending ys
unfolding pending_after exchange_step
systems-pending pending [] ys = refl
systems-pending pending (Message.human i t ∷ xs) ys = systems-pending pending xs ys
systems-pending pending (Message.ai i t calls ∷ xs) ys = systems-pending pending xs ys
systems-pending pending (Message.tool i t id ∷ xs) ys = systems-pending pending xs ys
systems-pending pending (Message.system i t c ∷ xs) ys =
    rw (system-step pending i t c) (systems-pending pending xs ys)

-- A history whose exchanges are in order is cut at the last place that leaves at least the last
-- `limit` messages and where no call waits for its result: no later place up to there has no call
-- waiting. The recent history is what follows, with the system messages before the cut in front,
-- and its exchanges are in order too.
pub recent_history-cut :
    (limit : ℕ) (ms : List Message) (bs : List ℕ)
    → exchange_boundaries ms ≡ ok bs
    → (cutoff : ℕ) × (cutoff ≤ length ms - limit)
      × (pending_after [] (take cutoff ms) ≡ ok [])
      × ((n : ℕ) → n ≤ length ms - limit → pending_after [] (take n ms) ≡ ok [] → n ≤ cutoff)
      × (recent_history limit ms ≡ ok (keep is_system (take cutoff ms) ++ drop cutoff ms))
      × ((bs' : List ℕ) × (exchange_boundaries (keep is_system (take cutoff ms) ++ drop cutoff ms)
            ≡ ok bs'))
unfolding recent_history
recent_history-cut limit ms bs e =
    let cutoff = last_boundary (length ms - limit) bs in
    let (complete, (q, rest)) =
      exchange_boundaries-IsCut ms bs cutoff e
        (last_boundary-mem (length ms - limit) bs (exchange_boundaries-zero ms bs e)) in
    let ordered =
      pending-exchange_boundaries (keep is_system (take cutoff ms) ++ drop cutoff ms) q
        (systems-pending [] (take cutoff ms) (drop cutoff ms) ∙ rest) in
    (
      cutoff,
      last_boundary-le (length ms - limit) bs,
      complete,
      λ n le done.
          last_boundary-max (length ms - limit) n bs
            (exchange_boundaries-complete ms bs n e (omega (arith, le)) done) le,
      rw e refl,
      ordered,
    )
