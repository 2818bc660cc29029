-- ===== src/Reflection/Queue.antt =====
-- The order in which jobs are taken, and idempotent registration.
use mathlib.Core.List.{Memᴰ}
use mathlib.Core.Path.{subst, sym}
use text.Mathlib.TextPositions.{eq_refl}
use smart_class_agent.Common.{
  ℕ, ◌≤◌, String, ◌≡◌, refl, Bool, true, false, none, some, List, [], ◌∷◌, All, first, any, arith,
  Bool-cases, Option-cases, inl, inr, leb, map, ◌&&◌, not, keep, update, str_eq, eq_iff,
}
use smart_class_agent.Common.Rows.{first-none, first-some, mem-update_chosen}
use smart_class_agent.Reflection.{
  Jobs, MemoryReflectionJob, ReflectionJobCandidate, is_pending, same_key, new_job,
  register_candidate, register_reflection_candidates, oldest_pending, claim, take_next,
}

-- No pending row is older than `j`.
abbrev IsOldest : MemoryReflectionJob → Jobs → Type 0
IsOldest j = All (λ k. is_pending k.status ≡ true → j.created_at ≤ k.created_at)

abbrev pub HasNoPending : Jobs → Type 0
HasNoPending = All (λ k. is_pending k.status ≡ false)

IsOldest-le :
    (i j : MemoryReflectionJob) (jobs : Jobs)
    → i.created_at ≤ j.created_at
    → IsOldest j jobs
    → IsOldest i jobs
IsOldest-le i j [] le h = tt
IsOldest-le i j (k ∷ ks) le h = ((λ p. omega (arith, h.0 p)), IsOldest-le i j ks le h.1)

HasNoPending-IsOldest :
    (j : MemoryReflectionJob) (jobs : Jobs) → HasNoPending jobs → IsOldest j jobs
HasNoPending-IsOldest j [] h = tt
HasNoPending-IsOldest j (k ∷ ks) h = ((λ p. absurd (cc (h.0))), HasNoPending-IsOldest j ks h.1)

oldest_pending-none : (jobs : Jobs) → oldest_pending jobs ≡ none → HasNoPending jobs
unfolding oldest_pending
oldest_pending-none [] h = tt
oldest_pending-none (j ∷ js) h = (ground arith, oldest_pending-none js (ground arith))

-- What the query finds is a pending row of the table, and no pending row is older.
abbrev pub IsNext : MemoryReflectionJob → Jobs → Type 0
IsNext j jobs = Memᴰ j jobs × (is_pending j.status ≡ true) × IsOldest j jobs

oldest_pending-some :
    (jobs : Jobs) (j : MemoryReflectionJob) → oldest_pending jobs ≡ some j → IsNext j jobs
unfolding oldest_pending
oldest_pending-some [] j h = absurd (cc)
oldest_pending-some (i ∷ is) j h = elim (Bool-cases (is_pending i.status)) [
  | inr other ↦
      let e : oldest_pending is ≡ some j = ground arith in
      let (m, p, o) = oldest_pending-some is j e in (Memᴰ.tail m, p, (λ q. absurd (cc), o))
  | inl waits ↦ elim (Option-cases (oldest_pending is)) [
    | inl nothing ↦
        let e : j ≡ i = ground arith in
        subst (λ x. IsNext x (i ∷ is)) (sym e)
          (
            Memᴰ.head refl,
            waits,
            (λ q. omega arith, HasNoPending-IsOldest i is (oldest_pending-none is nothing)),
          )
    | inr (k, found) ↦
        let (m, p, o) = oldest_pending-some is k found in
        elim (Bool-cases (leb i.created_at k.created_at)) [
          | inl le ↦
              let e : j ≡ i = ground arith in
              let below : i.created_at ≤ k.created_at = ground arith in
              subst (λ x. IsNext x (i ∷ is)) (sym e)
                (Memᴰ.head refl, waits, (λ q. omega arith, IsOldest-le i k is below o))
          | inr gt ↦
              let e : j ≡ k = ground arith in
              let below : k.created_at ≤ i.created_at = ground arith in
              subst (λ x. IsNext x (i ∷ is)) (sym e) (Memᴰ.tail m, p, (λ q. below, o))
        ]
  ]
]

abbrev pub has_id : String → MemoryReflectionJob → Bool
has_id job_id j = str_eq j.job_id job_id

others-claimed :
    (id : String) (jobs : Jobs)
    → keep (λ k. not (has_id id k)) (update (λ k. has_id id k && is_pending k.status) claim jobs)
      ≡ keep (λ k. not (has_id id k)) jobs
others-claimed id [] = refl
others-claimed id (j ∷ js) = ground (arith, others-claimed id js)

pending-claimed :
    (id : String) (jobs : Jobs)
    → any
        (λ k. has_id id k && is_pending k.status)
        (update (λ k. has_id id k && is_pending k.status) claim jobs)
      ≡ false
pending-claimed id [] = refl
pending-claimed id (j ∷ js) = ground (arith, pending-claimed id js)

-- A worker that takes a job gets, marked as running, a row of the table that was pending and that
-- no pending row is older than. In the table that row is running now, as it was handed out; no row
-- with its identifier is pending any more; and the rows with other identifiers are as they were.
pub take_next_oldest :
    (jobs : Jobs) (taken : MemoryReflectionJob)
    → (take_next jobs).1 ≡ some taken
    → (j : MemoryReflectionJob) × (taken ≡ claim j)
      × IsNext j jobs
      × Memᴰ taken (take_next jobs).0
      × (any (λ k. has_id j.job_id k && is_pending k.status) (take_next jobs).0 ≡ false)
      × (keep (λ k. not (has_id j.job_id k)) (take_next jobs).0
          ≡ keep (λ k. not (has_id j.job_id k)) jobs)
unfolding take_next
take_next_oldest jobs taken h = elim (Option-cases (oldest_pending jobs)) [
  | inl e ↦ absurd (ground arith)
  | inr (j, e) ↦
      let next = oldest_pending-some jobs j e in
      let same : taken ≡ claim j = ground arith in
      let chosen : (has_id j.job_id j && is_pending j.status) ≡ true =
        ground (arith, eq_iff j.job_id j.job_id, next.1) in
      (
        j,
        same,
        next,
        rw (take_next, e, same)
            (mem-update_chosen (λ k. has_id j.job_id k && is_pending k.status) claim chosen next.0),
        rw (take_next, e) (pending-claimed j.job_id jobs),
        rw (take_next, e) (others-claimed j.job_id jobs),
      )
]

-- A worker that takes nothing leaves the table as it was, and no row of it is pending.
pub take_next_empty :
    (jobs : Jobs) → (take_next jobs).1 ≡ none → ((take_next jobs).0 ≡ jobs) × HasNoPending jobs
unfolding take_next
take_next_empty jobs h = elim (Option-cases (oldest_pending jobs)) [
  | inl e ↦ (ground arith, oldest_pending-none jobs e)
  | inr (j, e) ↦ absurd (ground arith)
]

-- Every candidate of the list has a row with its key.
abbrev AllRegistered : List (String × ReflectionJobCandidate) → Jobs → Type 0
AllRegistered cs jobs =
    All (λ (entry : String × ReflectionJobCandidate). any (same_key entry.1) jobs ≡ true) cs

same_key-new_job :
    (id : String) (now : ℕ) (c : ReflectionJobCandidate) → same_key c (new_job id now c) ≡ true
unfolding same_key new_job
same_key-new_job id now c = simp eq_refl

register_candidate-any :
    (id : String) (now : ℕ) (c : ReflectionJobCandidate) (jobs : Jobs)
    → any (same_key c) (register_candidate id now c jobs) ≡ true
unfolding register_candidate
register_candidate-any id now c jobs = elim (Option-cases (first (same_key c) jobs)) [
  | inl e ↦ rw (e, register_candidate, first-none _ jobs e) (rw (same_key-new_job id now c))
  | inr (j, e) ↦ rw (e, register_candidate) (first-some _ jobs j e).0
]

register_candidate-keeps :
    (q : MemoryReflectionJob → Bool) (id : String) (now : ℕ) (c : ReflectionJobCandidate)
    (jobs : Jobs)
    → any q jobs ≡ true
    → any q (register_candidate id now c jobs) ≡ true
unfolding register_candidate
register_candidate-keeps q id now c jobs h = ground arith

register-keeps :
    (q : MemoryReflectionJob → Bool) (now : ℕ) (cs : List (String × ReflectionJobCandidate))
    (jobs : Jobs)
    → any q jobs ≡ true
    → any q (register_reflection_candidates now cs jobs) ≡ true
unfolding register_reflection_candidates
register-keeps q now [] jobs h = h
register-keeps q now ((id, c) ∷ cs) jobs h =
    register-keeps q now cs _ (register_candidate-keeps q id now c jobs h)

register-AllRegistered :
    (now : ℕ) (cs : List (String × ReflectionJobCandidate)) (jobs : Jobs)
    → AllRegistered cs (register_reflection_candidates now cs jobs)
unfolding register_reflection_candidates
register-AllRegistered now [] jobs = tt
register-AllRegistered now ((id, c) ∷ cs) jobs = (
  register-keeps _ now cs _ (register_candidate-any id now c jobs),
  register-AllRegistered now cs _,
)

register-registered :
    (now : ℕ) (cs : List (String × ReflectionJobCandidate)) (jobs : Jobs)
    → AllRegistered cs jobs
    → register_reflection_candidates now cs jobs ≡ jobs
unfolding register_reflection_candidates register_candidate
register-registered now [] jobs h = refl
register-registered now ((id, c) ∷ cs) jobs h = elim (Option-cases (first (same_key c) jobs)) [
  | inl e ↦ absurd (cc (first-none _ jobs e, h.0))
  | inr (j, e) ↦ rw (e, register_candidate) (register-registered now cs jobs h.1)
]

-- The candidates with other fresh identifiers, as a second call would draw them.
abbrev SameCandidates :
    List (String × ReflectionJobCandidate) → List (String × ReflectionJobCandidate) → Type 0
SameCandidates cs ds =
    map (λ (e : String × ReflectionJobCandidate). e.1) cs
    ≡ map (λ (e : String × ReflectionJobCandidate). e.1) ds

AllRegistered-same :
    (cs ds : List (String × ReflectionJobCandidate)) (jobs : Jobs)
    → SameCandidates cs ds
    → AllRegistered cs jobs
    → AllRegistered ds jobs
AllRegistered-same cs [] jobs same h = tt
AllRegistered-same [] (d ∷ ds) jobs same h = absurd (cc)
AllRegistered-same ((i, c) ∷ cs) ((k, d) ∷ ds) jobs same h =
    let e : c ≡ d = ground arith in (rw (← e) h.0, AllRegistered-same cs ds jobs (ground arith) h.1)

-- Registering the same candidates again, later and under other identifiers, changes nothing.
pub register_idempotent :
    (now later : ℕ) (cs ds : List (String × ReflectionJobCandidate)) (jobs : Jobs)
    → SameCandidates cs ds
    → register_reflection_candidates later ds (register_reflection_candidates now cs jobs)
      ≡ register_reflection_candidates now cs jobs
register_idempotent now later cs ds jobs same =
    register-registered later ds _
      (AllRegistered-same cs ds _ same (register-AllRegistered now cs jobs))
