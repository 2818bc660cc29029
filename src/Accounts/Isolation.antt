-- ===== src/Accounts/Isolation.antt =====
-- What a user does to plans and sessions is out of the reach of the others.
use mathlib.Core.Path.{◌∙◌}
use smart_class_agent.Common.{
  ℕ, ◌≡◌, ◌≢◌, refl, String, Bool, true, false, List, [], ◌∷◌, ◌++◌, keep, update, ◌==◌, arith,
  Result, ok, err, All, Bool-cases, Result-cases, inl, inr,
}
use smart_class_agent.Accounts.{
  Plan, Session, Tables, AccountError, owned_plan, owned_session, session_of_plan, create_plan,
  ensure_owned_plan, delete_plan_by_id, update_plan_by_id, create_session,
  ensure_owned_session_by_id, delete_session_by_id, update_session_by_id,
}

-- A request that changes the tables.
pub data Request : Type 0 where
  creates_plan : (id : ℕ) → (name : String) → Request
  deletes_plan : (plan_id : ℕ) → Request
  renames_plan : (plan_id : ℕ) → (name : String) → Request
  creates_session : (id : ℕ) → (name thread_id : String) → (plan_id : ℕ) → Request
  deletes_session : (session_id : ℕ) → Request
  renames_session : (session_id : ℕ) → (name : String) → Request

abbrev or_same : Tables → Result AccountError Tables → Tables
or_same t (ok t') = t'
or_same t (err e) = t

abbrev or_same_with : Tables → Result AccountError (Tables × Session) → Tables
or_same_with t (ok (t', s)) = t'
or_same_with t (err e) = t

-- The tables after a request of a user.
abbrev pub serve : (begins : Bool → Bool) → ℕ → Request → Tables → Tables
serve begins u (creates_plan id name) t = (create_plan id name u t).0
serve begins u (deletes_plan plan_id) t = or_same t (delete_plan_by_id begins plan_id u t)
serve begins u (renames_plan plan_id name) t = or_same t (update_plan_by_id plan_id name u t)
serve begins u (creates_session id name thread_id plan_id) t =
    or_same_with t (create_session id name thread_id plan_id u t)
serve begins u (deletes_session session_id) t = or_same t (delete_session_by_id session_id u t)
serve begins u (renames_session session_id name) t =
    or_same t (update_session_by_id session_id name u t)

abbrev pub plans_of : ℕ → Tables → List Plan
plans_of v t = keep (λ (p : Plan). p.user_id == v) t.plans

abbrev pub sessions_of : ℕ → Tables → List Session
sessions_of v t = keep (λ (s : Session). s.user_id == v) t.sessions

module _ {ℓ} {A : Type ℓ} (mine : A → Bool) where
  keep-append : (xs : List A) (y : A) → mine y ≡ false → keep mine (xs ++ (y ∷ [])) ≡ keep mine xs
  keep-append [] y h = rw h refl
  keep-append (x ∷ xs) y h = ground (arith, keep-append xs y h)

  keep-keep :
      (p : A → Bool) (xs : List A)
      → ((x : A) → mine x ≡ true → p x ≡ true)
      → keep mine (keep p xs) ≡ keep mine xs
  keep-keep p [] h = refl
  keep-keep p (x ∷ xs) h = ground (arith, h x, keep-keep p xs h)

  keep-update :
      (p : A → Bool) (f : A → A) (xs : List A)
      → ((x : A) → mine (f x) ≡ mine x)
      → ((x : A) → mine x ≡ true → p x ≡ false)
      → keep mine (update p f xs) ≡ keep mine xs
  keep-update p f [] same apart = refl
  keep-update p f (x ∷ xs) same apart =
      ground (arith, same x, apart x, keep-update p f xs same apart)

module _ (begins : Bool → Bool) (u v : ℕ) (other : u ≢ v) where
  abbrev Same : Tables → Tables → Type 0
  Same t t' = (plans_of v t' ≡ plans_of v t) × (sessions_of v t' ≡ sessions_of v t)

  not_plan : (plan_id : ℕ) (p : Plan) → (p.user_id == v) ≡ true → owned_plan plan_id u p ≡ false
  not_plan plan_id p h = ground (arith, other)

  not_session :
      (session_id : ℕ) (s : Session)
      → (s.user_id == v) ≡ true
      → owned_session session_id u s ≡ false
  not_session session_id s h = ground (arith, other)

  not_of_plan :
      (plan_id : ℕ) (s : Session) → (s.user_id == v) ≡ true → session_of_plan plan_id u s ≡ false
  not_of_plan plan_id s h = ground (arith, other)

  own_row : (u == v) ≡ false
  own_row = ground (arith, other)

  serve-Same : (r : Request) (t : Tables) → Same t (serve begins u r t)
  unfolding create_plan delete_plan_by_id update_plan_by_id create_session delete_session_by_id
      update_session_by_id
  serve-Same (creates_plan id name) t = (keep-append _ t.plans _ own_row, refl)
  serve-Same (deletes_plan plan_id) t = elim (Result-cases (ensure_owned_plan plan_id u t)) [
    | inr (e, f) ↦ rw (delete_plan_by_id, f) (refl, refl)
    | inl (plan, f) ↦ elim (Bool-cases (begins true)) [
      | inr g ↦ rw (delete_plan_by_id, f, g) (refl, refl)
      | inl g ↦
          rw (delete_plan_by_id, f, g)
            (
              keep-keep _ _ t.plans (λ p h. ground (arith, not_plan plan_id p h)),
              keep-keep _ _ t.sessions (λ s h. ground (arith, not_of_plan plan_id s h)),
            )
    ]
  ]
  serve-Same (renames_plan plan_id name) t = elim (Result-cases (ensure_owned_plan plan_id u t)) [
    | inr (e, f) ↦ rw (update_plan_by_id, f) (refl, refl)
    | inl (plan, f) ↦
        rw (update_plan_by_id, f) (keep-update _ _ _ t.plans (λ p. refl) (not_plan plan_id), refl)
  ]
  serve-Same (creates_session id name thread_id plan_id) t =
      elim (Result-cases (ensure_owned_plan plan_id u t)) [
        | inr (e, f) ↦ rw (create_session, f) (refl, refl)
        | inl (plan, f) ↦ rw (create_session, f) (refl, keep-append _ t.sessions _ own_row)
      ]
  serve-Same (deletes_session session_id) t =
      elim (Result-cases (ensure_owned_session_by_id session_id u t)) [
        | inr (e, f) ↦ rw (delete_session_by_id, f) (refl, refl)
        | inl (s, f) ↦
            rw (delete_session_by_id, f)
              (refl, keep-keep _ _ t.sessions (λ x h. ground (arith, not_session session_id x h)))
      ]
  serve-Same (renames_session session_id name) t =
      elim (Result-cases (ensure_owned_session_by_id session_id u t)) [
        | inr (e, f) ↦ rw (update_session_by_id, f) (refl, refl)
        | inl (s, f) ↦
            rw (update_session_by_id, f)
              (refl, keep-update _ _ _ t.sessions (λ x. refl) (not_session session_id))
      ]

-- The tables after requests of several users, in their order.
abbrev pub serve_all : (begins : Bool → Bool) → List (ℕ × Request) → Tables → Tables
serve_all begins [] t = t
serve_all begins ((u, r) ∷ rs) t = serve_all begins rs (serve begins u r t)

-- Whatever the other users request, in any order: the plans and the sessions of a user are the same
-- rows afterwards, unchanged and in the same order.
pub serve_all-isolated :
    (begins : Bool → Bool) (v : ℕ) (rs : List (ℕ × Request)) (t : Tables)
    → All (λ (x : ℕ × Request). x.0 ≢ v) rs
    → (plans_of v (serve_all begins rs t) ≡ plans_of v t)
      × (sessions_of v (serve_all begins rs t) ≡ sessions_of v t)
serve_all-isolated begins v [] t h = (refl, refl)
serve_all-isolated begins v ((u, r) ∷ rs) t h =
    let (plans, sessions) = serve-Same begins u v h.0 r t in
    let (plans', sessions') = serve_all-isolated begins v rs (serve begins u r t) h.1 in
    (plans' ∙ plans, sessions' ∙ sessions)
