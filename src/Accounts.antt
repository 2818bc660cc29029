-- ===== src/Accounts.antt =====
-- The users, their plans and their sessions: backend/app/services/{auth,plan,session}_service.py.
-- A table is the list of its rows. A request runs in one database session, which `get_db` commits at
-- its end, or rolls back where the request raises; so a call that raises leaves the tables. `id` of a
-- new row is the number that the database gives it.
pub mod Isolation
use smart_class_agent.Common.{
  ℕ, suc, String, Bool, true, false, ◌&&◌, not, Option, none, some, List, [], ◌∷◌, ◌++◌, keep,
  first, any, update, str_eq, leb, ◌==◌, if◌then◌else◌, Result, ok, err, ◌>>=◌, ◌>>◌, guard,
}

-- backend/app/models/user.py, plan.py and session.py
pub record User : Type 0 where
  pub id : ℕ
  pub username : String
  pub password_hash : String
  pub display_name : String
  pub role : String
  pub is_active : Bool
  pub is_superuser : Bool

pub record Plan : Type 0 where
  pub id : ℕ
  pub user_id : ℕ
  pub name : String

pub record Session : Type 0 where
  pub id : ℕ
  pub name : String
  pub thread_id : String
  pub user_id : ℕ
  pub plan_id : ℕ

pub record Tables : Type 0 where
  pub users : List User
  pub plans : List Plan
  pub sessions : List Session

pub data AccountError : Type 0 where
  plan_not_found session_not_found : ℕ → AccountError
  thread_not_found : String → AccountError
  admin_reserved username_exists invalid_credentials user_disabled : AccountError
  -- the error of SQLAlchemy
  transaction_begun : AccountError

-- `scalar_one_or_none()`, with the error of a missing row.
abbrev or_raise {ℓ} : {A : Type ℓ} → AccountError → Option A → Result AccountError A
or_raise e none = err e
or_raise e (some a) = ok a

abbrev pub owned_plan : ℕ → ℕ → Plan → Bool
owned_plan plan_id user_id p = p.id == plan_id && p.user_id == user_id

abbrev pub owned_session : ℕ → ℕ → Session → Bool
owned_session session_id user_id s = s.id == session_id && s.user_id == user_id

abbrev pub session_of_plan : ℕ → ℕ → Session → Bool
session_of_plan plan_id user_id s = s.plan_id == plan_id && s.user_id == user_id

-- `get_plan`: the rows are added with rising identifiers, which is their order.
unfoldable get_plan : ℕ → Tables → List Plan
get_plan user_id t = keep (λ (p : Plan). p.user_id == user_id) t.plans

unfoldable pub create_plan : ℕ → String → ℕ → Tables → Tables × Plan
create_plan id name user_id t =
    let new_plan : Plan = record { id = id; user_id = user_id; name = name } in
    (record t { plans = t.plans ++ (new_plan ∷ []) }, new_plan)

unfoldable pub ensure_owned_plan : ℕ → ℕ → Tables → Result AccountError Plan
ensure_owned_plan plan_id user_id t =
    or_raise (plan_not_found plan_id) (first (owned_plan plan_id user_id) t.plans)

-- `begins` is what `db.begin()` does in a database session, which is in a transaction or not: it
-- returns, or raises `InvalidRequestError`. The query before has begun a transaction.
unfoldable pub delete_plan_by_id :
    (begins : Bool → Bool) → ℕ → ℕ → Tables → Result AccountError Tables
unfolding ensure_owned_plan
delete_plan_by_id begins plan_id user_id t = do
  _ ← ensure_owned_plan plan_id user_id t
  guard (begins true) transaction_begun
  ok (record t {
    sessions = keep (λ s. not (session_of_plan plan_id user_id s)) t.sessions;
    plans = keep (λ p. not (owned_plan plan_id user_id p)) t.plans;
  })

unfoldable pub update_plan_by_id : ℕ → String → ℕ → Tables → Result AccountError Tables
unfolding ensure_owned_plan
update_plan_by_id plan_id name user_id t = do
  _ ← ensure_owned_plan plan_id user_id t
  ok (record t {
    plans = update (owned_plan plan_id user_id) (λ (p : Plan). record p { name = name }) t.plans;
  })

unfoldable get_session_list_by_plan : ℕ → ℕ → Tables → Result AccountError (List Session)
unfolding ensure_owned_plan
get_session_list_by_plan plan_id user_id t = do
  _ ← ensure_owned_plan plan_id user_id t
  ok (keep (session_of_plan plan_id user_id) t.sessions)

-- `thread_id` is the `uuid4().hex` of the call.
unfoldable pub create_session :
    (id : ℕ)
    → (name thread_id : String) → (plan_id user_id : ℕ) → Tables
    → Result AccountError (Tables × Session)
unfolding ensure_owned_plan
create_session id name thread_id plan_id user_id t = do
  _ ← ensure_owned_plan plan_id user_id t
  let new_session : Session = record {
    id = id;
    name = name;
    thread_id = thread_id;
    user_id = user_id;
    plan_id = plan_id;
  }
  ok (record t { sessions = t.sessions ++ (new_session ∷ []) }, new_session)

abbrev is_user : Option ℕ → Session → Bool
is_user none s = true
is_user (some user_id) s = s.user_id == user_id

unfoldable get_session_by_thread_id : String → Option ℕ → Tables → Option Session
get_session_by_thread_id thread_id user_id t =
    first (λ s. str_eq s.thread_id thread_id && is_user user_id s) t.sessions

unfoldable ensure_owned_session_by_thread_id : String → ℕ → Tables → Result AccountError Session
unfolding get_session_by_thread_id
ensure_owned_session_by_thread_id thread_id user_id t =
    or_raise (thread_not_found thread_id) (get_session_by_thread_id thread_id (some user_id) t)

unfoldable pub ensure_owned_session_by_id : ℕ → ℕ → Tables → Result AccountError Session
ensure_owned_session_by_id session_id user_id t =
    or_raise (session_not_found session_id) (first (owned_session session_id user_id) t.sessions)

unfoldable pub delete_session_by_id : ℕ → ℕ → Tables → Result AccountError Tables
unfolding ensure_owned_session_by_id
delete_session_by_id session_id user_id t = do
  _ ← ensure_owned_session_by_id session_id user_id t
  ok (record t { sessions = keep (λ s. not (owned_session session_id user_id s)) t.sessions })

unfoldable pub update_session_by_id : ℕ → String → ℕ → Tables → Result AccountError Tables
unfolding ensure_owned_session_by_id
update_session_by_id session_id name user_id t = do
  _ ← ensure_owned_session_by_id session_id user_id t
  ok (record t {
    sessions =
        update (owned_session session_id user_id) (λ (s : Session). record s { name = name })
          t.sessions;
  })

-- What the code takes from elsewhere: the hash of a password and its check, and `str.strip` and
-- `str.lower`.
pub record Library : Type 0 where
  pub hash_password : String → String
  pub verify_password : String → String → Bool
  pub strip : String → String
  pub lower : String → String

abbrev get_user_by_username : String → Tables → Option User
get_user_by_username username t = first (λ (u : User). str_eq u.username username) t.users

abbrev add_user : User → Tables → Tables × User
add_user user t = (record t { users = t.users ++ (user ∷ []) }, user)

module _ (L : Library) where
  unfoldable ensure_default_admin : ℕ → Tables → Tables × User
  ensure_default_admin id t = elim (get_user_by_username "admin" t) [
    | some admin ↦ (t, admin)
    | none ↦
        add_user
          (record {
            id = id;
            username = "admin";
            password_hash = L.hash_password "admin12345";
            display_name = "系统管理员";
            role = "admin";
            is_active = true;
            is_superuser = false;
          })
          t
  ]

  no_user : Option User → Result AccountError (Unit {0})
  no_user none = ok tt
  no_user (some user) = err username_exists

  unfoldable pub register_user :
      ℕ → (username password display_name : String) → Tables → Result AccountError (Tables × User)
  unfolding no_user
  register_user id username password display_name t = do
    let normalized_username = L.strip username
    guard (not (str_eq (L.lower normalized_username) "admin")) admin_reserved
    no_user (get_user_by_username normalized_username t)
    ok (
        add_user
          (record {
            id = id;
            username = normalized_username;
            password_hash = L.hash_password password;
            display_name = L.strip display_name;
            role = "teacher";
            is_active = true;
            is_superuser = false;
          })
          t)

  unfoldable authenticate_user : (username password : String) → Tables → Result AccountError User
  authenticate_user username password t = do
    user ← or_raise invalid_credentials (get_user_by_username (L.strip username) t)
    guard (L.verify_password password user.password_hash) invalid_credentials
    guard user.is_active user_disabled
    ok user
