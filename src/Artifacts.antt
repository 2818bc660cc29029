-- ===== src/Artifacts.antt =====
-- backend/app/services/artifact_service.py: the generated files of a thread and their revisions.
-- The columns that name the stored file (original_name, stored_name, extension, mime_type and the
-- storage columns) are one field, `file`, which a call takes as it is; the checks of the plan and
-- the thread are the argument `allowed`. `strip` is Python's, and `now` the clock of the call.
pub mod Current
pub mod Revisions
use smart_class_agent.Common.{
  ℕ, ◌+◌, String, Bool, true, false, ◌&&◌, ◌||◌, not, Option, none, some, List, [], ◌∷◌, Text, keep,
  take, first, update, str_eq, ltb, ◌==◌, if◌then◌else◌, Result, ok, err, ◌>>=◌, ◌>>◌, guard,
}

pub data ArtifactType : Type 0 where
  ppt docx html_game : ArtifactType

abbrev pub same_type : ArtifactType → ArtifactType → Bool
same_type ppt ppt = true
same_type docx docx = true
same_type html_game html_game = true
same_type _ _ = false

pub data ArtifactStatus : Type 0 where
  pending running ready failed : ArtifactStatus

abbrev pub is_running : ArtifactStatus → Bool
is_running running = true
is_running _ = false

abbrev is_ready : ArtifactStatus → Bool
is_ready ready = true
is_ready _ = false

abbrev max_error_message_length : ℕ
max_error_message_length = 2000

pub record ArtifactFile : Type 0 where
  pub id : ℕ
  pub user_id : ℕ
  pub plan_id : ℕ
  pub thread_id : String
  pub artifact_type : ArtifactType
  pub parent_artifact_id : Option ℕ
  pub root_artifact_id : Option ℕ
  pub revision_number : ℕ
  pub is_current : Bool
  pub title : String
  pub file : String
  pub size_bytes : ℕ
  pub status : ArtifactStatus
  pub error_message : Option Text
  pub created_at : ℕ
  pub updated_at : ℕ

abbrev pub Artifacts : Type 0
Artifacts = List ArtifactFile

pub data ArtifactError : Type 0 where
  not_allowed output_not_found : ArtifactError
  artifact_not_found : ℕ → ArtifactError

abbrev default_title : ArtifactType → String
default_title ppt = "教学课件"
default_title docx = "教案文档"
default_title html_game = "互动内容"

-- `value or default`
abbrev or_default : String → String → String
or_default value default = if str_eq value "" then default else value

abbrev optional : Option String → String
optional none = ""
optional (some s) = s

-- `ArtifactFile.user_id == user_id`, if there is one.
abbrev pub of_user : Option ℕ → ArtifactFile → Bool
of_user none a = true
of_user (some u) a = a.user_id == u

-- `order_by(key.desc(), id.desc())`, by insertion.
abbrev above : (ArtifactFile → ℕ) → ArtifactFile → ArtifactFile → Bool
above key a b = ltb (key b) (key a) || (key a == key b && ltb b.id a.id)

unfoldable pub insert_newest : (ArtifactFile → ℕ) → ArtifactFile → Artifacts → Artifacts
insert_newest key a [] = a ∷ []
insert_newest key a (b ∷ bs) =
    let rest = insert_newest key a bs in if above key a b then a ∷ b ∷ bs else b ∷ rest

unfoldable pub newest_first : (ArtifactFile → ℕ) → Artifacts → Artifacts
unfolding insert_newest
newest_first key [] = []
newest_first key (a ∷ as') = insert_newest key a (newest_first key as')

-- `_list_artifacts`
list_artifacts_by_thread : String → Bool → Option ℕ → Artifacts → Artifacts
unfolding newest_first
list_artifacts_by_thread thread_id include_history user_id db =
    newest_first (λ a. a.created_at)
      (keep
        (λ a.
          str_eq a.thread_id thread_id
          && (of_user user_id a && (include_history || (a.is_current || is_running a.status))))
        db)

unfoldable list_current_artifacts_by_thread : String → Option ℕ → Artifacts → Artifacts
unfolding list_artifacts_by_thread
list_current_artifacts_by_thread thread_id user_id db =
    keep (λ a. is_ready a.status || a.is_current)
      (list_artifacts_by_thread thread_id false user_id db)

pub get_latest_current_artifact_by_type :
    String → ArtifactType → Option ℕ → Artifacts → Option ArtifactFile
unfolding newest_first
get_latest_current_artifact_by_type thread_id artifact_type user_id db =
    first (λ a. true)
      (newest_first (λ a. a.updated_at)
        (keep
          (λ a.
            str_eq a.thread_id thread_id
            && (of_user user_id a && (same_type a.artifact_type artifact_type && a.is_current)))
          db))

abbrev pub is_ready_current : String → Option ℕ → ArtifactFile → Bool
is_ready_current thread_id user_id a =
    str_eq a.thread_id thread_id && (of_user user_id a && (a.is_current && is_ready a.status))

-- The filter after the query tests three of its conditions again.
pub list_ready_current_artifacts_by_thread : String → Option ℕ → Artifacts → Artifacts
unfolding newest_first
list_ready_current_artifacts_by_thread thread_id user_id db =
    keep (λ a. str_eq a.thread_id thread_id && (a.is_current && is_ready a.status))
      (newest_first (λ a. a.updated_at) (keep (is_ready_current thread_id user_id) db))

unfoldable get_current_artifact_by_id : ℕ → Option ℕ → Artifacts → Option ArtifactFile
get_current_artifact_by_id id user_id db =
    first (λ a. a.id == id && (a.is_current && of_user user_id a)) db

get_artifact_by_id : ℕ → Option ℕ → Artifacts → Option ArtifactFile
get_artifact_by_id id user_id db = first (λ a. a.id == id && of_user user_id a) db

unfoldable require_artifact_by_id : ℕ → Option ℕ → Artifacts → Result ArtifactError ArtifactFile
unfolding get_artifact_by_id
require_artifact_by_id id user_id db = elim (get_artifact_by_id id user_id db) [
  | none ↦ err (artifact_not_found id)
  | some a ↦ ok a
]

-- The arguments of `create_running_artifact`; `id` is the identifier that the database draws.
pub record NewArtifact : Type 0 where
  pub id : ℕ
  pub plan_id : ℕ
  pub thread_id : String
  pub artifact_type : ArtifactType
  pub user_id : ℕ
  pub title : Option String
  pub parent_artifact_id : Option ℕ
  pub root_artifact_id : Option ℕ
  pub revision_number : Option ℕ
  pub file : String
  pub now : ℕ

abbrev is_none : Option ℕ → Bool
is_none none = true
is_none (some n) = false

-- `revision_number or 1`
abbrev pub revision_or_one : Option ℕ → ℕ
revision_or_one none = 1
revision_or_one (some n) = if n == 0 then 1 else n

abbrev pub or_own : Option ℕ → ℕ → ℕ
or_own none own = own
or_own (some n) own = n

module _ (strip : String → String) where
  -- The row after both commits: without a root it is its own.
  pub new_artifact : NewArtifact → ArtifactFile
  new_artifact new = record {
    id = new.id;
    user_id = new.user_id;
    plan_id = new.plan_id;
    thread_id = new.thread_id;
    artifact_type = new.artifact_type;
    parent_artifact_id = new.parent_artifact_id;
    root_artifact_id = some (or_own new.root_artifact_id new.id);
    revision_number = revision_or_one new.revision_number;
    is_current = is_none new.parent_artifact_id;
    title =
        or_default (strip (or_default (optional new.title) (default_title new.artifact_type)))
          (default_title new.artifact_type);
    file = new.file;
    size_bytes = 0;
    status = running;
    error_message = none;
    created_at = new.now;
    updated_at = new.now;
  }

  pub create_running_artifact :
      Bool → NewArtifact → Artifacts → Result ArtifactError (Artifacts × ArtifactFile)
  unfolding new_artifact
  create_running_artifact allowed new db = do
    guard allowed not_allowed
    ok (new_artifact new ∷ db, new_artifact new)

  -- The arguments that `create_revision_artifact` passes on.
  pub revision_of : ℕ → ℕ → String → Option String → ArtifactFile → NewArtifact
  revision_of id now file title source = record {
    id = id;
    plan_id = source.plan_id;
    thread_id = source.thread_id;
    artifact_type = source.artifact_type;
    user_id = source.user_id;
    title = some (or_default (optional title) source.title);
    parent_artifact_id = some source.id;
    root_artifact_id = some (or_own source.root_artifact_id source.id);
    revision_number = some (revision_or_one (some source.revision_number) + 1);
    file = file;
    now = now;
  }

  pub create_revision_artifact :
      Bool
      → ℕ
      → ℕ
      → String
      → Option String
      → ArtifactFile
      → Artifacts
      → Result ArtifactError (Artifacts × ArtifactFile)
  unfolding create_running_artifact revision_of
  create_revision_artifact allowed id now file title source db =
      create_running_artifact allowed (revision_of id now file title source) db

  -- Of `current_stmt`: another current artifact of the thread, the user and the type.
  abbrev pub superseded : ArtifactFile → ArtifactFile → Bool
  superseded artifact a =
      str_eq a.thread_id artifact.thread_id
      && (a.user_id == artifact.user_id
          && (same_type a.artifact_type artifact.artifact_type
              && (a.is_current && not (a.id == artifact.id))))

  abbrev pub cleared : ℕ → ArtifactFile → ArtifactFile
  cleared now a = record a { is_current = false; updated_at = now }

  abbrev pub made_ready : ℕ → String → ℕ → Option String → ArtifactFile → ArtifactFile
  made_ready now file size title a = record a {
    title = or_default (strip (or_default (optional title) a.title)) a.title;
    file = file;
    size_bytes = size;
    status = ready;
    is_current = true;
    error_message = none;
    updated_at = now;
  }

  -- `artifact` is the row of its identifier; `exists` tells that the output is a file, and `file`
  -- and `size` are what the storage answers.
  pub mark_artifact_ready :
      Bool
      → ℕ
      → String
      → ℕ
      → Option String
      → ArtifactFile
      → Artifacts
      → Result ArtifactError Artifacts
  mark_artifact_ready exists now file size title artifact db = do
    guard exists output_not_found
    ok (
        update (λ a. a.id == artifact.id) (made_ready now file size title)
          (update (superseded artifact) (cleared now) db))

  pub mark_artifact_failed : ℕ → Text → ℕ → Artifacts → Artifacts
  mark_artifact_failed now message id db =
      update (λ a. a.id == id)
        (λ a. record a {
          status = failed;
          error_message = some (take max_error_message_length message);
          updated_at = now;
        })
        db
