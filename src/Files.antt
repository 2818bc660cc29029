-- ===== src/Files.antt =====
-- backend/app/services/file_service.py: the knowledge files of a plan, their upload and retry. The
-- table, the index and the object store are lists; the guesses of names and types, and the checks of
-- a plan, are made before. `id` and `now` are the row's number and the clock.
pub mod Hashes
pub mod Retries
pub mod Ingesting
pub mod Settling
use smart_class_agent.Common.{
  ℕ, ◌+◌, String, Bool, true, false, ◌&&◌, ◌||◌, not, Option, none, some, List, [], ◌∷◌, ◌++◌, Text,
  take, keep, first, any, update, map, str_eq, ltb, ◌==◌, if◌then◌else◌, Result, ok, err, ◌>>=◌,
  ◌>>◌, guard,
}

pub data FileStatus : Type 0 where
  uploaded indexing ready failed deleted : FileStatus

-- `ACTIVE_FILE_STATUSES`
abbrev pub is_active : FileStatus → Bool
is_active uploaded = true
is_active indexing = true
is_active ready = true
is_active _ = false

abbrev pub is_deleted : FileStatus → Bool
is_deleted deleted = true
is_deleted _ = false

-- backend/app/models/file.py; `storage_path` stands for the three columns of the stored object.
pub record KnowledgeFile : Type 0 where
  pub id : ℕ
  pub user_id : ℕ
  pub plan_id : ℕ
  pub original_name : String
  pub extension : String
  pub size_bytes : ℕ
  pub sha256 : String
  pub storage_path : String
  pub status : FileStatus
  pub error_message : Option Text
  pub chunk_count : ℕ
  pub updated_at : ℕ
  pub indexed_at : Option ℕ

-- The table, the chunks in the index with the number of their file, and the paths of the objects.
pub record FileWorld : Type 0 where
  pub files : List KnowledgeFile
  pub chunks : List (ℕ × String)
  pub objects : List String

pub data FileError : Type 0 where
  unsupported_type empty_file too_large : FileError
  file_not_found : ℕ → FileError
  deleted_not_retried : FileError
  -- the error of `scalar_one_or_none`
  multiple_results : FileError
  missing_object : FileError
  ingestion_failed : Text → FileError

abbrev pub of_user : Option ℕ → ℕ → KnowledgeFile → Bool
of_user none file_id f = f.id == file_id
of_user (some user_id) file_id f = f.id == file_id && f.user_id == user_id

-- A row that is deleted is hidden unless the caller asks for it.
unfoldable pub visible : Bool → KnowledgeFile → Option KnowledgeFile
visible include_deleted f = if not include_deleted && is_deleted f.status then none else some f

unfoldable pub get_file_by_id : ℕ → Option ℕ → Bool → FileWorld → Option KnowledgeFile
unfolding visible
get_file_by_id file_id user_id include_deleted w = elim (first (of_user user_id file_id) w.files) [
  | none ↦ none
  | some f ↦ visible include_deleted f
]

-- The rows are added with rising numbers; `descending` is the order of the newest first.
descending : List KnowledgeFile → List KnowledgeFile
descending [] = []
descending (f ∷ fs) = descending fs ++ (f ∷ [])

unfoldable list_files_by_plan : ℕ → ℕ → FileWorld → List KnowledgeFile
unfolding descending
list_files_by_plan plan_id user_id w = descending (
    keep (λ f. f.plan_id == plan_id && (f.user_id == user_id && not (is_deleted f.status))) w.files)

abbrev pub same_content : ℕ → ℕ → String → KnowledgeFile → Bool
same_content plan_id user_id sha256 f =
    f.plan_id == plan_id && (f.user_id == user_id && str_eq f.sha256 sha256)

-- The rows that `get_existing_file_by_hash` selects.
abbrev pub has_hash : ℕ → ℕ → String → KnowledgeFile → Bool
has_hash plan_id user_id sha256 f = same_content plan_id user_id sha256 f && is_active f.status

-- `scalar_one_or_none()`
unfoldable pub scalar_one_or_none {ℓ} : {A : Type ℓ} → List A → Result FileError (Option A)
scalar_one_or_none [] = ok none
scalar_one_or_none (a ∷ []) = ok (some a)
scalar_one_or_none (a ∷ b ∷ rest) = err multiple_results

unfoldable pub get_existing_file_by_hash :
    ℕ → ℕ → String → FileWorld → Result FileError (Option KnowledgeFile)
unfolding scalar_one_or_none
get_existing_file_by_hash plan_id user_id sha256 w =
    scalar_one_or_none (keep (has_hash plan_id user_id sha256) w.files)

-- An uploaded file, with what `_read_and_validate_upload_file` reads of it.
pub record Upload : Type 0 where
  pub original_name : String
  pub extension : String
  pub size_bytes : ℕ
  pub sha256 : String

pub record UploadLimits : Type 0 where
  pub allowed_extensions : List String
  pub max_size : ℕ

unfoldable pub validate_upload : UploadLimits → Upload → Result FileError (Unit {0})
validate_upload limits upload = do
  guard (any (str_eq upload.extension) limits.allowed_extensions) unsupported_type
  guard (not (upload.size_bytes == 0)) empty_file
  guard (not (ltb limits.max_size upload.size_bytes)) too_large

unfoldable pub new_file : ℕ → ℕ → ℕ → String → ℕ → Upload → KnowledgeFile
new_file id plan_id user_id storage_path now upload = record {
  id = id;
  user_id = user_id;
  plan_id = plan_id;
  original_name = upload.original_name;
  extension = upload.extension;
  size_bytes = upload.size_bytes;
  sha256 = upload.sha256;
  storage_path = storage_path;
  status = uploaded;
  error_message = none;
  chunk_count = 0;
  updated_at = now;
  indexed_at = none;
}

-- A file whose content is there already is not stored again. `storage_path` is where the object
-- store puts the new one.
abbrev pub kept_or_new :
    KnowledgeFile → FileWorld → Option KnowledgeFile → FileWorld × KnowledgeFile
kept_or_new new w (some f) = (w, f)
kept_or_new new w none =
    (record w { files = w.files ++ (new ∷ []); objects = new.storage_path ∷ w.objects }, new)

unfoldable pub create_file_from_upload :
    UploadLimits
    → (id plan_id user_id : ℕ) → (storage_path : String) → (now : ℕ) → Upload
    → FileWorld
    → Result FileError (FileWorld × KnowledgeFile)
create_file_from_upload limits id plan_id user_id storage_path now upload w = do
  validate_upload limits upload
  existing ← get_existing_file_by_hash plan_id user_id upload.sha256 w
  ok (kept_or_new (new_file id plan_id user_id storage_path now upload) w existing)

abbrev pub is_row : ℕ → KnowledgeFile → Bool
is_row file_id f = f.id == file_id

-- A change of one row.
abbrev pub write_row : ℕ → (KnowledgeFile → KnowledgeFile) → FileWorld → FileWorld
write_row file_id change w = record w { files = update (is_row file_id) change w.files }

abbrev pub as_uploaded : ℕ → KnowledgeFile → KnowledgeFile
as_uploaded now f = record f { status = uploaded; error_message = none; updated_at = now }

unfoldable pub retry_file : ℕ → ℕ → ℕ → FileWorld → Result FileError FileWorld
unfolding get_file_by_id
retry_file file_id user_id now w = elim (get_file_by_id file_id (some user_id) true w) [
  | none ↦ err (file_not_found file_id)
  | some f ↦
      if is_deleted f.status
      then err deleted_not_retried
      else ok (write_row file_id (as_uploaded now) w)
]
