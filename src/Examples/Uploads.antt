-- ===== src/Examples/Uploads.antt =====
-- A plan whose worksheet failed, and was uploaded once more.
use smart_class_agent.Common.{◌≡◌, refl, true, none, some, [], ◌∷◌, ok, err}
use smart_class_agent.Files.{
  KnowledgeFile, FileError, failed, ready, FileWorld, multiple_results, Upload, UploadLimits,
  create_file_from_upload, retry_file, get_existing_file_by_hash, get_file_by_id, visible,
  validate_upload, scalar_one_or_none, new_file,
}
use smart_class_agent.Common.{Text, false, any}
use smart_class_agent.Files.Ingesting.{Ingestion, process_file_ingestion}
use smart_class_agent.Files.Settling.{
  is_waiting, other_rows, other_chunks, process_file_ingestion-settles,
}
use smart_class_agent.Files.Hashes.{none_yet, then_upload, create_file_from_upload_again}
use smart_class_agent.Files.Retries.{retry_file-duplicates}

abbrev limits : UploadLimits
limits = record { allowed_extensions = ".pdf" ∷ ".md" ∷ []; max_size = 1000 }

abbrev worksheet : Upload
worksheet = record {
  original_name = "sheet.pdf";
  extension = ".pdf";
  size_bytes = 300;
  sha256 = "abc";
}

abbrev broken : KnowledgeFile
broken = record {
  id = 1;
  user_id = 7;
  plan_id = 3;
  original_name = "sheet.pdf";
  extension = ".pdf";
  size_bytes = 300;
  sha256 = "abc";
  storage_path = "p/1";
  status = failed;
  error_message = some (101 ∷ []);
  chunk_count = 0;
  updated_at = 20;
  indexed_at = none;
}

abbrev indexed : KnowledgeFile
indexed = record broken {
  id = 2;
  storage_path = "p/2";
  status = ready;
  error_message = none;
  chunk_count = 1;
  indexed_at = some 40;
}

abbrev one_failed : FileWorld
one_failed = record { files = broken ∷ []; chunks = []; objects = "p/1" ∷ [] }

abbrev replaced : FileWorld
replaced = record {
  files = broken ∷ indexed ∷ [];
  chunks = (2, "Task 1") ∷ [];
  objects = "p/2" ∷ "p/1" ∷ [];
}

abbrev added : FileWorld × KnowledgeFile
added =
    let f = new_file 2 3 7 "p/2" 30 worksheet in
    (record { files = broken ∷ f ∷ []; chunks = []; objects = "p/2" ∷ "p/1" ∷ [] }, f)

uploaded_once : create_file_from_upload limits 2 3 7 "p/2" 30 worksheet one_failed ≡ ok added
unfolding create_file_from_upload validate_upload get_existing_file_by_hash scalar_one_or_none
    new_file
uploaded_once = refl

-- Another file of the plan comes in between.
abbrev notes : Upload
notes = record { original_name = "notes.md"; extension = ".md"; size_bytes = 20; sha256 = "def" }

abbrev with_notes : FileWorld × KnowledgeFile
with_notes =
    let f = new_file 3 3 7 "p/3" 40 notes in
    (
      record {
        files = broken ∷ added.1 ∷ f ∷ [];
        chunks = [];
        objects = "p/3" ∷ "p/2" ∷ "p/1" ∷ [];
      },
      f,
    )

uploaded_notes : create_file_from_upload limits 3 3 7 "p/3" 40 notes added.0 ≡ ok with_notes
unfolding create_file_from_upload validate_upload get_existing_file_by_hash scalar_one_or_none
    new_file
uploaded_notes = refl

create_file_from_upload_again_example :
    create_file_from_upload limits 4 3 7 "p/4" 50 worksheet with_notes.0
    ≡ ok (with_notes.0, added.1)
create_file_from_upload_again_example =
    create_file_from_upload_again limits 2 4 3 7 "p/2" "p/4" 30 50 worksheet one_failed with_notes.0
      added uploaded_once
      (then_upload limits 3 3 7 "p/3" 40 notes with_notes none_yet uploaded_notes)

found : get_file_by_id 1 (some 7) true replaced ≡ some broken
unfolding get_file_by_id visible
found = refl

other_active : get_existing_file_by_hash 3 7 "abc" replaced ≡ ok (some indexed)
unfolding get_existing_file_by_hash scalar_one_or_none
other_active = refl

allowed : validate_upload limits worksheet ≡ ok tt
unfolding validate_upload
allowed = refl

retry_file-duplicates_example :
    (w : FileWorld) × (retry_file 1 7 60 replaced ≡ ok w)
    × (create_file_from_upload limits 3 3 7 "p/3" 70 worksheet w ≡ err multiple_results)
retry_file-duplicates_example =
    retry_file-duplicates limits 1 3 60 70 "p/3" worksheet replaced broken indexed found refl
      other_active refl allowed

abbrev splitter : Ingestion
splitter = record {
  supports = λ extension. true;
  load_and_split = λ f. ok ("Task 1" ∷ "Task 2" ∷ []);
  delete_error = none;
  add_error = none;
}

abbrev wording : FileError → Text
wording e = 101 ∷ []

abbrev processed : FileWorld
processed = (process_file_ingestion splitter wording 1 (some 7) 80 replaced).0

process_file_ingestion-settles_example :
    (any (is_waiting 1) processed.files ≡ false)
    × (other_rows 1 processed ≡ other_rows 1 replaced)
    × (other_chunks 1 processed ≡ other_chunks 1 replaced)
process_file_ingestion-settles_example =
    process_file_ingestion-settles splitter wording 80 broken (some 7) replaced found refl
