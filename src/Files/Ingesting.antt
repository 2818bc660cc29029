-- ===== src/Files/Ingesting.antt =====
-- The deletion of a file, and the index of its chunks: delete_file, get_recoverable_file_ids and
-- process_file_ingestion.
use smart_class_agent.Common.{
  ℕ, ◌+◌, ◌==◌, String, Bool, true, false, not, Option, none, some, List, [], ◌∷◌, ◌++◌, Text, take,
  keep, any, update, map, str_eq, if◌then◌else◌, Result, ok, err, ◌>>◌, guard,
}
use smart_class_agent.Files.{
  FileStatus, uploaded, indexing, ready, failed, deleted, is_deleted, KnowledgeFile, FileWorld,
  FileError, file_not_found, unsupported_type, missing_object, ingestion_failed, get_file_by_id,
  write_row,
}

abbrev pub is_unfinished : FileStatus → Bool
is_unfinished uploaded = true
is_unfinished indexing = true
is_unfinished _ = false

abbrev pub as_indexing : ℕ → KnowledgeFile → KnowledgeFile
as_indexing now f = record f { status = indexing; error_message = none; updated_at = now }

abbrev pub as_ready : ℕ → ℕ → KnowledgeFile → KnowledgeFile
as_ready chunk_count now f = record f {
  status = ready;
  chunk_count = chunk_count;
  error_message = none;
  indexed_at = some now;
  updated_at = now;
}

abbrev pub as_failed : Text → ℕ → KnowledgeFile → KnowledgeFile
as_failed message now f = record f {
  status = failed;
  error_message = some (take 2000 message);
  updated_at = now;
}

abbrev as_deleted : ℕ → KnowledgeFile → KnowledgeFile
as_deleted now f = record f { status = deleted; updated_at = now }

abbrev pub without_file : ℕ → FileWorld → FileWorld
without_file file_id w = record w {
  chunks = keep (λ (c : ℕ × String). not (c.0 == file_id)) w.chunks;
}

-- `delete_file`: the chunks, the row and the object.
unfoldable delete_file : ℕ → ℕ → ℕ → FileWorld → Result FileError FileWorld
unfolding get_file_by_id
delete_file file_id user_id now w = elim (get_file_by_id file_id (some user_id) true w) [
  | none ↦ err (file_not_found file_id)
  | some f ↦
      let marked = write_row file_id (as_deleted now) (without_file file_id w) in
      ok (record marked { objects = keep (λ o. not (str_eq o f.storage_path)) marked.objects })
]

-- The files that a start of the process takes up again.
unfoldable get_recoverable_file_ids : ℕ → FileWorld → FileWorld × List ℕ
get_recoverable_file_ids now w = (
  record w {
    files =
        update (λ (f : KnowledgeFile). elim (f.status) [ indexing ↦ true | _ ↦ false ])
          (λ (f : KnowledgeFile). record f { status = uploaded; updated_at = now }) w.files;
  },
  map (λ (f : KnowledgeFile). f.id) (keep (λ f. is_unfinished f.status) w.files),
)

-- What `rag_runtime` does with a file: whether it knows its kind, its chunks or an error, and how the
-- index answers.
pub record Ingestion : Type 0 where
  pub supports : String → Bool
  pub load_and_split : KnowledgeFile → Result Text (List String)
  -- the errors of the index, if it raises: when it deletes chunks, and when it adds them, of which
  -- it then has none
  pub delete_error : Option Text
  pub add_error : Option Text

unfoldable pub chunks_of : Ingestion → KnowledgeFile → FileWorld → Result FileError (List String)
chunks_of g f w = do
  guard (g.supports f.extension) unsupported_type
  guard (any (str_eq f.storage_path) w.objects) missing_object
  elim (g.load_and_split f) [ ok chunks ↦ ok chunks | err e ↦ err (ingestion_failed e) ]

abbrev pub count_of : List String → ℕ
count_of [] = 0
count_of (c ∷ cs) = count_of cs + 1

-- The `try` of `process_file_ingestion`; `message` is the text of an error.
unfoldable pub ingest :
    Ingestion
    → (message : FileError → Text) → ℕ
    → KnowledgeFile
    → FileWorld
    → FileWorld × Result FileError (Unit {0})
unfolding chunks_of
ingest g message now f w = elim (chunks_of g f w) [
  | err e ↦ (write_row f.id (as_failed (message e) now) w, err e)
  | ok chunks ↦ elim g.delete_error [
    | some e ↦
        (write_row f.id (as_failed (message (ingestion_failed e)) now) w, err (ingestion_failed e))
    | none ↦ elim g.add_error [
      | some e ↦ (
        write_row f.id (as_failed (message (ingestion_failed e)) now) (without_file f.id w),
        err (ingestion_failed e),
      )
      | none ↦ (
        write_row f.id (as_ready (count_of chunks) now)
            (record w { chunks = map (λ c. (f.id, c)) chunks ++ (without_file f.id w).chunks }),
        ok tt,
      )
    ]
  ]
]

unfoldable pub process_file_ingestion :
    Ingestion
    → (FileError → Text)
    → ℕ
    → Option ℕ
    → ℕ
    → FileWorld
    → FileWorld × Result FileError (Unit {0})
unfolding ingest get_file_by_id
process_file_ingestion g message file_id user_id now w =
    elim (get_file_by_id file_id user_id true w) [
      | none ↦ (w, ok tt)
      | some f ↦
          if is_deleted f.status
          then (w, ok tt)
          else ingest g message now f (write_row file_id (as_indexing now) w)
    ]
