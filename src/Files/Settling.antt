-- ===== src/Files/Settling.antt =====
-- What an ingestion leaves of the table and of the index.
use smart_class_agent.Common.{
  Option-cases, update, ℕ, ◌≡◌, refl, ◌∙◌, String, Bool, true, false, ◌&&◌, not, Option, some, List,
  [], ◌∷◌, ◌++◌, keep, any, map, arith, Result-cases, inl, inr, Text, ◌==◌,
}
use smart_class_agent.Common.Rows.{keep-update_other, any-update_ended}
use smart_class_agent.Files.{
  ingestion_failed, KnowledgeFile, FileWorld, FileError, is_deleted, is_row, write_row,
  get_file_by_id,
}
use smart_class_agent.Files.Ingesting.{
  as_failed, as_ready, count_of, Ingestion, is_unfinished, as_indexing, without_file, chunks_of,
  ingest, process_file_ingestion,
}

-- A row that waits for its ingestion, or is in it.
abbrev pub is_waiting : ℕ → KnowledgeFile → Bool
is_waiting file_id f = f.id == file_id && is_unfinished f.status

abbrev pub other_chunks : ℕ → FileWorld → List (ℕ × String)
other_chunks file_id w = keep (λ (c : ℕ × String). not (c.0 == file_id)) w.chunks

abbrev pub other_rows : ℕ → FileWorld → List KnowledgeFile
other_rows file_id w = keep (λ f. not (is_row file_id f)) w.files

keep_twice {ℓ} : {A : Type ℓ} (q : A → Bool) (xs : List A) → keep q (keep q xs) ≡ keep q xs
keep_twice q [] = refl
keep_twice q (x ∷ xs) = ground (arith, keep_twice q xs)

added_own :
    (file_id : ℕ) (cs : List String) (old : List (ℕ × String))
    → keep (λ (c : ℕ × String). not (c.0 == file_id)) (map (λ c. (file_id, c)) cs ++ old)
      ≡ keep (λ (c : ℕ × String). not (c.0 == file_id)) old
added_own file_id [] old = refl
added_own file_id (c ∷ cs) old = ground (arith, added_own file_id cs old)

-- The world that an ingestion leaves: a change of the file's row, in the world as it was, or with
-- other chunks of the file.
record Writes (f : KnowledgeFile) (w w' : FileWorld) : Type 0 where
  change : KnowledgeFile → KnowledgeFile
  same : (x : KnowledgeFile) → (change x).id ≡ x.id
  ends : (x : KnowledgeFile) → is_unfinished (change x).status ≡ false
  rows : w'.files ≡ update (is_row f.id) change w.files
  chunks : other_chunks f.id w' ≡ other_chunks f.id w

module _ (g : Ingestion) (message : FileError → Text) (now : ℕ) (f : KnowledgeFile) where
  Writes-failed :
      (e : FileError) (w : FileWorld) → Writes f w (write_row f.id (as_failed (message e) now) w)
  Writes-failed e w = record {
    change = as_failed (message e) now;
    same = λ x. refl;
    ends = λ x. refl;
    rows = refl;
    chunks = refl;
  }

  ingest-Writes : (w : FileWorld) → Writes f w (ingest g message now f w).0
  unfolding ingest
  ingest-Writes w = elim (Result-cases (chunks_of g f w)) [
    | inr (e, got) ↦ rw (ingest, got) (Writes-failed e w)
    | inl (cs, got) ↦ elim (Option-cases g.delete_error) [
      | inr (e, kept) ↦ rw (ingest, got, kept) (Writes-failed (ingestion_failed e) w)
      | inl cleared ↦ elim (Option-cases g.add_error) [
        | inr (e, lost) ↦
            rw (ingest, got, cleared, lost)
              (record {
                change = as_failed (message (ingestion_failed e)) now;
                same = λ x. refl;
                ends = λ x. refl;
                rows = refl;
                chunks = keep_twice _ w.chunks;
              })
        | inl added ↦
            rw (ingest, got, cleared, added)
              (record {
                change = as_ready (count_of cs) now;
                same = λ x. refl;
                ends = λ x. refl;
                rows = refl;
                chunks = added_own f.id cs (without_file f.id w).chunks ∙ keep_twice _ w.chunks;
              })
      ]
    ]
  ]

  ingest-rows : (w : FileWorld) → other_rows f.id (ingest g message now f w).0 ≡ other_rows f.id w
  ingest-rows w =
      let h = ingest-Writes w in
      rw h.rows (keep-update_other (is_row f.id) h.change (λ x. rw (h.same x) refl) w.files)

  ingest-ended : (w : FileWorld) → any (is_waiting f.id) (ingest g message now f w).0.files ≡ false
  ingest-ended w =
      let h = ingest-Writes w in
      rw h.rows (
        any-update_ended (is_row f.id) h.change (λ x. rw (h.same x) refl) (is_waiting f.id) w.files
          (λ x. ground (arith, h.ends x)) (λ x e. ground arith))

  -- The ingestion of a file that is there and not deleted, whatever its loading gives and
  -- whether or not the index raises: no row of
  -- the file is left waiting for an ingestion or in one, and neither a row nor a chunk of another file
  -- is touched.
  pub process_file_ingestion-settles :
      (user_id : Option ℕ) (w : FileWorld)
      → get_file_by_id f.id user_id true w ≡ some f
      → is_deleted f.status ≡ false
      → (any (is_waiting f.id) (process_file_ingestion g message f.id user_id now w).0.files
          ≡ false)
        × (other_rows f.id (process_file_ingestion g message f.id user_id now w).0
            ≡ other_rows f.id w)
        × (other_chunks f.id (process_file_ingestion g message f.id user_id now w).0
            ≡ other_chunks f.id w)
  unfolding process_file_ingestion
  process_file_ingestion-settles user_id w got present =
      let started = write_row f.id (as_indexing now) w in
      rw (process_file_ingestion, got, present)
        (
          ingest-ended started,
          ingest-rows started
              ∙ keep-update_other (is_row f.id) (as_indexing now) (λ x. refl) w.files,
          (ingest-Writes started).chunks,
        )
