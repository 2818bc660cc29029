-- ===== src/Artifacts/Revisions.antt =====
-- A revision that fails leaves the artifact that it revises in its place.
use smart_class_agent.Common.{
  ℕ, ◌+◌, String, ◌≡◌, refl, ap, ◌∙◌, Bool, true, false, Option, some, List, [], ◌∷◌, Text, any,
  update, ◌==◌, ok, arith, ◌&&◌, str_eq, take,
}
use smart_class_agent.Artifacts.{
  ArtifactType, ArtifactFile, Artifacts, create_revision_artifact, create_running_artifact,
  new_artifact, revision_of, revision_or_one, or_own, mark_artifact_failed, is_ready_current,
  of_user, same_type, failed, list_ready_current_artifacts_by_thread,
  get_latest_current_artifact_by_type,
}

update-none :
    {A : Type 0} (p : A → Bool) (f : A → A) (xs : List A) → any p xs ≡ false → update p f xs ≡ xs
update-none p f [] h = refl
update-none p f (x ∷ xs) h = ground (arith, update-none p f xs)

-- A row that is not current is in neither answer.
not_current-list :
    (a : ArtifactFile) (t : String) (u : Option ℕ) (db : Artifacts)
    → a.is_current ≡ false
    → list_ready_current_artifacts_by_thread t u (a ∷ db)
      ≡ list_ready_current_artifacts_by_thread t u db
unfolding list_ready_current_artifacts_by_thread
not_current-list a t u db e = let out : is_ready_current t u a ≡ false = ground arith in rw out refl

not_current-latest :
    (a : ArtifactFile) (t : String) (y : ArtifactType) (u : Option ℕ) (db : Artifacts)
    → a.is_current ≡ false
    → get_latest_current_artifact_by_type t y u (a ∷ db)
      ≡ get_latest_current_artifact_by_type t y u db
unfolding get_latest_current_artifact_by_type
not_current-latest a t y u db e =
    let out : (str_eq a.thread_id t
          && (of_user u a && (same_type a.artifact_type y && a.is_current)))
        ≡ false =
      ground arith in
    rw out refl

module _ (strip : String → String) (id now later : ℕ) (file : String) (title : Option String)
    (source : ArtifactFile) (message : Text) (db : Artifacts) where
  -- What a failure makes of a row.
  abbrev as_failed : ArtifactFile → ArtifactFile
  as_failed a = record a {
    status = failed;
    error_message = some (take 2000 message);
    updated_at = later;
  }

  marked :
      (new : ArtifactFile)
      → new.id ≡ id
      → any (λ a. a.id == id) db ≡ false
      → mark_artifact_failed strip later message id (new ∷ db) ≡ as_failed new ∷ db
  unfolding mark_artifact_failed
  marked new e unused =
      let own : (new.id == id) ≡ true = ground arith in
      rw (own, update-none (λ a. a.id == id) as_failed db unused) refl

  -- A revision that is created under an unused identifier, and then fails, has the source's root and
  -- the next revision number; and the lists of ready current artifacts, and the latest current
  -- artifact of each type, are for every thread and user what they were before.
  pub failed_revision_keeps :
      any (λ a. a.id == id) db ≡ false
      → (db₁ : Artifacts) × (new : ArtifactFile) × (create_revision_artifact strip true id now file
            title source db
          ≡ ok (db₁, new))
        × (new.revision_number ≡ revision_or_one (some source.revision_number) + 1)
        × (new.root_artifact_id ≡ some (or_own source.root_artifact_id source.id))
        × ((thread_id : String) (user_id : Option ℕ)
            → list_ready_current_artifacts_by_thread thread_id user_id
                (mark_artifact_failed strip later message id db₁)
              ≡ list_ready_current_artifacts_by_thread thread_id user_id db)
        × ((thread_id : String) (artifact_type : ArtifactType) (user_id : Option ℕ)
            → get_latest_current_artifact_by_type thread_id artifact_type user_id
                (mark_artifact_failed strip later message id db₁)
              ≡ get_latest_current_artifact_by_type thread_id artifact_type user_id db)
  unfolding create_revision_artifact create_running_artifact new_artifact revision_of
  failed_revision_keeps unused =
      let new = new_artifact strip (revision_of strip id now file title source) in
      let after = marked new refl unused in
      (
        new ∷ db,
        new,
        refl,
        ground arith,
        refl,
        λ t u.
            ap (list_ready_current_artifacts_by_thread t u) after ∙ not_current-list _ t u db refl,
        λ t y u.
            ap (get_latest_current_artifact_by_type t y u) after
            ∙ not_current-latest _ t y u db refl,
      )
