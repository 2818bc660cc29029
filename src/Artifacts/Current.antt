-- ===== src/Artifacts/Current.antt =====
-- Of the artifacts of one type in a thread, the one made ready is the only current one.
use smart_class_agent.Common.{
  ℕ, String, ◌≡◌, refl, sym, ap, ◌∙◌, Bool, true, false, ◌&&◌, Option, [], ◌∷◌, count, update,
  str_eq, ◌==◌, if◌then◌else◌, All, ok, arith, Bool-cases, inl, inr, eq_iff,
}
use smart_class_agent.Artifacts.{
  ArtifactType, ArtifactFile, Artifacts, same_type, ppt, docx, html_game, superseded, cleared,
  made_ready, mark_artifact_ready,
}

-- A current artifact of the same thread, user and type.
abbrev pub current_like : ArtifactFile → ArtifactFile → Bool
current_like artifact a =
    str_eq a.thread_id artifact.thread_id
    && (a.user_id == artifact.user_id
        && (same_type a.artifact_type artifact.artifact_type && a.is_current))

-- The rows with the artifact's identifier are of its thread, user and type.
abbrev IsRowOf : ArtifactFile → ArtifactFile → Type 0
IsRowOf artifact a =
    (a.id == artifact.id) ≡ true
    → (a.thread_id ≡ artifact.thread_id)
      × (a.user_id ≡ artifact.user_id)
      × (a.artifact_type ≡ artifact.artifact_type)

same_type_refl : (t : ArtifactType) → same_type t t ≡ true
same_type_refl ppt = refl
same_type_refl docx = refl
same_type_refl html_game = refl

module _ (strip : String → String) (now : ℕ) (file : String) (size : ℕ) (title : Option String)
    (artifact : ArtifactFile) where
  -- What the call makes of a row.
  abbrev rewritten : ArtifactFile → ArtifactFile
  rewritten a =
      let b = if superseded strip artifact a then cleared strip now a else a in
      if b.id == artifact.id then made_ready strip now file size title b else b

  current-rewritten :
      (a : ArtifactFile)
      → IsRowOf artifact a
      → current_like artifact (rewritten a) ≡ (a.id == artifact.id)
  current-rewritten a h = elim (Bool-cases (a.id == artifact.id)) [
    | inl e ↦
        let (t, u, y) = h e in
        let kept : superseded strip artifact a ≡ false = ground arith in
        let like : same_type a.artifact_type artifact.artifact_type ≡ true =
          rw y (same_type_refl artifact.artifact_type) in
        rw (kept, e) (ground (arith, eq_iff a.thread_id artifact.thread_id))
    | inr e ↦ ground arith
  ]

  -- After the call the current artifacts like it are the rows with its identifier.
  current-count :
      (db : Artifacts)
      → All (IsRowOf artifact) db
      → count (current_like artifact) (
          update
            (λ a. a.id == artifact.id)
            (made_ready strip now file size title)
            (update (superseded strip artifact) (cleared strip now) db))
        ≡ count (λ a. a.id == artifact.id) db
  current-count [] h = refl
  current-count (a ∷ db) h = rw (current-rewritten a h.0, current-count db h.1)

  id-rewritten : (a : ArtifactFile) → (rewritten a).id ≡ a.id
  id-rewritten a = ground arith

  current-each :
      (db : Artifacts)
      → All (IsRowOf artifact) db
      → All
          (λ a. current_like artifact a ≡ (a.id == artifact.id))
          (update
            (λ a. a.id == artifact.id)
            (made_ready strip now file size title)
            (update (superseded strip artifact) (cleared strip now) db))
  current-each [] h = tt
  current-each (a ∷ db) h = (
    current-rewritten a h.0 ∙ ap (λ id. id == artifact.id) (sym (id-rewritten a)),
    current-each db h.1,
  )

  -- Where one row has the artifact's identifier, and is of its thread, user and type, the call with
  -- an output that exists succeeds, and after it exactly one artifact of that thread, user and type
  -- is current: the row with that identifier.
  pub mark_artifact_ready_current :
      (db : Artifacts)
      → All (IsRowOf artifact) db
      → count (λ a. a.id == artifact.id) db ≡ 1
      → (db' : Artifacts) × (mark_artifact_ready strip true now file size title artifact db
          ≡ ok db')
        × (count (current_like artifact) db' ≡ 1)
        × All (λ a. current_like artifact a ≡ (a.id == artifact.id)) db'
  unfolding mark_artifact_ready
  mark_artifact_ready_current db h one = (_, refl, current-count db h ∙ one, current-each db h)
