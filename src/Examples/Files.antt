-- ===== src/Examples/Files.antt =====
-- A slide deck, its revision, and what a failure or a success makes of them.
use smart_class_agent.Common.{
  ℕ, ◌+◌, String, ◌≡◌, refl, true, Option, none, some, [], ◌∷◌, count, ◌==◌, All, ok,
}
use smart_class_agent.Artifacts.{
  ArtifactType, ArtifactFile, Artifacts, ppt, running, ready, revision_or_one,
  create_revision_artifact, mark_artifact_ready, mark_artifact_failed,
  list_ready_current_artifacts_by_thread, get_latest_current_artifact_by_type,
}
use smart_class_agent.Artifacts.Current.{current_like, mark_artifact_ready_current}
use smart_class_agent.Artifacts.Revisions.{failed_revision_keeps}

abbrev unstripped : String → String
unstripped s = s

abbrev deck : ArtifactFile
deck = record {
  id = 1;
  user_id = 7;
  plan_id = 1;
  thread_id = "lesson";
  artifact_type = ppt;
  parent_artifact_id = none;
  root_artifact_id = some 1;
  revision_number = 1;
  is_current = true;
  title = "deck";
  file = "deck.pptx";
  size_bytes = 10;
  status = ready;
  error_message = none;
  created_at = 1;
  updated_at = 2;
}

abbrev revised : ArtifactFile
revised = record deck { id = 2; parent_artifact_id = some 1; revision_number = 2; status = running }

abbrev files : Artifacts
files = deck ∷ revised ∷ []

mark_artifact_ready_current_example :
    (db' : Artifacts) × (mark_artifact_ready unstripped true 9 "new.pptx" 12 none revised files
      ≡ ok db')
    × (count (current_like revised) db' ≡ 1)
    × All (λ a. current_like revised a ≡ (a.id == 2)) db'
mark_artifact_ready_current_example =
    mark_artifact_ready_current unstripped 9 "new.pptx" 12 none revised files
      ((λ e. absurd (cc)), ((λ e. (refl, refl, refl)), tt)) refl

failed_revision_keeps_example :
    (db₁ : Artifacts) × (new : ArtifactFile) × (create_revision_artifact unstripped true 5 20
        "x.pptx" none deck
        (deck ∷ [])
      ≡ ok (db₁, new))
    × (new.revision_number ≡ revision_or_one (some 1) + 1)
    × (new.root_artifact_id ≡ some 1)
    × ((thread_id : String) (user_id : Option ℕ)
        → list_ready_current_artifacts_by_thread thread_id user_id
            (mark_artifact_failed unstripped 30 [] 5 db₁)
          ≡ list_ready_current_artifacts_by_thread thread_id user_id (deck ∷ []))
    × ((thread_id : String) (artifact_type : ArtifactType) (user_id : Option ℕ)
        → get_latest_current_artifact_by_type thread_id artifact_type user_id
            (mark_artifact_failed unstripped 30 [] 5 db₁)
          ≡ get_latest_current_artifact_by_type thread_id artifact_type user_id (deck ∷ []))
failed_revision_keeps_example =
    failed_revision_keeps unstripped 5 20 30 "x.pptx" none deck [] (deck ∷ []) refl
