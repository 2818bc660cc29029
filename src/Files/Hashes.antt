-- ===== src/Files/Hashes.antt =====
-- What a second upload of a content does.
use mathlib.Core.Path.{subst}
use smart_class_agent.Common.{
  ℕ, ◌≡◌, refl, ◌∙◌, String, Bool, true, Option, none, some, List, [], ◌∷◌, ◌++◌, keep, eq_iff,
  arith, ok, bind-ok, ok-injective, Bool-cases, inl, inr,
}
use smart_class_agent.Files.{
  KnowledgeFile, FileWorld, has_hash, scalar_one_or_none, get_existing_file_by_hash, Upload,
  UploadLimits, validate_upload, new_file, kept_or_new, create_file_from_upload,
}

keep-append {ℓ} :
    {A : Type ℓ} (p : A → Bool) (xs ys : List A) → keep p (xs ++ ys) ≡ keep p xs ++ keep p ys
keep-append p [] ys = refl
keep-append p (x ∷ xs) ys = grind (arith, keep-append p xs ys)

append-nil {ℓ} : {A : Type ℓ} (xs : List A) → xs ≡ [] → (y : A) → xs ++ (y ∷ []) ≡ y ∷ []
append-nil xs h y = rw h refl

scalar_none {ℓ} : {A : Type ℓ} (xs : List A) → scalar_one_or_none xs ≡ ok none → xs ≡ []
unfolding scalar_one_or_none
scalar_none [] h = refl
scalar_none (a ∷ []) h = absurd (cc)
scalar_none (a ∷ b ∷ rest) h = absurd (cc)

scalar_some {ℓ} :
    {A : Type ℓ} (xs : List A) (a : A) → scalar_one_or_none xs ≡ ok (some a) → xs ≡ a ∷ []
unfolding scalar_one_or_none
scalar_some [] a h = absurd (cc)
scalar_some (x ∷ []) a h = cc
scalar_some (x ∷ b ∷ rest) a h = absurd (cc)

has_hash-new_file :
    (id plan_id user_id : ℕ) (path : String) (now : ℕ) (u : Upload)
    → has_hash plan_id user_id u.sha256 (new_file id plan_id user_id path now u) ≡ true
unfolding new_file
has_hash-new_file id plan_id user_id path now u = ground (arith, eq_iff u.sha256 u.sha256)

-- The rows of a content after the choice between a row that is there and a new one.
kept_or_new-rows :
    (plan_id user_id : ℕ) (sha256 : String) (new : KnowledgeFile) (w : FileWorld)
    (existing : Option KnowledgeFile)
    → has_hash plan_id user_id sha256 new ≡ true
    → get_existing_file_by_hash plan_id user_id sha256 w ≡ ok existing
    → keep (has_hash plan_id user_id sha256) (kept_or_new new w existing).0.files
      ≡ (kept_or_new new w existing).1 ∷ []
unfolding get_existing_file_by_hash
kept_or_new-rows plan_id user_id sha256 new w (some f) matches h = scalar_some _ f h
kept_or_new-rows plan_id user_id sha256 new w none matches h =
    keep-append (has_hash plan_id user_id sha256) w.files (new ∷ [])
    ∙ rw matches (append-nil _ (scalar_none _ h) new)

-- After an upload exactly one active row of the plan and the user has its content.
create_file_from_upload-rows :
    (limits : UploadLimits) (id plan_id user_id : ℕ) (path : String) (now : ℕ) (u : Upload)
    (w : FileWorld) (r : FileWorld × KnowledgeFile)
    → create_file_from_upload limits id plan_id user_id path now u w ≡ ok r
    → (validate_upload limits u ≡ ok tt)
      × (keep (has_hash plan_id user_id u.sha256) r.0.files ≡ r.1 ∷ [])
unfolding create_file_from_upload
create_file_from_upload-rows limits id plan_id user_id path now u w r h =
    let (v, valid, rest) = bind-ok (validate_upload limits u) _ r h in
    let (existing, got, same) =
      bind-ok (get_existing_file_by_hash plan_id user_id u.sha256 w) _ r rest in
    (
      valid,
      subst
          (λ (q : FileWorld × KnowledgeFile).
            keep (has_hash plan_id user_id u.sha256) q.0.files ≡ q.1 ∷ [])
          (ok-injective same)
          (kept_or_new-rows plan_id user_id u.sha256 _ w existing
            (has_hash-new_file id plan_id user_id path now u) got),
    )

-- Uploads that have returned, of any users, plans and contents.
pub data Uploads (w : FileWorld) : FileWorld → Type 0 where
  none_yet : Uploads w w
  then_upload :
      {w₁ : FileWorld} (limits : UploadLimits) (id plan_id user_id : ℕ) (path : String) (now : ℕ)
      (u : Upload) (r : FileWorld × KnowledgeFile)
      → Uploads w w₁
      → create_file_from_upload limits id plan_id user_id path now u w₁ ≡ ok r
      → Uploads w r.0

-- A new row with a content that another key selects has that key.
has_hash-new_file_same :
    (plan_id user_id : ℕ) (sha256 : String) (id plan_id' user_id' : ℕ) (path : String) (now : ℕ)
    (u : Upload)
    → has_hash plan_id user_id sha256 (new_file id plan_id' user_id' path now u) ≡ true
    → (plan_id' ≡ plan_id) × (user_id' ≡ user_id) × (u.sha256 ≡ sha256)
unfolding new_file
has_hash-new_file_same plan_id user_id sha256 id plan_id' user_id' path now u h =
    ground (arith, eq_iff u.sha256 sha256)

-- An upload leaves the one active row of a content the only one.
create_file_from_upload-keeps :
    (plan_id user_id : ℕ) (sha256 : String) (f : KnowledgeFile) (limits : UploadLimits)
    (id plan_id' user_id' : ℕ) (path : String) (now : ℕ) (u : Upload) (w : FileWorld)
    (r : FileWorld × KnowledgeFile)
    → create_file_from_upload limits id plan_id' user_id' path now u w ≡ ok r
    → keep (has_hash plan_id user_id sha256) w.files ≡ f ∷ []
    → keep (has_hash plan_id user_id sha256) r.0.files ≡ f ∷ []
unfolding create_file_from_upload get_existing_file_by_hash
create_file_from_upload-keeps plan_id user_id sha256 f limits id plan_id' user_id' path now u w r h
      rows =
    let (v, valid, rest) = bind-ok (validate_upload limits u) _ r h in
    let (existing, got, same) =
      bind-ok (get_existing_file_by_hash plan_id' user_id' u.sha256 w) _ r rest in
    let new = new_file id plan_id' user_id' path now u in
    subst
      (λ (q : FileWorld × KnowledgeFile). keep (has_hash plan_id user_id sha256) q.0.files ≡ f ∷ [])
      (ok-injective same)
      (chosen existing new got
        (has_hash-new_file_same plan_id user_id sha256 id plan_id' user_id' path now u))
  where
    chosen :
        (existing : Option KnowledgeFile) (new : KnowledgeFile)
        → get_existing_file_by_hash plan_id' user_id' u.sha256 w ≡ ok existing
        → (has_hash plan_id user_id sha256 new ≡ true
            → (plan_id' ≡ plan_id) × (user_id' ≡ user_id) × (u.sha256 ≡ sha256))
        → keep (has_hash plan_id user_id sha256) (kept_or_new new w existing).0.files ≡ f ∷ []
    chosen (some g) new got key = rows
    chosen none new got key = elim (Bool-cases (has_hash plan_id user_id sha256 new)) [
      | inr other ↦ keep-append _ w.files (new ∷ []) ∙ rw (other, rows) refl
      | inl mine ↦
          let (p, q, s) = key mine in
          let empty : keep (has_hash plan_id user_id sha256) w.files ≡ [] =
            rw (← p, ← q, ← s) (scalar_none _ got) in
          absurd (cc (empty, rows))
    ]

Uploads-keeps :
    (plan_id user_id : ℕ) (sha256 : String) (f : KnowledgeFile) {w w' : FileWorld}
    → Uploads w w'
    → keep (has_hash plan_id user_id sha256) w.files ≡ f ∷ []
    → keep (has_hash plan_id user_id sha256) w'.files ≡ f ∷ []
Uploads-keeps plan_id user_id sha256 f none_yet h = h
Uploads-keeps plan_id user_id sha256 f
      (then_upload {w₁ = w₁} limits id plan_id' user_id' path now u r way made) h =
    create_file_from_upload-keeps plan_id user_id sha256 f limits id plan_id' user_id' path now u w₁
      r made (Uploads-keeps plan_id user_id sha256 f way h)

-- An upload has returned, and is sent once more with the same name and content. Between the two
-- only uploads have changed the table, as many as there may be and of whatever plans, users and
-- contents: no file was ingested, retried or deleted. The second one returns the row of the first
-- and changes nothing.
pub create_file_from_upload_again :
    (limits : UploadLimits) (id id' plan_id user_id : ℕ) (path path' : String) (now now' : ℕ)
    (u : Upload) (w w' : FileWorld) (r : FileWorld × KnowledgeFile)
    → create_file_from_upload limits id plan_id user_id path now u w ≡ ok r
    → Uploads r.0 w'
    → create_file_from_upload limits id' plan_id user_id path' now' u w' ≡ ok (w', r.1)
unfolding create_file_from_upload get_existing_file_by_hash scalar_one_or_none
create_file_from_upload_again limits id id' plan_id user_id path path' now now' u w w' r h way =
    let (valid, rows) = create_file_from_upload-rows limits id plan_id user_id path now u w r h in
    rw (valid, Uploads-keeps plan_id user_id u.sha256 r.1 way rows) refl
