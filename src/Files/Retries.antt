-- ===== src/Files/Retries.antt =====
-- A file that is retried after its content was uploaded once more.
use mathlib.Core.List.{Memᴰ}
use smart_class_agent.Common.{
  ℕ, ◌≤◌, ◌<◌, ◌≡◌, refl, ap, sym, ◌∙◌, String, Bool, true, false, Option, none, some, List, [],
  ◌∷◌, keep, update, first, length, eq_iff, arith, ok, err,
}
use smart_class_agent.Common.Rows.{first-some, mem-first}
use smart_class_agent.Files.{
  failed, KnowledgeFile, FileWorld, multiple_results, has_hash, scalar_one_or_none, is_row, of_user,
  visible, get_existing_file_by_hash, get_file_by_id, retry_file, as_uploaded, write_row, Upload,
  UploadLimits, validate_upload, create_file_from_upload,
}

module _ {ℓ} {A : Type ℓ} where
  -- An update that keeps every row that passes a test, and makes one row pass it, adds to the rows
  -- that pass it.
  module _ (q p : A → Bool) (f : A → A) (step : (x : A) → q x ≡ true → q (f x) ≡ true) where
    keep-update-le : (xs : List A) → length (keep q xs) ≤ length (keep q (update p f xs))
    keep-update-le [] = omega arith
    keep-update-le (x ∷ xs) = ground (arith, step x, keep-update-le xs)

    keep-update-lt :
        (a : A) (xs : List A)
        → p a ≡ true
        → q a ≡ false
        → q (f a) ≡ true
        → Memᴰ a xs
        → length (keep q xs) < length (keep q (update p f xs))
    keep-update-lt a [] chosen out now m = elim m [ ]
    keep-update-lt a (x ∷ xs) chosen out now (Memᴰ.head e) =
        ground (arith, ap p e, ap q e, ap (λ y. q (f y)) e, keep-update-le xs)
    keep-update-lt a (x ∷ xs) chosen out now (Memᴰ.tail m) =
        ground (arith, step x, keep-update-lt a xs chosen out now m)

scalar_several {ℓ} :
    {A : Type ℓ} (xs : List A) → 1 < length xs → scalar_one_or_none xs ≡ err multiple_results
unfolding scalar_one_or_none
scalar_several [] h = absurd (omega arith)
scalar_several (a ∷ []) h = absurd (omega arith)
scalar_several (a ∷ b ∷ rest) h = refl

scalar_found {ℓ} :
    {A : Type ℓ} (xs : List A) (a : A) → scalar_one_or_none xs ≡ ok (some a) → length xs ≡ 1
unfolding scalar_one_or_none
scalar_found [] a h = absurd (cc)
scalar_found (x ∷ []) a h = refl
scalar_found (x ∷ b ∷ rest) a h = absurd (cc)

module _ (f : KnowledgeFile) where
  uploaded_again :
      (x : KnowledgeFile) (now : ℕ)
      → has_hash f.plan_id f.user_id f.sha256 x ≡ true
      → has_hash f.plan_id f.user_id f.sha256 (as_uploaded now x) ≡ true
  uploaded_again x now h = ground arith

  uploaded_now : (now : ℕ) → has_hash f.plan_id f.user_id f.sha256 (as_uploaded now f) ≡ true
  uploaded_now now = ground (arith, eq_iff f.sha256 f.sha256)

  failed_out : f.status ≡ failed → has_hash f.plan_id f.user_id f.sha256 f ≡ false
  failed_out h = rw h (ground arith)

shown : (o : Option KnowledgeFile) → (elim o [ none ↦ none | some f ↦ visible true f ]) ≡ o
unfolding visible
shown none = refl
shown (some f) = refl

got_row :
    (file_id : ℕ) (user_id : Option ℕ) (w : FileWorld) (f : KnowledgeFile)
    → get_file_by_id file_id user_id true w ≡ some f
    → first (of_user user_id file_id) w.files ≡ some f
unfolding get_file_by_id
got_row file_id user_id w f h = sym (shown (first (of_user user_id file_id) w.files)) ∙ h

-- The retry of a failed file whose content has another active row: there are two active rows then.
retry_file-rows :
    (file_id now : ℕ) (w : FileWorld) (f g : KnowledgeFile)
    → get_file_by_id file_id (some f.user_id) true w ≡ some f
    → f.status ≡ failed
    → get_existing_file_by_hash f.plan_id f.user_id f.sha256 w ≡ ok (some g)
    → get_existing_file_by_hash f.plan_id f.user_id f.sha256 (write_row file_id (as_uploaded now) w)
      ≡ err multiple_results
unfolding get_existing_file_by_hash
retry_file-rows file_id now w f g got ended other =
    let found = got_row file_id (some f.user_id) w f got in
    let (listed, passes) = first-some (of_user (some f.user_id) file_id) w.files f found in
    let more =
      keep-update-lt (has_hash f.plan_id f.user_id f.sha256) (is_row file_id) (as_uploaded now)
        (λ x h. uploaded_again f x now h) f w.files (ground arith) (failed_out f ended)
        (uploaded_now f now) (mem-first (of_user (some f.user_id) file_id) w.files found) in
    scalar_several _ (omega (arith, more, scalar_found _ g other))

-- A failed file of the user, whose content has been uploaded once more since, so that another row
-- with it is active: the retry of the failed file returns, and from then on a valid upload of that
-- content to the plan raises the error of a query with several results.
pub retry_file-duplicates :
    (limits : UploadLimits) (file_id id now later : ℕ) (path : String) (u : Upload) (w : FileWorld)
    (f g : KnowledgeFile)
    → get_file_by_id file_id (some f.user_id) true w ≡ some f
    → f.status ≡ failed
    → get_existing_file_by_hash f.plan_id f.user_id f.sha256 w ≡ ok (some g)
    → u.sha256 ≡ f.sha256
    → validate_upload limits u ≡ ok tt
    → (w' : FileWorld) × (retry_file file_id f.user_id now w ≡ ok w')
      × (create_file_from_upload limits id f.plan_id f.user_id path later u w'
          ≡ err multiple_results)
unfolding retry_file create_file_from_upload
retry_file-duplicates limits file_id id now later path u w f g got ended other same valid = (
  write_row file_id (as_uploaded now) w,
  rw (retry_file, got, ended) refl,
  rw (valid, same, retry_file-rows file_id now w f g got ended other) refl,
)
