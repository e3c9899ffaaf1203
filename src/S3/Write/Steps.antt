-- ===== src/S3/Write/Steps.antt =====
-- The loop of `uploadParts`, file by file: what each request adds to what the upload has received.
use tusd.Base.{
  ℕ, ◌+◌, ◌<◌, ◌≡◌, refl, false, List, [], ◌∷◌, Option, none, some, Bytes, arith, ap, ◌∙◌, length,
  length-append, ◌⊎◌, inl, inr,
}
use tusd.Base.Int.{ℤ, pos, half_range, ◌+ℤ◌, add_pos}
use tusd.Http.{Failure}
use tusd.BodyReader.{flatten}
use tusd.DataStore.{FileInfo}
use tusd.S3.Service.{Aws, done, failed, S3Api, Env}
use tusd.S3.Upload.{S3Store, S3Upload}
use tusd.S3.Write.{
  Progress, or_else, error_of, note_size, is_final_chunk, upload_as_part, upload_as_incomplete,
  upload_file, upload_files,
}

pub or_else-none : (a b : Option Failure) → or_else a b ≡ none → (a ≡ none) × (b ≡ none)
unfolding or_else
or_else-none none b e = (refl, e)
or_else-none (some x) b e = cc

pub error_of-none : {A : Type 0} (r : Aws A) → error_of r ≡ none → (a : A) × (r ≡ done a)
unfolding error_of
error_of-none (done a) e = (a, refl)
error_of-none (failed x) e = cc

-- What no request changes: which upload it is, and the info that it remembers.
pub record Same (u v : S3Upload) : Type 0 where
  pub same_object : v.object_id ≡ u.object_id
  pub same_multipart : v.multipart_id ≡ u.multipart_id
  pub same_info : v.info ≡ u.info

pub Same-note_size : (n : ℕ) (r : Aws (Unit {0})) (u : S3Upload) → Same u (note_size n r u)
unfolding note_size
Same-note_size n (done a) u = record { same_object = refl; same_multipart = refl; same_info = refl }
Same-note_size n (failed e) u = record {
  same_object = refl;
  same_multipart = refl;
  same_info = refl;
}

pub Same-trans : {u v w : S3Upload} → Same u v → Same v w → Same u w
Same-trans a b = record {
  same_object = b.same_object ∙ a.same_object;
  same_multipart = b.same_multipart ∙ a.same_multipart;
  same_info = b.same_info ∙ a.same_info;
}

module _ {api : S3Api} (store : S3Store) where
  -- A file that is large enough becomes a part.
  pub upload_file-cases :
      (info : FileInfo) (offset : ℤ) (file : Bytes) (p : Progress) (env : Env api)
      → (upload_file api store info offset file p env ≡ upload_as_part api store file p env)
        ⊎ ((length file < store.limits.min_part_size)
            × (is_final_chunk info offset p.uploaded (length file) ≡ false)
            × (upload_file api store info offset file p env
                ≡ upload_as_incomplete api store file p env))
  unfolding upload_file
  upload_file-cases info offset file p env = ground arith

  pub Same-upload_file :
      (info : FileInfo) (offset : ℤ) (file : Bytes) (p : Progress) (env : Env api)
      → Same p.upload (upload_file api store info offset file p env).0.upload
  unfolding upload_as_part upload_as_incomplete
  Same-upload_file info offset file p env = elim (upload_file-cases info offset file p env) [
    | inl e ↦ rw e (record { same_object = refl; same_multipart = refl; same_info = refl })
    | inr (small, last, e) ↦ rw e (Same-note_size (length file) _ p.upload)
  ]

  upload_file-uploaded :
      (info : FileInfo) (offset : ℤ) (file : Bytes) (p : Progress) (env : Env api)
      → (upload_file api store info offset file p env).0.uploaded ≡ p.uploaded +ℤ pos (length file)
  unfolding upload_as_part upload_as_incomplete
  upload_file-uploaded info offset file p env = elim (upload_file-cases info offset file p env) [
    | inl e ↦ rw e
    | inr (small, last, e) ↦ rw e
  ]

  upload_file-error :
      (info : FileInfo) (offset : ℤ) (file : Bytes) (p : Progress) (env : Env api)
      → (upload_file api store info offset file p env).0.error ≡ none
      → p.error ≡ none
  unfolding upload_as_part upload_as_incomplete
  upload_file-error info offset file p env = elim (upload_file-cases info offset file p env) [
    | inl e ↦ rw e (λ h. (or_else-none _ _ h).0)
    | inr (small, last, e) ↦ rw e (λ h. (or_else-none _ _ h).0)
  ]

  pub Same-upload_files :
      (info : FileInfo) (offset : ℤ) (files : List Bytes) (p : Progress) (env : Env api)
      → Same p.upload (upload_files api store info offset files p env).0.upload
  unfolding upload_files
  Same-upload_files info offset [] p env = record {
    same_object = refl;
    same_multipart = refl;
    same_info = refl;
  }
  Same-upload_files info offset (file ∷ files) p env =
      Same-trans (Same-upload_file info offset file p env) (Same-upload_files info offset files _ _)

  pub upload_files-error :
      (info : FileInfo) (offset : ℤ) (files : List Bytes) (p : Progress) (env : Env api)
      → (upload_files api store info offset files p env).0.error ≡ none
      → p.error ≡ none
  unfolding upload_files
  upload_files-error info offset [] p env h = h
  upload_files-error info offset (file ∷ files) p env h =
      upload_file-error info offset file p env (upload_files-error info offset files _ _ h)

  -- The count is the number of bytes in the files.
  pub upload_files-uploaded :
      (info : FileInfo) (offset : ℤ) (files : List Bytes) (p : Progress) (env : Env api) (n : ℕ)
      → p.uploaded ≡ pos n
      → n + length (flatten files) < half_range
      → (upload_files api store info offset files p env).0.uploaded
        ≡ pos (n + length (flatten files))
  unfolding upload_files flatten
  upload_files-uploaded info offset [] p env n e l = e ∙ ap pos (omega arith)
  upload_files-uploaded info offset (file ∷ files) p env n e l =
      upload_files-uploaded info offset files _ _ (n + length file)
        (upload_file-uploaded info offset file p env
          ∙ ap (λ a. a +ℤ pos (length file)) e
          ∙ add_pos n (length file) (omega (arith, length-append file (flatten files))))
        (omega (arith, length-append file (flatten files)))
      ∙ ap pos (omega (arith, length-append file (flatten files)))
