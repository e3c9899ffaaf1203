-- ===== src/S3/Write/Content.antt =====
-- What the loop of `uploadParts` adds to the parts and the incomplete part of an upload.
use tusd.Base.{
  ℕ, suc, ◌≤◌, ◌≡◌, List, [], ◌∷◌, ◌++◌, none, Bytes, arith, ap, sym, ◌∙◌, subst, append-nil,
  append_assoc, inl, inr,
}
use tusd.Base.Int.{ℤ}
use tusd.BodyReader.{flatten}
use tusd.DataStore.{FileInfo}
use tusd.S3.Service.{S3Api, Env}
use tusd.S3.Upload.{S3Store, S3Upload, object_key, part_key}
use tusd.S3.Write.{Progress, upload_as_part, upload_as_incomplete, upload_files}
use tusd.S3.Laws.{
  S3Laws, AllBelow, AllBelow-append, received, bytes_or_empty, part_data, part_data-append,
}
use tusd.S3.Write.Cut.{IsCut}
use tusd.S3.Write.Steps.{or_else-none, error_of-none, upload_file-cases, upload_files-error}

module _ {api : S3Api} (store : S3Store) (L : S3Laws api) where
  -- What the upload has received.
  unfoldable pub got : S3Upload → api.State → Bytes
  got u s = received L (object_key store u.object_id) u.multipart_id (part_key store u.object_id) s

  -- No incomplete part, and no part from the number `n` on.
  pub record IsReady (u : S3Upload) (n : ℕ) (s : api.State) : Type 0 where
    pub free : bytes_or_empty (L.object s (part_key store u.object_id)) ≡ []
    pub below : AllBelow n (L.pending s (object_key store u.object_id) u.multipart_id)

  part_data-snoc :
      (n : ℕ) (file : Bytes) (ps : List (ℕ × Bytes))
      → part_data (ps ++ ((n, file) ∷ [])) ≡ part_data ps ++ file
  unfolding part_data
  part_data-snoc n file ps =
      part_data-append ps ((n, file) ∷ []) ∙ ap (λ r. part_data ps ++ r) (append-nil file)

  pub upload_as_part-received :
      (file : Bytes) (p : Progress) (env : Env api)
      → IsReady p.upload p.next_number env.service
      → (upload_as_part api store file p env).0.error ≡ none
      → (got p.upload (upload_as_part api store file p env).1.service
          ≡ got p.upload env.service ++ file)
        × IsReady
            (upload_as_part api store file p env).0.upload
            (upload_as_part api store file p env).0.next_number
            (upload_as_part api store file p env).1.service
  unfolding upload_as_part got received
  upload_as_part-received file p env ready h =
      let (etag, sent) = error_of-none _ (or_else-none _ _ (or_else-none _ _ h).1).0 in
      let added = L.upload_part-adds _ _ p.next_number file env.service sent ready.below in
      rw
        (
          L.upload_part-object (object_key store p.upload.object_id) p.upload.multipart_id
              p.next_number file env.service,
          added,
          part_data-snoc p.next_number file
              (L.pending env.service (object_key store p.upload.object_id) p.upload.multipart_id),
          ready.free,
        )
        (
          simp append-nil,
          record {
            free =
                ap (λ o. bytes_or_empty (o (part_key store p.upload.object_id)))
                  (L.upload_part-object (object_key store p.upload.object_id) p.upload.multipart_id
                    p.next_number file env.service)
                ∙ ready.free;
            below =
                subst (AllBelow (suc p.next_number)) (sym added)
                  (AllBelow-append p.next_number file _ ready.below);
          },
        )

  upload_as_incomplete-received :
      (file : Bytes) (p : Progress) (env : Env api)
      → IsReady p.upload p.next_number env.service
      → (upload_as_incomplete api store file p env).0.error ≡ none
      → got p.upload (upload_as_incomplete api store file p env).1.service
        ≡ got p.upload env.service ++ file
  unfolding upload_as_incomplete got received
  upload_as_incomplete-received file p env ready h =
      let (u, sent) = error_of-none _ (or_else-none _ _ (or_else-none _ _ h).1).0 in
      rw (
        L.put_object-pending (part_key store p.upload.object_id) file env.service,
        L.put_object-sets (part_key store p.upload.object_id) file env.service sent,
        ready.free,
        append-nil (
            part_data
              (L.pending env.service (object_key store p.upload.object_id) p.upload.multipart_id)),
      )

  -- Files that are cut in sizes of a part's: only the last can become the incomplete part.
  pub upload_files-received :
      (info : FileInfo) (offset : ℤ) (size : ℕ) (files : List Bytes) (p : Progress) (env : Env api)
      → store.limits.min_part_size ≤ size
      → IsCut size files
      → IsReady p.upload p.next_number env.service
      → (upload_files api store info offset files p env).0.error ≡ none
      → got p.upload (upload_files api store info offset files p env).1.service
        ≡ got p.upload env.service ++ flatten files
  unfolding upload_files upload_as_part got IsCut flatten
  upload_files-received info offset size [] p env m cut ready h = sym (append-nil _)
  upload_files-received info offset size (file ∷ []) p env m cut ready h =
      elim (upload_file-cases store info offset file p env) [
        | inl e ↦
            ap (λ q. got p.upload q.1.service) e
            ∙ (upload_as_part-received file p env ready (sym (ap (λ q. q.0.error) e) ∙ h)).0
            ∙ ap (λ r. got p.upload env.service ++ r) (sym (append-nil file))
        | inr (small, last, e) ↦
            ap (λ q. got p.upload q.1.service) e
            ∙ upload_as_incomplete-received file p env ready (sym (ap (λ q. q.0.error) e) ∙ h)
            ∙ ap (λ r. got p.upload env.service ++ r) (sym (append-nil file))
      ]
  upload_files-received info offset size (file ∷ next ∷ files) p env m (whole, cut) ready h =
      elim (upload_file-cases store info offset file p env) [
        | inl e ↦
            let rest = upload_files api store info offset (next ∷ files) in
            let h' : (rest (upload_as_part api store file p env).0
                  (upload_as_part api store file p env).1).0.error
                ≡ none =
              subst (λ q. (rest q.0 q.1).0.error ≡ none) e h in
            let step = upload_as_part-received file p env ready (
              upload_files-error store info offset (next ∷ files)
                (upload_as_part api store file p env).0 (upload_as_part api store file p env).1
                h') in
            ap (λ q. got p.upload (rest q.0 q.1).1.service) e
            ∙ upload_files-received info offset size (next ∷ files)
                (upload_as_part api store file p env).0 (upload_as_part api store file p env).1 m
                cut step.1 h'
            ∙ ap (λ r. r ++ flatten (next ∷ files)) step.0
            ∙ append_assoc _ file (flatten (next ∷ files))
        | inr (small, last, e) ↦ absurd (omega arith)
      ]
