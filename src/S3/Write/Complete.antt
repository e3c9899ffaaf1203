-- ===== src/S3/Write/Complete.antt =====
-- The chunk that ends an upload: all of it is in parts then.
use tusd.Base.{
  ◌≢◌, ℕ, ◌+◌, ◌≤◌, ◌<◌, ◌≡◌, true, false, List, [], ◌∷◌, ◌++◌, none, Bytes, arith, ap, sym, ◌∙◌,
  subst, length, length-append, map, inl, inr,
}
use mathlib.Core.List.{map-append}
use tusd.Base.Int.{pos, half_range, add_pos, ◌+ℤ◌}
use tusd.BodyReader.{flatten}
use tusd.DataStore.{FileInfo}
use tusd.S3.Service.{S3Api, Env}
use tusd.S3.Upload.{S3Store, S3Upload, object_key, part_key}
use tusd.S3.Write.{Progress, is_final_chunk, upload_as_part, upload_files}
use tusd.S3.Laws.{S3Laws, bytes_or_empty}
use tusd.S3.Write.Cut.{IsCut}
use tusd.S3.Write.Steps.{or_else-none, error_of-none, upload_file-cases, upload_files-error}
use tusd.S3.Write.Content.{IsReady, upload_as_part-received}

is_final_chunk-true :
    (info : FileInfo) (o u : ℕ) (file : Bytes)
    → info.size_is_deferred ≡ false
    → info.size ≡ pos (o + u + length file)
    → o + u + length file < half_range
    → is_final_chunk info (pos o) (pos u) (length file) ≡ true
unfolding is_final_chunk
is_final_chunk-true info o u file d e l =
    rw (d, e, add_pos o u (omega arith), add_pos (o + u) (length file) l) (ground arith)

true_ne_false : true ≢ false
true_ne_false e = cc

module _ {api : S3Api} (store : S3Store) (L : S3Laws api) where
  -- The handle lists the parts that the service has.
  unfoldable pub IsListed : S3Upload → api.State → Type 0
  IsListed u s =
      map (λ part. part.number) u.parts
      ≡ map (λ part. part.0) (L.pending s (object_key store u.object_id) u.multipart_id)

  upload_as_part-IsListed :
      (file : Bytes) (p : Progress) (env : Env api)
      → IsReady store L p.upload p.next_number env.service
      → IsListed p.upload env.service
      → (upload_as_part api store file p env).0.error ≡ none
      → IsListed
          (upload_as_part api store file p env).0.upload
          (upload_as_part api store file p env).1.service
  unfolding upload_as_part IsListed
  upload_as_part-IsListed file p env ready listed h =
      let (etag, sent) = error_of-none _ (or_else-none _ _ (or_else-none _ _ h).1).0 in
      let added = L.upload_part-adds _ _ p.next_number file env.service sent ready.below in
      rw (
        added,
        map-append (λ part. part.number) p.upload.parts _,
        map-append (λ part. part.0)
            (L.pending env.service (object_key store p.upload.object_id) p.upload.multipart_id)
            ((p.next_number, file) ∷ []),
        listed,
      )

  -- No incomplete part is left, and the handle lists all parts.
  unfoldable pub IsDone : S3Upload → Progress × Env api → Type 0
  IsDone u q =
      (bytes_or_empty (L.object q.1.service (part_key store u.object_id)) ≡ [])
      × IsListed q.0.upload q.1.service

  -- The last file reaches the size, and so becomes a part too.
  pub upload_files-IsDone :
      (info : FileInfo) (o u size : ℕ) (files : List Bytes) (p : Progress) (env : Env api)
      → info.size_is_deferred ≡ false
      → info.size ≡ pos (o + u + length (flatten files))
      → o + u + length (flatten files) < half_range
      → p.uploaded ≡ pos u
      → store.limits.min_part_size ≤ size
      → IsCut size files
      → IsReady store L p.upload p.next_number env.service
      → IsListed p.upload env.service
      → (upload_files api store info (pos o) files p env).0.error ≡ none
      → IsDone p.upload (upload_files api store info (pos o) files p env)
  unfolding upload_files upload_as_part IsDone IsCut flatten
  upload_files-IsDone info o u size [] p env d e l up m cut ready listed h = (ready.free, listed)
  upload_files-IsDone info o u size (file ∷ []) p env d e l up m cut ready listed h =
      elim (upload_file-cases store info (pos o) file p env) [
        | inl same ↦
            let h' : (upload_as_part api store file p env).0.error ≡ none =
              sym (ap (λ q. q.0.error) same) ∙ h in
            let (content, ready') = upload_as_part-received store L file p env ready h' in
            subst (IsDone p.upload) (sym same)
              (ready'.free, upload_as_part-IsListed file p env ready listed h')
        | inr (small, last, same) ↦
            let full : is_final_chunk info (pos o) (pos u) (length file) ≡ true =
              is_final_chunk-true info o u file d
                (e ∙ ap pos (omega (arith, length-append file [])))
                (omega (arith, length-append file [])) in
            absurd (
              true_ne_false
                (sym full ∙ ap (λ n. is_final_chunk info (pos o) n (length file)) (sym up) ∙ last))
      ]
  upload_files-IsDone info o u size (file ∷ next ∷ files) p env d e l up m (whole, cut) ready listed
        h =
      elim (upload_file-cases store info (pos o) file p env) [
        | inl same ↦
            let rest = upload_files api store info (pos o) (next ∷ files) in
            let h' : (rest (upload_as_part api store file p env).0
                  (upload_as_part api store file p env).1).0.error
                ≡ none =
              subst (λ q. (rest q.0 q.1).0.error ≡ none) same h in
            let h'' =
              upload_files-error store info (pos o) (next ∷ files)
                (upload_as_part api store file p env).0 (upload_as_part api store file p env).1
                h' in
            let (content, ready') = upload_as_part-received store L file p env ready h'' in
            let lengths = length-append file (next ++ flatten files) in
            subst (λ q. IsDone p.upload (rest q.0 q.1)) (sym same)
              (upload_files-IsDone info o (u + length file) size (next ∷ files)
                (upload_as_part api store file p env).0 (upload_as_part api store file p env).1 d
                (e ∙ ap pos (omega (arith, lengths))) (omega (arith, lengths))
                (ap (λ n. n +ℤ pos (length file)) up
                  ∙ add_pos u (length file) (omega (arith, lengths)))
                m cut ready' (upload_as_part-IsListed file p env ready listed h'') h')
        | inr (small, last, same) ↦ absurd (omega arith)
      ]
