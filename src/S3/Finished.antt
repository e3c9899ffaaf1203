-- ===== src/S3/Finished.antt =====
-- What `FinishUpload` makes of an upload: the object that `GetReader` reads.
use tusd.Base.{
  ℕ, ◌+◌, ◌≤◌, ◌<◌, ◌≡◌, refl, false, List, [], ◌∷◌, ◌++◌, none, some, Bytes, arith, ap, sym, ◌∙◌,
  append-nil, subst, length, map,
}
use tusd.Base.Int.{pos, half_range}
use tusd.Http.{ok}
use tusd.BodyReader.{flatten}
use tusd.DataStore.{FileInfo}
use tusd.Action.{and_then, pure, and_then-ok}
use tusd.S3.Service.{Part, S3Api, Env, or_fail}
use tusd.S3.Upload.{Platform, S3Store, S3Upload, object_key}
use tusd.S3.Write.{write_chunk}
use tusd.S3.Finish.{
  empty_part, completed_part, parts_or_empty, complete_with, finish_parts, finish_upload,
}
use tusd.S3.Laws.{S3Laws, AllBelow, part_data, received}
use tusd.S3.Write.Taken.{or_fail-ok}
use tusd.S3.Write.Content.{got}
use tusd.S3.Write.Complete.{IsListed}
use tusd.S3.Write.Sent.{IsUsable, IsCurrent, get_internal_info-cached}
use tusd.S3.Write.Append.{write_chunk-Wrote}

completed_numbers :
    (parts : List Part)
    → map (λ part. part.1) (map completed_part parts) ≡ map (λ part. part.number) parts
completed_numbers [] = refl
completed_numbers (part ∷ parts) = ap (λ r. part.number ∷ r) (completed_numbers parts)

no_parts : (ps : List (ℕ × Bytes)) → [] ≡ map (λ part. part.0) ps → ps ≡ []
no_parts [] h = refl
no_parts (p ∷ ps) h = cc

module _ (api : S3Api) (os : Platform) (store : S3Store) (L : S3Laws api) where
  complete_with-object :
      (u : S3Upload) (parts : List Part) (env : Env api) {r : Unit {0}}
      → map (λ part. part.number) parts
        ≡ map (λ part. part.0) (L.pending env.service (object_key store u.object_id) u.multipart_id)
      → (complete_with api os store u parts env).0 ≡ ok r
      → L.object (complete_with api os store u parts env).1.service (object_key store u.object_id)
        ≡ some (part_data (L.pending env.service (object_key store u.object_id) u.multipart_id))
  unfolding complete_with
  complete_with-object u parts env listed h =
      L.complete_multipart_upload-joins (object_key store u.object_id) u.multipart_id
        (map completed_part parts) env.service (or_fail-ok _ h) (completed_numbers parts ∙ listed)

  finish_parts-object :
      (u : S3Upload) (parts : List Part) (env : Env api) {r : Unit {0}}
      → map (λ part. part.number) parts
        ≡ map (λ part. part.0) (L.pending env.service (object_key store u.object_id) u.multipart_id)
      → (finish_parts api os store u parts env).0 ≡ ok r
      → L.object (finish_parts api os store u parts env).1.service (object_key store u.object_id)
        ≡ some (part_data (L.pending env.service (object_key store u.object_id) u.multipart_id))
  unfolding finish_parts parts_or_empty part_data AllBelow
  finish_parts-object u (part ∷ parts) env listed h =
      complete_with-object u (part ∷ parts) env listed h
  finish_parts-object u [] env listed h =
      let none_yet = no_parts _ listed in
      let env1 : Env api = record env {
        service =
            (api.upload_part (object_key store u.object_id) u.multipart_id 1 [] env.service).1;
      } in
      let (made, e, whole) =
        and_then-ok (parts_or_empty api os store u [] env) (complete_with api os store u) h in
      let (etag, e', whole') =
        and_then-ok
          (
            or_fail
                (api.upload_part (object_key store u.object_id) u.multipart_id 1 [] env.service).0,
            env1,
          )
          (λ etag. pure (empty_part etag ∷ [])) e in
      let both : finish_parts api os store u [] env
          ≡ complete_with api os store u (empty_part etag ∷ []) env1 =
        ap (λ q. and_then q (complete_with api os store u)) whole' in
      let added =
        L.upload_part-adds (object_key store u.object_id) u.multipart_id 1 [] env.service
          (or_fail-ok _ e') (subst (AllBelow 1) (sym none_yet) tt) in
      let now : L.pending env1.service (object_key store u.object_id) u.multipart_id
          ≡ (1, []) ∷ [] =
        added ∙ ap (λ ps. ps ++ ((1, []) ∷ [])) none_yet in
      ap (λ q. L.object q.1.service (object_key store u.object_id)) both
      ∙ complete_with-object u (empty_part etag ∷ []) env1 (ap (map (λ part. part.0)) (sym now))
          (sym (ap (λ q. q.0) both) ∙ h)
      ∙ ap (λ ps. some (part_data ps)) now
      ∙ ap (λ ps. some (part_data ps)) (sym none_yet)

  -- Where an upload with a handle that knows it and lists its parts is finished without an error, the object is made
  -- of the parts, in their order. An incomplete part is left out of it.
  pub finish_upload-object :
      (u : S3Upload) (env : Env api) {info : FileInfo} {v : S3Upload}
      → u.info ≡ some info
      → IsListed store L u env.service
      → (finish_upload api os store u env).0 ≡ ok v
      → L.object (finish_upload api os store u env).1.service (object_key store u.object_id)
        ≡ some (part_data (L.pending env.service (object_key store u.object_id) u.multipart_id))
  unfolding finish_upload IsListed
  finish_upload-object u env known listed =
      rw (get_internal_info-cached api os store u env known) (λ h.
        let (r, e, whole) = and_then-ok (finish_parts api os store u u.parts env) (λ r. pure u) h in
        ap (λ q. L.object q.1.service (object_key store u.object_id)) whole
        ∙ finish_parts-object u u.parts env listed e)

  -- The chunk that reaches the size of an upload, and then `FinishUpload` through the same handle, both without an
  -- error: the object is all that the upload had received, and the chunk. The handle is one that knows the upload and
  -- lists its parts, the size is not deferred, and the limits of the store are usable.
  pub write_chunk-finish_upload :
      (u : S3Upload) (o : ℕ) (src : List Bytes) (env : Env api) {v : S3Upload}
      → IsUsable store.limits
      → (current : IsCurrent api os store L u env.service) → IsListed store L u env.service
      → u.incomplete_part_size ≤ o
      → current.info.size_is_deferred ≡ false
      → current.info.size ≡ pos (o + length (flatten src))
      → o + length (flatten src) < half_range
      → (write_chunk api os store u (pos o) src env).0.error ≡ none
      → (finish_upload api os store
          (write_chunk api os store u (pos o) src env).0.upload
          (write_chunk api os store u (pos o) src env).1).0
        ≡ ok v
      → L.object
          (finish_upload api os store
            (write_chunk api os store u (pos o) src env).0.upload
            (write_chunk api os store u (pos o) src env).1).1.service
          (object_key store u.object_id)
        ≡ some (got store L u env.service ++ flatten src)
  unfolding got received
  write_chunk-finish_upload u o src env usable current listed le d e l written finished =
      let w =
        write_chunk-Wrote api os store L u (pos o) src env usable current (omega arith) written in
      let (free, listed') = w.complete o refl le d e l listed in
      let (info', known') = w.known in
      let r = write_chunk api os store u (pos o) src env in
      ap
        (λ id. L.object (finish_upload api os store r.0.upload r.1).1.service (object_key store id))
        (sym w.same_object)
      ∙ finish_upload-object r.0.upload r.1 known' listed' finished
      ∙ ap
          (λ id.
            some (part_data (L.pending r.1.service (object_key store id) r.0.upload.multipart_id)))
          w.same_object
      ∙ ap (λ id. some (part_data (L.pending r.1.service (object_key store u.object_id) id)))
          w.same_multipart
      ∙ ap some (
          sym (
            append-nil
              (part_data (L.pending r.1.service (object_key store u.object_id) u.multipart_id)))
          ∙ ap
              (λ b.
                part_data (L.pending r.1.service (object_key store u.object_id) u.multipart_id)
                ++ b)
              (sym free)
          ∙ w.content)
