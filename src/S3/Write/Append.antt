-- ===== src/S3/Write/Append.antt =====
-- `WriteChunk` appends: what an upload has received is what it had received before, and the chunk.
use tusd.Base.{
  ℕ, suc, ◌+◌, ◌-◌, ◌≤◌, ◌<◌, ◌≡◌, refl, false, List, [], ◌++◌, none, some, Bytes, arith, ap, sym,
  ◌∙◌, subst, append_assoc, append-nil, length, length-append,
}
use tusd.Base.Int.{ℤ, pos, half_range, sub_pos, ◌-ℤ◌, ◌+ℤ◌}
use tusd.Http.{Result, ok, err}
use tusd.BodyReader.{flatten}
use tusd.DataStore.{FileInfo, WriteResult}
use tusd.S3.Service.{S3Api, Env}
use tusd.S3.Upload.{Platform, S3Store, S3Upload, object_key, part_key}
use tusd.S3.Write.{
  without_incomplete, write_result, add_offset, write_taken, write_with, write_chunk,
}
use tusd.S3.Laws.{S3Laws, AllBelow, bytes_or_empty, received, part_data}
use tusd.S3.Write.Content.{got}
use tusd.S3.Write.Sent.{IsUsable, IsCurrent, get_internal_info-cached, upload_parts-Sent}
use tusd.S3.Write.Complete.{IsListed}
use tusd.S3.Write.Taken.{Took, take_incomplete_part-ok}

module _ (api : S3Api) (os : Platform) (store : S3Store) where
  -- What was taken was the end of what the upload had received.
  got-Took :
      (L : S3Laws api) (upload : S3Upload) (bytes : Bytes) (env env' : Env api)
      → Took api os store L upload.object_id bytes env env'
      → got store L upload env'.service ++ bytes ≡ got store L upload env.service
  unfolding got received
  got-Took L upload bytes env env' t = rw (
    t.freed,
    t.kept,
    t.held,
    append-nil
        (part_data (L.pending env.service (object_key store upload.object_id) upload.multipart_id)),
  )

  without_incomplete-sent :
      (n m : ℕ) → n + m < half_range → without_incomplete (pos (n + m)) n ≡ pos m
  unfolding without_incomplete
  without_incomplete-sent n m h = rw (sub_pos (n + m) n (omega arith) h) (ground arith)

  -- What becomes of a chunk that is written without an error.
  pub record Wrote (L : S3Laws api) (upload : S3Upload) (info : FileInfo) (offset : ℤ)
      (src : List Bytes) (env : Env api) (r : WriteResult S3Upload) (env' : Env api) : Type 0 where
    pub content : got store L upload env'.service ≡ got store L upload env.service ++ flatten src
    pub count : r.bytes_written ≡ pos (length (flatten src))
    pub same_object : r.upload.object_id ≡ upload.object_id
    pub same_multipart : r.upload.multipart_id ≡ upload.multipart_id
    pub known : (info' : FileInfo) × (r.upload.info ≡ some info')
    pub complete :
        (o : ℕ)
        → offset ≡ pos o
        → upload.incomplete_part_size ≤ o
        → info.size_is_deferred ≡ false
        → info.size ≡ pos (o + length (flatten src))
        → o + length (flatten src) < half_range
        → IsListed store L upload env.service
        → (bytes_or_empty (L.object env'.service (part_key store upload.object_id)) ≡ [])
          × IsListed store L r.upload env'.service

  add_offset-same :
      (n : ℤ) (u : S3Upload) (info : FileInfo)
      → u.info ≡ some info
      → ((add_offset n u).object_id ≡ u.object_id)
        × ((add_offset n u).multipart_id ≡ u.multipart_id)
        × ((add_offset n u).parts ≡ u.parts)
        × ((info' : FileInfo) × ((add_offset n u).info ≡ some info'))
  unfolding add_offset
  add_offset-same n u info e =
      rw e (refl, refl, refl, (record info { offset = info.offset +ℤ n }, refl))

  IsListed-add_offset :
      (L : S3Laws api) (n : ℤ) (u : S3Upload) (s : api.State) {info : FileInfo}
      → u.info ≡ some info
      → IsListed store L u s
      → IsListed store L (add_offset n u) s
  unfolding IsListed add_offset
  IsListed-add_offset L n u s e h = rw e h

  IsListed-Took :
      (L : S3Laws api) (u : S3Upload) (bytes : Bytes) (env env' : Env api)
      → Took api os store L u.object_id bytes env env'
      → IsListed store L u env.service
      → IsListed store L u env'.service
  unfolding IsListed
  IsListed-Took L u bytes env env' t h = rw t.kept h

  write_taken-Wrote :
      (L : S3Laws api) (upload : S3Upload) (offset : ℤ) (src : List Bytes) (env : Env api)
      (r : Result Bytes) (env' : Env api) (info : FileInfo)
      → IsUsable store.limits
      → upload.info ≡ some info
      → upload.incomplete_part_size
        ≡ length (bytes_or_empty (L.object env.service (part_key store upload.object_id)))
      → AllBelow
          (suc (length upload.parts))
          (L.pending env.service (object_key store upload.object_id) upload.multipart_id)
      → ((bytes : Bytes) → r ≡ ok bytes → Took api os store L upload.object_id bytes env env')
      → upload.incomplete_part_size + length (flatten src) < half_range
      → (write_taken api os store upload upload.incomplete_part_size offset src r env').0.error
        ≡ none
      → Wrote L upload info offset src env
          (write_taken api os store upload upload.incomplete_part_size offset src r env').0
          (write_taken api os store upload upload.incomplete_part_size offset src r env').1
  unfolding write_taken write_result
  write_taken-Wrote L upload offset src env (err e) env' info usable known inc below took small h =
      cc
  write_taken-Wrote L upload offset src env (ok bytes) env' info usable known inc below took small
        h =
      let t = took bytes refl in
      let size = ap length t.held in
      let lengths = length-append bytes (flatten src) in
      let sent =
        upload_parts-Sent api os store L upload (offset -ℤ pos upload.incomplete_part_size)
          (bytes ++ flatten src) env' info usable (omega (arith, lengths)) known
          (record {
            free = t.freed;
            below =
                subst
                  (λ P.
                    AllBelow (suc (length upload.parts))
                      (P (object_key store upload.object_id) upload.multipart_id))
                  (sym t.kept) below;
          })
          h in
      let (object, multipart, parts, info') =
        add_offset-same _ _ info (sent.same.same_info ∙ known) in
      record {
        content =
            sent.content
            ∙ sym (append_assoc (got store L upload env'.service) bytes (flatten src))
            ∙ ap (λ r. r ++ flatten src) (got-Took L upload bytes env env' t);
        count =
            ap (λ b. without_incomplete b upload.incomplete_part_size)
              (sent.count ∙ ap pos (omega (arith, lengths)))
            ∙ without_incomplete-sent upload.incomplete_part_size (length (flatten src)) small;
        same_object = object ∙ sent.same.same_object;
        same_multipart = multipart ∙ sent.same.same_multipart;
        known = info';
        complete = λ o at le d e l listed.
            let (free, listed') =
              sent.complete (o - upload.incomplete_part_size)
                (ap (λ a. a -ℤ pos upload.incomplete_part_size) at
                  ∙ sub_pos o upload.incomplete_part_size le (omega arith))
                d (e ∙ ap pos (omega (arith, lengths, size))) (omega (arith, lengths, size))
                (IsListed-Took L upload bytes env env' t listed) in
            (free, IsListed-add_offset L _ _ _ (sent.same.same_info ∙ known) listed');
      }

  pub write_chunk-Wrote :
      (L : S3Laws api) (upload : S3Upload) (offset : ℤ) (src : List Bytes) (env : Env api)
      → IsUsable store.limits
      → (current : IsCurrent api os store L upload env.service)
      → upload.incomplete_part_size + length (flatten src) < half_range
      → (write_chunk api os store upload offset src env).0.error ≡ none
      → Wrote L upload current.info offset src env
          (write_chunk api os store upload offset src env).0
          (write_chunk api os store upload offset src env).1
  unfolding write_chunk write_with
  write_chunk-Wrote L upload offset src env usable current small =
      rw (get_internal_info-cached api os store upload env current.known) (
        write_taken-Wrote L upload offset src env _ _ current.info usable current.known
          current.incomplete current.below
          (λ bytes e.
            take_incomplete_part-ok api os store L upload.object_id upload.incomplete_part_size env
              current.incomplete e)
          small)

  -- A chunk that is written without an error is all behind what the upload had received before, be it in parts or
  -- in the incomplete part, and the count is the chunk's length. The handle is one that knows the upload, the sizes
  -- fit an `int64`, and the limits of the store are usable.
  pub write_chunk-appends :
      (L : S3Laws api) (upload : S3Upload) (offset : ℤ) (src : List Bytes) (env : Env api)
      → IsUsable store.limits
      → IsCurrent api os store L upload env.service
      → upload.incomplete_part_size + length (flatten src) < half_range
      → (write_chunk api os store upload offset src env).0.error ≡ none
      → (got store L upload (write_chunk api os store upload offset src env).1.service
          ≡ got store L upload env.service ++ flatten src)
        × ((write_chunk api os store upload offset src env).0.bytes_written
            ≡ pos (length (flatten src)))
  write_chunk-appends L upload offset src env usable current small h =
      let w = write_chunk-Wrote L upload offset src env usable current small h in
      (w.content, w.count)
