-- ===== src/S3/Write/Success.antt =====
-- `WriteChunk` succeeds where the service and the temporary files do.
use tusd.Base.{
  ℕ, zero, suc, ◌+◌, ◌*◌, ◌≤◌, ◌<◌, length-append, sym, ◌∙◌, subst, ◌≡◌, refl, List, [], ◌∷◌, ◌++◌,
  Option, none, some, Bytes, arith, ap, length, drop, inl, inr,
}
use tusd.Base.Int.{ℤ, pos, ◌-ℤ◌}
use tusd.Http.{Failure, Result, ok, err}
use tusd.BodyReader.{flatten}
use tusd.DataStore.{FileInfo}
use tusd.S3.Service.{done, S3Api, Env, or_fail}
use tusd.S3.Producer.{later_faults, produce, produce_rounds}
use tusd.S3.Upload.{Platform, S3Store, S3Upload, Fetched, object_key, part_key}
use tusd.S3.Write.{
  Progress, part_size, counted, start_of, or_else, error_of, upload_as_part, upload_as_incomplete,
  upload_file, upload_files, upload_produced, upload_sized, upload_with, upload_parts,
  take_incomplete_part, take_file, delete_and_return, download_incomplete_part, to_temp_file,
  found_or_none, expect_part, write_result, write_taken, write_with, write_chunk,
}
use tusd.S3.Laws.{S3Laws, bytes_or_empty}
use tusd.S3.Write.Cut.{produce-HasCut, produce-error}
use tusd.S3.Write.Room.{AllShort, IsCut-AllShort, files_fit, part_size-le, HasCut-IsCut}
use tusd.S3.Write.Steps.{Same, Same-trans, Same-upload_file, upload_file-cases}
use tusd.S3.Write.Sent.{IsUsable, IsCurrent, part_size-ok, get_internal_info-cached}

-- In the states of `Good`, the calls that `WriteChunk` makes for the upload succeed and lead to such states: those for a
-- part of a permitted number and size, for an incomplete part below the minimum, and those that fetch and delete it.
pub record IsHealthy (api : S3Api) (store : S3Store) (L : S3Laws api) (upload : S3Upload)
    (Good : api.State → Type 0) : Type 0 where
  pub upload_part-done :
      (number : ℕ) (bytes : Bytes) (s : api.State)
      → Good s
      → 0 < number
      → number ≤ store.limits.max_multipart_parts
      → length bytes ≤ store.limits.max_part_size
      → ((etag : Bytes) × ((api.upload_part
              (object_key store upload.object_id)
              upload.multipart_id
              number
              bytes
              s).0
            ≡ done etag))
        × Good
            (api.upload_part
              (object_key store upload.object_id)
              upload.multipart_id
              number
              bytes
              s).1
  pub put_object-done :
      (bytes : Bytes) (s : api.State)
      → Good s
      → length bytes < store.limits.min_part_size
      → ((api.put_object (part_key store upload.object_id) bytes s).0 ≡ done tt)
        × Good (api.put_object (part_key store upload.object_id) bytes s).1
  pub delete_object-done :
      (s : api.State)
      → Good s
      → ((api.delete_object (part_key store upload.object_id) s).0 ≡ done tt)
        × Good (api.delete_object (part_key store upload.object_id) s).1
  pub get_object-done :
      (s : api.State) (bytes : Bytes)
      → Good s
      → L.object s (part_key store upload.object_id) ≡ some bytes
      → ((api.get_object (part_key store upload.object_id) s).0 ≡ done bytes)
        × Good (api.get_object (part_key store upload.object_id) s).1

produce_rounds-disk :
    (rounds size : ℕ) (source : Bytes) → (produce_rounds rounds size source []).disk ≡ []
unfolding produce_rounds
produce_rounds-disk zero size source = refl
produce_rounds-disk (suc rounds) zero source = refl
produce_rounds-disk (suc rounds) (suc size) [] = refl
produce_rounds-disk (suc rounds) (suc size) (b ∷ source) =
    produce_rounds-disk rounds (suc size) (drop size source)

produce-disk : (size : ℕ) (source : Bytes) → (produce size source []).disk ≡ []
unfolding produce
produce-disk size source = produce_rounds-disk (suc (length source)) size source

counted-free :
    (p : Progress) (e : Option Failure) → p.error ≡ none → e ≡ none → (counted p e).1 ≡ none
unfolding counted
counted-free p e h k = rw (h, k)

some_of_length :
    (o : Option Bytes) {n : ℕ} → suc n ≡ length (bytes_or_empty o) → (b : Bytes) × (o ≡ some b)
some_of_length none h = absurd (omega arith)
some_of_length (some b) h = (b, refl)

module _ (api : S3Api) (os : Platform) (store : S3Store) (L : S3Laws api) (upload : S3Upload)
    (Good : api.State → Type 0) (healthy : IsHealthy api store L upload Good) where
  -- No fault is ahead.
  record IsCalm (env : Env api) : Type 0 where
    pub good : Good env.service
    pub calm : env.disk ≡ []

  upload_file-error_free :
      (info : FileInfo) (offset : ℤ) (file : Bytes) (p : Progress) (env : Env api)
      → Same upload p.upload
      → 0 < p.next_number
      → p.next_number ≤ store.limits.max_multipart_parts
      → length file ≤ store.limits.max_part_size
      → p.error ≡ none
      → IsCalm env
      → ((upload_file api store info offset file p env).0.error ≡ none)
        × ((upload_file api store info offset file p env).0.next_number ≡ suc p.next_number)
        × IsCalm (upload_file api store info offset file p env).1
  unfolding upload_as_part upload_as_incomplete or_else error_of
  upload_file-error_free info offset file p env same l m short e c =
      elim (upload_file-cases store info offset file p env) [
        | inl is ↦
            let ((etag, sent), good) =
              healthy.upload_part-done p.next_number file env.service c.good l m short in
            rw is (
              rw (e, same.same_object, same.same_multipart, sent, c.calm),
              refl,
              record {
                good = rw (same.same_object, same.same_multipart) good;
                calm = ap later_faults c.calm;
              },
            )
        | inr (small, last, is) ↦
            let (sent, good) = healthy.put_object-done file env.service c.good small in
            rw is (
              rw (e, same.same_object, sent, c.calm),
              refl,
              record { good = rw (same.same_object) good; calm = ap later_faults c.calm },
            )
      ]

  upload_files-error_free :
      (info : FileInfo) (offset : ℤ) (files : List Bytes) (p : Progress) (env : Env api)
      → Same upload p.upload
      → 0 < p.next_number
      → p.next_number + length files ≤ suc store.limits.max_multipart_parts
      → AllShort store.limits.max_part_size files
      → p.error ≡ none
      → IsCalm env
      → (upload_files api store info offset files p env).0.error ≡ none
  unfolding upload_files AllShort
  upload_files-error_free info offset [] p env same l m short e c = e
  upload_files-error_free info offset (file ∷ files) p env same l m (s, short) e c =
      let (e', n, c') = upload_file-error_free info offset file p env same l (omega arith) s e c in
      upload_files-error_free info offset files (upload_file api store info offset file p env).0
        (upload_file api store info offset file p env).1
        (Same-trans same (Same-upload_file store info offset file p env)) (omega (arith, n))
        (omega (arith, n)) short e' c'

  upload_sized-error_free :
      (f : Fetched) (offset : ℤ) (source : Bytes) (r : Result ℕ) {size : ℕ} (env : Env api)
      → r ≡ ok size
      → 0 < size
      → size ≤ store.limits.max_part_size
      → length f.parts * size + length source ≤ store.limits.max_multipart_parts * size
      → IsCalm env
      → (upload_sized api os store upload f offset source r env).0.error ≡ none
  unfolding upload_sized upload_produced start_of
  upload_sized-error_free f offset source (err e) env h l m room c = cc
  upload_sized-error_free f offset source (ok size) {size = n} env h l m room c =
      let same : size ≡ n = cc in
      let l' : 0 < size = omega (arith, same) in
      let cut = produce-HasCut size source [] l' (produce-error size source) in
      rw (c.calm) (
        counted-free _ _
          (upload_files-error_free f.info offset (produce size source []).files
            (start_of upload f.parts) (record env { disk = (produce size source []).disk })
            (record { same_object = refl; same_multipart = refl; same_info = refl }) (omega arith)
            (omega (
              arith,
              files_fit (length f.parts) store.limits.max_multipart_parts size source
                  (produce size source []) l' cut
                  (subst
                    (λ k. length f.parts * k + length source ≤ store.limits.max_multipart_parts * k)
                    (sym same) room),
            ))
            (IsCut-AllShort size store.limits.max_part_size (produce size source []).files
              (HasCut-IsCut size source (produce size source []) cut) (omega (arith, same)))
            refl (record { good = c.good; calm = produce-disk size source }))
          (produce-error size source))

  -- An incomplete part that is there is taken.
  take_incomplete_part-done :
      (n : ℕ) (env : Env api)
      → n ≡ length (bytes_or_empty (L.object env.service (part_key store upload.object_id)))
      → IsCalm env
      → ((bytes : Bytes) × ((take_incomplete_part api os store upload.object_id n env).0 ≡ ok bytes)
          × (length bytes ≡ n))
        × IsCalm (take_incomplete_part api os store upload.object_id n env).1
  unfolding take_incomplete_part take_file delete_and_return download_incomplete_part to_temp_file
      found_or_none expect_part or_fail
  take_incomplete_part-done zero env l c = (([], refl, refl), c)
  take_incomplete_part-done (suc n) env l c =
      let (b, found) = some_of_length (L.object env.service (part_key store upload.object_id)) l in
      let (got, good) = healthy.get_object-done env.service b c.good found in
      let (deleted, good') = healthy.delete_object-done _ good in
      rw (got, c.calm, deleted)
        (
          (b, refl, sym (l ∙ ap (λ o. length (bytes_or_empty o)) found)),
          record { good = good'; calm = refl },
        )

  write_taken-error_free :
      (info : FileInfo) (n : ℕ) (offset : ℤ) (src : List Bytes) (r : Result Bytes) {bytes : Bytes}
      (env : Env api) {size : ℕ}
      → upload.info ≡ some info
      → part_size store info.size ≡ ok size
      → 0 < size
      → length upload.parts * size + length (bytes ++ flatten src)
        ≤ store.limits.max_multipart_parts * size
      → r ≡ ok bytes
      → IsCalm env
      → (write_taken api os store upload n offset src r env).0.error ≡ none
  unfolding write_taken write_result upload_parts upload_with
  write_taken-error_free info n offset src (err e) env known fits l room h c = cc
  write_taken-error_free info n offset src (ok bytes) {bytes = bytes'} env {size = size} known fits
        l room h c =
      let same : bytes' ≡ bytes = cc in
      rw (get_internal_info-cached api os store upload env known) (
        upload_sized-error_free _ (offset -ℤ pos n) (bytes ++ flatten src) _ env fits l
          (part_size-le store info.size fits)
          (subst
            (λ b.
              length upload.parts * size + length (b ++ flatten src)
              ≤ store.limits.max_multipart_parts * size)
            same room)
          c)

  -- A chunk is written without an error through a handle that knows the upload, in a state where the service and the
  -- temporary files do not fail: the service takes the parts of the upload whose number and size are permitted, an
  -- incomplete part below the minimum, and the requests for it. The limits are usable, the size of the upload has a size
  -- for its parts, and as many parts of that size as there are leave room for the incomplete part and the chunk.
  pub write_chunk-succeeds :
      (offset : ℤ) (src : List Bytes) (env : Env api) {size : ℕ}
      → IsUsable store.limits
      → (current : IsCurrent api os store L upload env.service)
      → part_size store current.info.size ≡ ok size
      → length upload.parts * size + (upload.incomplete_part_size + length (flatten src))
        ≤ store.limits.max_multipart_parts * size
      → Good env.service
      → env.disk ≡ []
      → (write_chunk api os store upload offset src env).0.error ≡ none
  unfolding write_chunk write_with
  write_chunk-succeeds offset src env {size = size} usable current fits room good calm =
      let ((bytes, taken, count), c) =
        take_incomplete_part-done upload.incomplete_part_size env current.incomplete
          (record { good = good; calm = calm }) in
      rw (get_internal_info-cached api os store upload env current.known) (
        write_taken-error_free current.info _ offset src _ _ current.known fits
          (part_size-ok store current.info.size usable fits).1
          (omega (arith, room, count, length-append bytes (flatten src))) taken c)
