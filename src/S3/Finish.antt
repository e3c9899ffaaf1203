-- ===== src/S3/Finish.antt =====
-- `FinishUpload`, `ConcatUploads`, `GetReader` and `Terminate` of pkg/s3store/s3store.go.
use tusd.Base.{
  ℕ, suc, Bool, false, not, ◌||◌, List, [], ◌∷◌, ◌++◌, none, some, Bytes, codes, text_eq, map,
  if◌then◌else◌,
}
use tusd.Base.Int.{pos, negsuc, ltb_ℤ}
use tusd.Http.{Failure, detailed, other, new_error, Result, ok, err}
use tusd.Http.Errors.{err_not_found}
use tusd.DataStore.{Stream}
use tusd.Action.{M, ◌>>=◌, ◌>>◌, pure, raise}
use tusd.S3.Service.{
  Aws, done, failed, Part, KeyError, S3Api, Env, aws_failure, has_code, try_call, call,
}
use tusd.S3.Producer.{next_fault, later_faults}
use tusd.S3.Upload.{
  Platform, S3Store, S3Upload, get_info, get_internal_info, part_key, info_key, object_key,
}

-- `errIncompleteUpload`
abbrev pub err_incomplete_upload : Failure
err_incomplete_upload =
    detailed
      (new_error (codes "ERR_INCOMPLETE_UPLOAD") (codes "cannot stream non-finished upload") 400)

-- How `GetReader` reads the answer for the parts where there is no object.
unfoldable pub without_object : {A : Type 0} → Aws A → Failure
without_object (done page) = err_incomplete_upload
without_object (failed e) =
    if e.no_such_upload || has_code e (codes "NoSuchUpload")
    then detailed err_not_found
    else aws_failure e

-- The errors of `Terminate`, joined: none is no error.
unfoldable pub abort_errors : Aws (Unit {0}) → List Bytes
abort_errors (done u) = []
abort_errors (failed e) = if e.no_such_upload then [] else e.text ∷ []

unfoldable pub key_error_text : KeyError → Bytes
key_error_text e =
    codes "AWS S3 Error ("
    ++ (e.code ++ (codes ") for object " ++ (e.key ++ (codes ": " ++ e.message))))

unfoldable pub key_errors : List KeyError → List Bytes
key_errors [] = []
key_errors (e ∷ errors) =
    let rest = key_errors errors in
    if text_eq e.code (codes "NoSuchKey") then rest else key_error_text e ∷ rest

unfoldable pub delete_errors : Aws (List KeyError) → List Bytes
delete_errors (failed e) = e.text ∷ []
delete_errors (done errors) = key_errors errors

-- `errors.Join`: one text to a line
unfoldable pub join_lines : Bytes → List Bytes → Bytes
join_lines text [] = text
join_lines text (line ∷ lines) = text ++ (codes "\n" ++ join_lines line lines)

unfoldable pub join_errors : List Bytes → Result (Unit {0})
join_errors [] = ok tt
join_errors (text ∷ texts) = err (other (join_lines text texts))

abbrev pub completed_part : Part → Bytes × ℕ
completed_part part = (part.etag, part.number)

abbrev pub empty_part : Bytes → Part
empty_part etag = record { number = 1; size = pos 0; etag = etag }

module _ (api : S3Api) (os : Platform) (store : S3Store) where
  unfoldable pub get_reader : S3Upload → M (Env api) Stream
  get_reader upload = do
    object ← try_call api (api.get_object (object_key store upload.object_id))
    elim object [
      | done bytes ↦ pure (record { bytes = bytes; error = none })
      | failed e ↦
          if not e.no_such_key
          then raise (aws_failure e)
          else (try_call api
                (api.list_parts (object_key store upload.object_id) upload.multipart_id none)
              >>= λ page. raise (without_object page))
    ]

  unfoldable pub terminate : S3Upload → M (Env api) (Unit {0})
  terminate upload = do
    aborted ←
        try_call api
          (api.abort_multipart_upload (object_key store upload.object_id) upload.multipart_id)
    deleted ← try_call api (
        api.delete_objects (
          object_key store upload.object_id
          ∷ part_key store upload.object_id
          ∷ info_key store upload.object_id
          ∷ []))
    λ env. (join_errors (abort_errors aborted ++ delete_errors deleted), env)

  -- The parts to complete the upload with: an empty one where there are none.
  unfoldable pub parts_or_empty : S3Upload → List Part → M (Env api) (List Part)
  parts_or_empty upload (part ∷ parts) = pure (part ∷ parts)
  parts_or_empty upload [] = do
    etag ← call api (api.upload_part (object_key store upload.object_id) upload.multipart_id 1 [])
    pure (empty_part etag ∷ [])

  unfoldable pub complete_with : S3Upload → List Part → M (Env api) (Unit {0})
  complete_with upload parts = call api (
      api.complete_multipart_upload (object_key store upload.object_id) upload.multipart_id
        (map completed_part parts))

  unfoldable pub finish_parts : S3Upload → List Part → M (Env api) (Unit {0})
  finish_parts upload parts = do listed ← parts_or_empty upload parts; complete_with upload listed

  unfoldable pub finish_upload : S3Upload → M (Env api) S3Upload
  finish_upload upload = do
    r ← get_internal_info api os store upload
    finish_parts upload r.0.parts
    pure r.1

  unfoldable pub any_small_part : List S3Upload → M (Env api) Bool
  any_small_part [] = pure false
  any_small_part (partial ∷ uploads) = do
    r ← get_info api os store partial
    rest ← any_small_part uploads
    pure (ltb_ℤ r.0.size (pos store.limits.min_part_size) || rest)

  -- A fault of the temporary file that takes the content.
  unfoldable pub file_fault : M (Env api) (Unit {0})
  file_fault env = (
    elim (next_fault env.disk) [ none ↦ ok tt | some e ↦ err e ],
    record env { disk = later_faults env.disk },
  )

  unfoldable pub download_all : Bytes → List S3Upload → M (Env api) Bytes
  download_all file [] = pure file
  download_all file (partial ∷ uploads) = do
    bytes ← call api (api.get_object (object_key store partial.object_id))
    file_fault
    download_all (file ++ bytes) uploads

  unfoldable pub concat_using_download : S3Upload → List S3Upload → M (Env api) S3Upload
  concat_using_download upload uploads = do
    file_fault
    file ← download_all [] uploads
    file_fault
    call api (api.put_object (object_key store upload.object_id) file)
    aborted ←
        try_call api
          (api.abort_multipart_upload (object_key store upload.object_id) upload.multipart_id)
    pure upload

  -- All copies are asked for, whatever becomes of the others; the first error counts.
  unfoldable pub copy_parts : S3Upload → ℕ → List S3Upload → M (Env api) (Result (List Part))
  copy_parts upload number [] = pure (ok [])
  copy_parts upload number (partial ∷ uploads) = do
    etag ← try_call api (
        api.upload_part_copy (object_key store upload.object_id) upload.multipart_id number
          (store.bucket ++ (codes "/" ++ object_key store partial.object_id)))
    rest ← copy_parts upload (suc number) uploads
    pure (elim etag [
      | failed e ↦ err (aws_failure e)
      | done tag ↦ elim rest [
        | err e ↦ err e
        | ok parts ↦ ok (record { number = number; size = negsuc 0; etag = tag } ∷ parts)
      ]
    ])

  unfoldable pub concat_using_multipart : S3Upload → List S3Upload → M (Env api) S3Upload
  concat_using_multipart upload uploads = do
    copied ← copy_parts upload 1 uploads
    parts ← (λ env. (copied, env))
    finish_upload (record upload { parts = parts })

  unfoldable pub concat_uploads : S3Upload → List S3Upload → M (Env api) S3Upload
  concat_uploads upload uploads = do
    small ← any_small_part uploads
    if small then concat_using_download upload uploads else concat_using_multipart upload uploads
