-- ===== src/S3/Write.antt =====
-- `WriteChunk` and `uploadParts` of pkg/s3store/s3store.go.
pub mod Cut
pub mod Room
pub mod Steps
pub mod Content
pub mod Taken
pub mod Sent
pub mod Append
pub mod Success
pub mod Complete
use tusd.Base.{
  ℕ, zero, suc, ◌+◌, ◌-◌, Bool, true, false, not, ◌&&◌, ◌||◌, List, [], ◌∷◌, ◌++◌, Option, none,
  some, Bytes, codes, leb, ltb, length, if◌then◌else◌,
}
use tusd.Base.Int.{ℤ, pos, pos_part, eqb_ℤ, ltb_ℤ, ◌+ℤ◌, ◌-ℤ◌}
use tusd.Strconv.{format_nat, format_int}
use tusd.Http.{Failure, other, Result, ok, err}
use tusd.BodyReader.{flatten}
use tusd.DataStore.{FileInfo, WriteResult}
use tusd.Action.{M, ◌>>=◌, ◌>>◌, pure, raise}
use tusd.S3.PartSize.{calc_optimal_part_size}
use tusd.S3.Service.{
  Aws, done, failed, Part, S3Api, Env, aws_failure, is_part_missing, try_call, call,
}
use tusd.S3.Producer.{next_fault, later_faults, Produced, produce}
use tusd.S3.Upload.{Platform, S3Store, S3Upload, Fetched, get_internal_info, part_key, object_key}

unfoldable pub part_too_large : S3Store → ℤ → ℕ → Failure
part_too_large store size optimal = other (
    codes "calcOptimalPartSize: to upload "
    ++ (format_int size
        ++ (codes " bytes optimalPartSize "
            ++ (format_nat optimal
                ++ (codes " must exceed MaxPartSize " ++ format_nat store.limits.max_part_size)))))

-- `optimalPartSize` of a size of the info file: a size that is not positive counts as 0.
unfoldable pub part_size : S3Store → ℤ → Result ℕ
part_size store size =
    let p = calc_optimal_part_size store.limits (pos_part size) in
    if p.too_large then err (part_too_large store size p.size) else ok p.size

-- `isFinalChunk`: the file ends where the upload does.
unfoldable pub is_final_chunk : FileInfo → ℤ → ℤ → ℕ → Bool
is_final_chunk info offset uploaded size =
    not info.size_is_deferred && eqb_ℤ info.size (offset +ℤ uploaded +ℤ pos size)

-- The variables of the loop of `uploadParts`: the upload, the count of bytes, the number of the next part,
-- and the first error of the group.
pub record Progress : Type 0 where
  pub upload : S3Upload
  pub uploaded : ℤ
  pub next_number : ℕ
  pub error : Option Failure

unfoldable pub or_else : Option Failure → Option Failure → Option Failure
or_else (some e) later = some e
or_else none later = later

unfoldable pub error_of : {A : Type 0} → Aws A → Option Failure
error_of (done a) = none
error_of (failed e) = some (aws_failure e)

unfoldable pub etag_of : Aws Bytes → Bytes
etag_of (done etag) = etag
etag_of (failed e) = []

-- The size of the incomplete part is only changed where its object was written.
unfoldable pub note_size : ℕ → Aws (Unit {0}) → S3Upload → S3Upload
note_size size (done u) upload = record upload { incomplete_part_size = size }
note_size size (failed e) upload = upload

-- Returns the count and the error: no count where the group has an error, and the count with the error of the
-- producer where it has none.
unfoldable pub counted : Progress → Option Failure → ℤ × Option Failure
counted p error = elim p.error [ some e ↦ (pos 0, some e) | none ↦ (p.uploaded, error) ]

unfoldable pub start_of : S3Upload → List Part → Progress
start_of upload parts = record {
  upload = upload;
  uploaded = pos 0;
  next_number = suc (length parts);
  error = none;
}

module _ (api : S3Api) (store : S3Store) where
  -- A file that becomes a part; its entry is in the list of parts even where the request fails.
  unfoldable pub upload_as_part : Bytes → Progress → Env api → Progress × Env api
  upload_as_part file p env =
      let (r, service) =
        api.upload_part (object_key store p.upload.object_id) p.upload.multipart_id p.next_number
          file env.service in
      (
        record {
          upload = record (p.upload) {
            parts =
                p.upload.parts
                ++ (record { number = p.next_number; size = pos (length file); etag = etag_of r }
                    ∷ []);
          };
          uploaded = p.uploaded +ℤ pos (length file);
          next_number = suc p.next_number;
          error = or_else p.error (or_else (error_of r) (next_fault env.disk));
        },
        record env { service = service; disk = later_faults env.disk },
      )

  -- A file that becomes the incomplete part.
  unfoldable pub upload_as_incomplete : Bytes → Progress → Env api → Progress × Env api
  upload_as_incomplete file p env =
      let (r, service) = api.put_object (part_key store p.upload.object_id) file env.service in
      (
        record {
          upload = note_size (length file) r p.upload;
          uploaded = p.uploaded +ℤ pos (length file);
          next_number = suc p.next_number;
          error = or_else p.error (or_else (error_of r) (next_fault env.disk));
        },
        record env { service = service; disk = later_faults env.disk },
      )

  unfoldable pub upload_file : FileInfo → ℤ → Bytes → Progress → Env api → Progress × Env api
  upload_file info offset file p env =
      if leb store.limits.min_part_size (length file)
        || is_final_chunk info offset p.uploaded (length file)
      then upload_as_part file p env
      else upload_as_incomplete file p env

  -- The loop goes on after an error: the group is asked for its error behind it.
  unfoldable pub upload_files : FileInfo → ℤ → List Bytes → Progress → Env api → Progress × Env api
  upload_files info offset [] p env = (p, env)
  upload_files info offset (file ∷ files) p env =
      let (p', env') = upload_file info offset file p env in upload_files info offset files p' env'

-- What `uploadParts` returns, the upload that it changes, and whether it has got as far as to read the source.
pub record Uploaded : Type 0 where
  pub has_read : Bool
  pub upload : S3Upload
  pub bytes : ℤ
  pub error : Option Failure

-- A missing object is no error, but no incomplete part either.
unfoldable pub found_or_none : Aws Bytes → Result (Option Bytes)
found_or_none (done bytes) = ok (some bytes)
found_or_none (failed e) = if is_part_missing e then ok none else err (aws_failure e)

unfoldable pub expect_part : Option Bytes → Result Bytes
expect_part (some bytes) = ok bytes
expect_part none =
    err (other (codes "s3store: Expected an incomplete part file but did not get any"))

-- `max(bytesUploaded - incompletePartSize, 0)`
unfoldable pub without_incomplete : ℤ → ℕ → ℤ
without_incomplete bytes size = let n = bytes -ℤ pos size in if ltb_ℤ n (pos 0) then pos 0 else n

unfoldable pub add_offset : ℤ → S3Upload → S3Upload
add_offset bytes upload = elim upload.info [
  | none ↦ upload
  | some info ↦ record upload { info = some (record info { offset = info.offset +ℤ bytes }) }
]

-- The end of `WriteChunk`; `reads` are those of all of the body.
unfoldable pub write_result : ℕ → ℕ → Uploaded → WriteResult S3Upload
write_result incomplete reads u = record {
  upload = add_offset (without_incomplete u.bytes incomplete) u.upload;
  bytes_written = without_incomplete u.bytes incomplete;
  error = u.error;
  reads = if u.has_read then reads else 0;
}

abbrev pub write_failed : S3Upload → Failure → WriteResult S3Upload
write_failed upload e = record { upload = upload; bytes_written = pos 0; error = some e; reads = 0 }

module _ (api : S3Api) (os : Platform) (store : S3Store) where
  -- The loop over what the producer makes of the source, and the count of it.
  unfoldable pub upload_produced : S3Upload → Fetched → ℤ → Produced → Env api → Uploaded × Env api
  upload_produced upload f offset produced env =
      let (p, env') =
        upload_files api store f.info offset produced.files (start_of upload f.parts)
          (record env { disk = produced.disk }) in
      (
        record {
          has_read = true;
          upload = p.upload;
          bytes = (counted p produced.error).0;
          error = (counted p produced.error).1;
        },
        env',
      )

  unfoldable pub upload_sized :
      S3Upload → Fetched → ℤ → Bytes → Result ℕ → Env api → Uploaded × Env api
  upload_sized upload f offset source (err e) env =
      (record { has_read = false; upload = upload; bytes = pos 0; error = some e }, env)
  upload_sized upload f offset source (ok size) env =
      upload_produced upload f offset (produce size source env.disk) env

  unfoldable pub upload_with :
      S3Upload → ℤ → Bytes → Result (Fetched × S3Upload) → Env api → Uploaded × Env api
  upload_with upload offset source (err e) env =
      (record { has_read = false; upload = upload; bytes = pos 0; error = some e }, env)
  upload_with upload offset source (ok (f, upload')) env =
      upload_sized upload' f offset source (part_size store f.info.size) env

  unfoldable pub upload_parts : S3Upload → ℤ → Bytes → Env api → Uploaded × Env api
  upload_parts upload offset source env =
      let (r, env') = get_internal_info api os store upload env in
      upload_with upload offset source r env'

  -- A fault of the temporary file ends it.
  unfoldable pub to_temp_file : Option Bytes → M (Env api) (Option Bytes)
  to_temp_file none env = (ok none, env)
  to_temp_file (some bytes) env = (
    elim (next_fault env.disk) [ none ↦ ok (some bytes) | some e ↦ err e ],
    record env { disk = later_faults env.disk },
  )

  unfoldable pub download_incomplete_part : Bytes → M (Env api) (Option Bytes)
  download_incomplete_part id = do
    r ← try_call api (api.get_object (part_key store id))
    found ← (λ env. (found_or_none r, env))
    to_temp_file found

  unfoldable pub delete_and_return : Bytes → Bytes → M (Env api) Bytes
  delete_and_return id bytes = do call api (api.delete_object (part_key store id)); pure bytes

  unfoldable pub take_file : Bytes → Option Bytes → M (Env api) Bytes
  take_file id file = do bytes ← (λ env. (expect_part file, env)); delete_and_return id bytes

  -- The incomplete part is fetched and deleted, and returned to be put before the source.
  unfoldable pub take_incomplete_part : Bytes → ℕ → M (Env api) Bytes
  take_incomplete_part id zero = pure []
  take_incomplete_part id (suc n) = do file ← download_incomplete_part id; take_file id file

  -- The source goes behind what was taken; the offset is where that began.
  unfoldable pub write_taken :
      S3Upload → ℕ → ℤ → List Bytes → Result Bytes → Env api → WriteResult S3Upload × Env api
  write_taken upload incomplete offset src (err e) env = (write_failed upload e, env)
  write_taken upload incomplete offset src (ok bytes) env =
      let (u, env') = upload_parts upload (offset -ℤ pos incomplete) (bytes ++ flatten src) env in
      (write_result incomplete (length src) u, env')

  unfoldable pub write_with :
      S3Upload
      → ℤ
      → List Bytes
      → Result (Fetched × S3Upload)
      → Env api
      → WriteResult S3Upload × Env api
  write_with upload offset src (err e) env = (write_failed upload e, env)
  write_with upload offset src (ok (f, upload')) env =
      let (r, env') = take_incomplete_part upload'.object_id f.incomplete_part_size env in
      write_taken upload' f.incomplete_part_size offset src r env'

  unfoldable pub write_chunk : S3Upload → ℤ → List Bytes → Env api → WriteResult S3Upload × Env api
  write_chunk upload offset src env =
      let (r, env') = get_internal_info api os store upload env in
      write_with upload offset src r env'
