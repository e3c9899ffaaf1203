-- ===== src/S3/Upload.antt =====
-- `s3Upload` of pkg/s3store/s3store.go: its creation, and what the store knows of it.
use tusd.Base.{
  ℕ, zero, suc, ◌+◌, Bool, true, false, ◌||◌, List, [], ◌∷◌, ◌++◌, Option, none, some, Bytes, codes,
  is_empty, length, if◌then◌else◌,
}
use tusd.Base.Int.{ℤ, pos, ltb_ℤ, ◌+ℤ◌}
use tusd.Base.Dict.{Dict, lookup}
use tusd.Strconv.{format_nat, format_int}
use tusd.Http.{Failure, detailed, other, Result, ok, err}
use tusd.Http.Errors.{err_not_found}
use tusd.DataStore.{FileInfo, MetaData}
use tusd.Action.{M, ◌>>=◌, pure, raise}
use tusd.S3.PartSize.{PartLimits}
use tusd.S3.Keys.{Prefixes, split_ids, key_with_prefix, metadata_key_with_prefix}
use tusd.S3.Service.{
  AwsError, Aws, done, failed, Part, Page, S3Api, Env, aws_failure, or_fail, is_upload_gone,
  is_part_missing, try_call,
}

-- What the store takes from packages `encoding/json` and `regexp` and from internal/uid.
pub record Platform : Type 0 where
  pub marshal : FileInfo → Bytes
  pub unmarshal : Bytes → Result FileInfo
  pub replace_all : Bytes → Bytes → Bytes → Bytes
  pub uid : ℕ → Bytes

-- `S3Store`, less its metrics, its semaphore and its connection.
pub record S3Store : Type 0 where
  pub limits : PartLimits
  pub prefixes : Prefixes
  pub bucket : Bytes

-- `s3Upload`; `info` is none where it has not been fetched.
pub record S3Upload : Type 0 where
  pub object_id : Bytes
  pub multipart_id : Bytes
  pub info : Option FileInfo
  pub parts : List Part
  pub incomplete_part_size : ℕ

unfoldable pub new_handle : Bytes → Bytes → S3Upload
new_handle object_id multipart_id = record {
  object_id = object_id;
  multipart_id = multipart_id;
  info = none;
  parts = [];
  incomplete_part_size = 0;
}

-- `nonPrintableRegexp`
abbrev pub non_printable_regexp : Bytes
non_printable_regexp = codes "[^\\x09\\x20-\\x7E]"

unfoldable pub printable_values : (Bytes → Bytes → Bytes → Bytes) → MetaData → Dict Bytes
printable_values replace_all [] = []
printable_values replace_all ((key, value) ∷ meta_data) =
    (key, replace_all non_printable_regexp value (codes "?"))
    ∷ printable_values replace_all meta_data

-- An error that the caller puts into a text of its own.
unfoldable pub wrapped : Bytes → AwsError → Failure
wrapped text e = other (text ++ e.text)

unfoldable pub part_sizes : List Part → ℤ → ℤ
part_sizes [] offset = offset
part_sizes (part ∷ parts) offset = part_sizes parts (offset +ℤ part.size)

-- What `fetchInfo` has of its three requests: the info, the parts and the size of the incomplete part.
pub record Fetched : Type 0 where
  pub info : FileInfo
  pub parts : List Part
  pub incomplete_part_size : ℕ

unfoldable pub object_key : S3Store → Bytes → Bytes
object_key store id = key_with_prefix store.prefixes id

unfoldable pub info_key : S3Store → Bytes → Bytes
info_key store id = metadata_key_with_prefix store.prefixes (id ++ codes ".info")

unfoldable pub part_key : S3Store → Bytes → Bytes
part_key store id = metadata_key_with_prefix store.prefixes (id ++ codes ".part")

unfoldable pub with_more : List Part → Aws (List Part) → Aws (List Part)
with_more parts (done more) = done (parts ++ more)
with_more parts (failed e) = failed e

-- How `fetchInfo` reads the answer for the info object.
unfoldable pub read_info : (Bytes → Result FileInfo) → Aws Bytes → Result FileInfo
read_info unmarshal (done text) = unmarshal text
read_info unmarshal (failed e) =
    if e.no_such_key then err (detailed err_not_found) else err (aws_failure e)

-- A missing incomplete part is one of size 0.
unfoldable pub read_size : Aws ℕ → Result ℕ
read_size (done n) = ok n
read_size (failed e) = if is_part_missing e then ok 0 else err (aws_failure e)

unfoldable pub size_or_zero : Result ℕ → ℕ
size_or_zero (ok n) = n
size_or_zero (err e) = 0

-- The end of `fetchInfo`: the first error of info, parts and incomplete part counts, and where the multipart
-- upload is gone, all of the upload has been received.
unfoldable pub fetched : Result FileInfo → Aws (List Part) → Result ℕ → Result Fetched
fetched (err e) parts size = err e
fetched (ok info) (failed e) size =
    if is_upload_gone e
    then ok (record {
      info = record info { offset = info.size };
      parts = [];
      incomplete_part_size = size_or_zero size;
    })
    else err (aws_failure e)
fetched (ok info) (done parts) (err e) = err e
fetched (ok info) (done parts) (ok size) = ok (record {
  info = record info { offset = part_sizes parts (pos size) };
  parts = parts;
  incomplete_part_size = size;
})

module _ (api : S3Api) (os : Platform) (store : S3Store) where
  unfoldable pub write_info : S3Upload → FileInfo → M (Env api) (Aws S3Upload)
  write_info upload info = do
    r ← try_call api (api.put_object (info_key store upload.object_id) (os.marshal info))
    pure (elim r [ done u ↦ done (record upload { info = some info }) | failed e ↦ failed e ])

  -- The rest of `listAllParts` behind a page: the pages behind it, where there are any.
  unfoldable pub behind_page :
      (Option ℕ → M (Env api) (Aws (List Part))) → Page → Bool → M (Env api) (Aws (List Part))
  behind_page rest p true = do more ← rest p.next_marker; pure (with_more p.parts more)
  behind_page rest p false = pure (done p.parts)

  unfoldable pub after_page :
      (Option ℕ → M (Env api) (Aws (List Part))) → Aws Page → M (Env api) (Aws (List Part))
  after_page rest (failed e) = pure (failed e)
  after_page rest (done p) = behind_page rest p p.is_truncated

  -- `listAllParts`, which asks for pages until one is the last.
  unfoldable pub list_pages : ℕ → Bytes → Bytes → Option ℕ → M (Env api) (Aws (List Part))
  list_pages zero key multipart_id marker = pure (done [])
  list_pages (suc pages) key multipart_id marker = do
    page ← try_call api (api.list_parts key multipart_id marker)
    after_page (list_pages pages key multipart_id) page

  -- A page that is not the last has a part, and there are no more parts than the limit.
  unfoldable pub list_all_parts : Bytes → Bytes → M (Env api) (Aws (List Part))
  list_all_parts object_id multipart_id =
      list_pages (suc store.limits.max_multipart_parts) (object_key store object_id) multipart_id
        none

  unfoldable pub head_incomplete_part : Bytes → M (Env api) (Result ℕ)
  head_incomplete_part id = do
    r ← try_call api (api.head_object (part_key store id))
    pure (read_size r)

  -- The three requests of `fetchInfo` are all made, whatever becomes of the others.
  unfoldable pub fetch_info : S3Upload → M (Env api) Fetched
  fetch_info upload = do
    text ← try_call api (api.get_object (info_key store upload.object_id))
    parts ← list_all_parts upload.object_id upload.multipart_id
    size ← head_incomplete_part upload.object_id
    λ env. (fetched (read_info os.unmarshal text) parts size, env)

  -- `getInternalInfo`, and the upload that remembers what it has fetched.
  unfoldable pub get_internal_info : S3Upload → M (Env api) (Fetched × S3Upload)
  get_internal_info upload = elim upload.info [
    | some info ↦ pure (
      record {
        info = info;
        parts = upload.parts;
        incomplete_part_size = upload.incomplete_part_size;
      },
      upload,
    )
    | none ↦ do
      f ← fetch_info upload
      pure (
        f,
        record upload {
          info = some f.info;
          parts = f.parts;
          incomplete_part_size = f.incomplete_part_size;
        },
      )
  ]

  unfoldable pub get_info : S3Upload → M (Env api) (FileInfo × S3Upload)
  get_info upload = do r ← get_internal_info upload; pure (r.0.info, r.1)

  unfoldable pub declare_length : S3Upload → ℤ → M (Env api) S3Upload
  declare_length upload length = do
    r ← get_info upload
    written ← write_info r.1 (record (r.0) { size = length; size_is_deferred = false })
    λ env. (or_fail written, env)

  -- `uid.Uid()`, where the info names no ID
  unfoldable pub choose_id : FileInfo → M (Env api) Bytes
  choose_id info env =
      if is_empty info.id
      then (ok (os.uid env.uids), record env { uids = env.uids + 1 })
      else (ok info.id, env)

  unfoldable pub storage_of : Bytes → Dict Bytes
  storage_of object_id =
      (codes "Type", codes "s3store")
      ∷ (codes "Bucket", store.bucket)
      ∷ (codes "Key", object_key store object_id)
      ∷ []

  unfoldable pub too_large : ℤ → Failure
  too_large size = other (
      codes "s3store: upload size of "
      ++ (format_int size
          ++ (codes " bytes exceeds MaxObjectSize of "
              ++ (format_nat store.limits.max_object_size ++ codes " bytes"))))

  unfoldable pub create_upload : FileInfo → M (Env api) S3Upload
  create_upload info = do
    object_id ← choose_id info
    created ← try_call api (
        api.create_multipart_upload (object_key store object_id)
          (printable_values os.replace_all info.meta_data)
          (lookup (codes "filetype") info.meta_data))
    elim created [
      | failed e ↦ raise (wrapped (codes "s3store: unable to create multipart upload:\n") e)
      | done multipart_id ↦ do
        written ← write_info (new_handle object_id multipart_id) (record info {
          id = object_id ++ (codes "+" ++ multipart_id);
          storage = some (storage_of object_id);
        })
        elim written [
          | done upload ↦ pure upload
          | failed e ↦ raise (wrapped (codes "s3store: unable to create info file:\n") e)
        ]
    ]

  unfoldable pub new_upload : FileInfo → M (Env api) S3Upload
  new_upload info env =
      let created = create_upload info env in
      if ltb_ℤ (pos store.limits.max_object_size) info.size
      then (err (too_large info.size), env)
      else created

-- An ID that has not both parts cannot be one of the store's.
unfoldable pub get_upload : Bytes → Result S3Upload
get_upload id =
    if is_empty (split_ids id).0 || is_empty (split_ids id).1
    then err (detailed err_not_found)
    else ok (new_handle (split_ids id).0 (split_ids id).1)
