-- ===== src/Handler/Post.antt =====
-- `PostFile` of pkg/handler/unrouted_handler.go: the creation of an upload.
use tusd.Base.{
  Bool, true, false, not, ◌&&◌, ◌||◌, List, [], ◌∷◌, ◌++◌, Option, none, some, Bytes, codes,
  text_eq, is_empty, if◌then◌else◌,
}
use tusd.Base.Int.{ℤ, pos, ◌+ℤ◌, ltb_ℤ, eqb_ℤ}
use tusd.Base.Dict.{insert}
use tusd.Strconv.{parse_int}
use tusd.Http.{HttpResponse, merge_with, Failure, detailed, Result, ok, err}
use tusd.Http.Errors.{
  err_not_implemented, err_upload_length_and_upload_defer_length, err_invalid_upload_defer_length,
  err_invalid_upload_length, err_upload_not_finished, err_concatenation_unsupported,
  err_modify_final, err_max_size_exceeded,
}
use tusd.Ids.{Concat, parse_concat, validate_upload_id}
use tusd.Metadata.{parse_metadata_header}
use tusd.DataStore.{StoreComposer, FileInfo, FileInfoChanges, HookEvent}
use tusd.Handler.Request.{Request, get_header, new_hook_event, UploadLength, upload_length_deferred}
use tusd.Handler.Config.{Config}
use tusd.Handler.Monad.{
  created, World, H, ◌>>=◌, ◌>>◌, pure, fail, call, lift, notify, modify_metrics,
  inc_uploads_created,
}
use tusd.Handler.Respond.{Reply, send, handle, lock_upload, abs_file_url}
use tusd.Handler.Chunk.{write_chunk, finish_upload_if_complete, emit_finish_events}

abbrev pub octet_stream : Bytes
octet_stream = codes "application/offset+octet-stream"

-- An error of parsing, or a negative length.
unfoldable pub parse_length : Bytes → Result UploadLength
parse_length text = elim (parse_int text) [
  | none ↦ err (detailed err_invalid_upload_length)
  | some n ↦
      if ltb_ℤ n (pos 0)
      then err (detailed err_invalid_upload_length)
      else ok (record { length = n; is_deferred = false })
]

unfoldable pub validate_new_upload_length_headers : Bool → Bytes → Bytes → Result UploadLength
validate_new_upload_length_headers uses_length_deferrer upload_length defer_length =
    let length_is_deferred = text_eq defer_length upload_length_deferred in
    if length_is_deferred && not uses_length_deferrer
    then err (detailed err_not_implemented)
    else if not (is_empty upload_length) && not (is_empty defer_length)
    then err (detailed err_upload_length_and_upload_defer_length)
    else if not (is_empty defer_length) && not length_is_deferred
    then err (detailed err_invalid_upload_defer_length)
    else if length_is_deferred
    then ok (record { length = pos 0; is_deferred = true })
    else parse_length upload_length

-- `handler.config.MaxSize > 0 && size > handler.config.MaxSize`
unfoldable pub exceeds_max_size : ℤ → ℤ → Bool
exceeds_max_size max_size size = ltb_ℤ (pos 0) max_size && ltb_ℤ max_size size

-- What a pre-create hook changes in the new upload; its ID has been validated.
unfoldable pub apply_changes : FileInfoChanges → FileInfo → FileInfo
apply_changes changes info = record info {
  id = if is_empty changes.id then info.id else changes.id;
  meta_data = elim changes.meta_data [ none ↦ info.meta_data | some meta ↦ meta ];
  storage = elim changes.storage [ none ↦ info.storage | some storage ↦ some storage ];
}

-- The partial uploads and their total size.
pub record Partials (Upload : Type 0) : Type 0 where
  pub uploads : List Upload
  pub size : ℤ

-- The values of the creation request that both kinds of upload have.
pub record Creation (Upload : Type 0) : Type 0 where
  pub info : FileInfo
  pub partials : List Upload

abbrev pub new_info : FileInfo
new_info = record {
  id = [];
  size = pos 0;
  size_is_deferred = false;
  offset = pos 0;
  meta_data = [];
  is_partial = false;
  is_final = false;
  partial_uploads = [];
  storage = none;
}

abbrev pub initial_response : HttpResponse
initial_response = record { status_code = 201; body = []; header = [] }

abbrev pub check : Option Failure → Result (Unit {0})
check none = ok tt
check (some e) = err e

unfoldable pub not_finished : FileInfo → Bool
not_finished info = info.size_is_deferred || not (eqb_ℤ info.offset info.size)

module _ {S : StoreComposer} where
  unfoldable pub require : Bool → Failure → H S (Unit {0})
  require passed e = if passed then pure tt else fail e

  -- `sizeOfUploads`, with the uploads and the size so far
  unfoldable pub size_of_uploads : List Bytes → List S.Upload → ℤ → H S (Partials S.Upload)
  size_of_uploads [] uploads size = pure (record { uploads = uploads; size = size })
  size_of_uploads (id ∷ ids) uploads size = do
    upload ← call S (S.get_upload id)
    (info, upload') ← call S (S.get_info upload)
    require (not (not_finished info)) (detailed err_upload_not_finished)
    size_of_uploads ids (uploads ++ (upload' ∷ [])) (size +ℤ info.size)

  -- The size of the new upload: the sum of the partial uploads, or what the headers say.
  unfoldable pub creation_size : Request → Concat → Bool → H S (Creation S.Upload)
  creation_size r concat contains_chunk =
      if concat.is_final
      then (do
        require (not contains_chunk) (detailed err_modify_final)
        partials ← size_of_uploads concat.partial_uploads [] (pos 0)
        pure (record { info = record base { size = partials.size }; partials = partials.uploads }))
      else (do
        len ← lift (
            validate_new_upload_length_headers S.uses_length_deferrer
              (get_header r (codes "Upload-Length")) (get_header r (codes "Upload-Defer-Length")))
        pure (record {
          info = record base { size = len.length; size_is_deferred = len.is_deferred };
          partials = [];
        }))
    where
      base : FileInfo
      base = record new_info {
        is_partial = concat.is_partial;
        is_final = concat.is_final;
        partial_uploads = concat.partial_uploads;
      }

  unfoldable pub call_pre_create :
      Option (HookEvent → Result (HttpResponse × FileInfoChanges))
      → Request
      → HttpResponse
      → FileInfo
      → H S (HttpResponse × FileInfo)
  call_pre_create none r resp info = pure (resp, info)
  call_pre_create (some callback) r resp info = do
    (resp2, changes) ← lift (callback (new_hook_event r info))
    lift (check (validate_upload_id changes.id))
    pure (merge_with resp resp2, apply_changes changes info)

  -- The checks of `PostFile` up to the hook: what is to be created.
  unfoldable pub prepare_upload : Config → Request → Bool → H S (Creation S.Upload)
  prepare_upload config r contains_chunk = do
    let concat_text = if S.uses_concater then get_header r (codes "Upload-Concat") else []
    require (is_empty concat_text || not config.disable_concatenation)
        (detailed err_concatenation_unsupported)
    let concat = parse_concat concat_text config.base_path
    lift (check concat.error)
    creation ← creation_size r concat contains_chunk
    require (not (exceeds_max_size config.max_size creation.info.size))
        (detailed err_max_size_exceeded)
    let meta = parse_metadata_header (get_header r (codes "Upload-Metadata"))
    pure (record creation { info = record (creation.info) { meta_data = meta } })

  -- `NewUpload`, `GetInfo` and the notification.
  unfoldable pub create_upload : Config → Request → FileInfo → H S (S.Upload × FileInfo)
  create_upload config r info = do
    upload ← call S (S.new_upload info)
    (info', upload') ← call S (S.get_info upload)
    pure (upload', info')

  unfoldable pub announce_upload : Config → Request → FileInfo → H S (Unit {0})
  announce_upload config r info = do
    modify_metrics inc_uploads_created
    notify config.notify_created_uploads (created (new_hook_event r info))

  -- The concatenation of a final upload, with its finish events.
  unfoldable pub concatenate :
      Config
      → Request
      → HttpResponse
      → S.Upload
      → FileInfo
      → Creation S.Upload
      → H S (HttpResponse × S.Upload × FileInfo)
  concatenate config r resp upload info creation =
      if creation.info.is_final
      then (do
        upload' ← call S (S.concat_uploads upload creation.partials)
        let info' = record info { offset = creation.info.size }
        resp' ← emit_finish_events config r resp info'
        pure (resp', upload', info'))
      else pure (resp, upload, info)

  -- A chunk in the creation request, or the end of an empty upload.
  unfoldable pub first_chunk :
      Config → Request → Bool → FileInfo → HttpResponse → S.Upload → FileInfo → H S HttpResponse
  first_chunk config r contains_chunk asked resp upload info =
      if contains_chunk
      then (do
        lock_upload info.id
        (resp', upload') ← write_chunk {S = S} config r resp upload info
        pure resp')
      else if not asked.size_is_deferred && eqb_ℤ asked.size (pos 0)
      then finish_upload_if_complete {S = S} config r resp upload info
      else pure resp

  unfoldable pub post_upload : Config → Request → H S Reply
  post_upload config r = do
    let contains_chunk = text_eq (get_header r (codes "Content-Type")) octet_stream
    creation ← prepare_upload config r contains_chunk
    (resp, asked) ←
        call_pre_create config.pre_upload_create_callback r initial_response creation.info
    (upload, info) ← create_upload config r asked
    let resp1 = record resp {
      header = insert (codes "Location") (abs_file_url config r info.id) resp.header;
    }
    announce_upload config r info
    (resp2, upload2, info2) ← concatenate config r resp1 upload info creation
    resp3 ← first_chunk config r contains_chunk creation.info resp2 upload2 info2
    pure (send resp3)

  unfoldable pub post_file : Config → Request → World S → World S
  post_file config r = handle r (post_upload config r)
