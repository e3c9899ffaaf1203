-- ===== src/Handler/Patch.antt =====
-- `PatchFile` of pkg/handler/unrouted_handler.go.
use tusd.Base.{
  Bool, true, false, not, ◌&&◌, ◌||◌, [], ◌∷◌, none, some, Bytes, codes, text_eq, is_empty,
  if◌then◌else◌,
}
use tusd.Base.Int.{ℤ, pos, ltb_ℤ, eqb_ℤ}
use tusd.Strconv.{parse_int, format_int}
use tusd.Http.{HttpResponse, detailed, Result, ok, err}
use tusd.Http.Errors.{
  err_invalid_content_type, err_invalid_offset, err_modify_final, err_mismatch_offset,
  err_not_implemented, err_invalid_upload_length,
}
use tusd.Ids.{extract_id_from_path}
use tusd.DataStore.{StoreComposer, FileInfo}
use tusd.Handler.Request.{
  Request, get_header, DraftVersion, interop_version6, no_version, get_ietf_draft_interop_version,
  uses_ietf_draft, is_ietf_draft_upload_complete,
}
use tusd.Handler.Config.{Config}
use tusd.Handler.Monad.{World, H, ◌>>=◌, ◌>>◌, pure, call, lift}
use tusd.Handler.Respond.{Reply, send, handle, lock_upload}
use tusd.Handler.Chunk.{write_chunk, finish_upload_if_complete, is_complete}
use tusd.Handler.Post.{require, octet_stream, exceeds_max_size}

-- Drafts before -04 need no particular content type.
abbrev needs_partial_upload : DraftVersion → Bool
needs_partial_upload interop_version6 = true
needs_partial_upload no_version = true
needs_partial_upload _ = false

unfoldable pub has_valid_content_type : Bool → Request → Bool
has_valid_content_type experimental r =
    if uses_ietf_draft experimental r
    then not (needs_partial_upload (get_ietf_draft_interop_version r))
      || text_eq (get_header r (codes "Content-Type")) (codes "application/partial-upload")
    else text_eq (get_header r (codes "Content-Type")) octet_stream

-- The `Upload-Offset` header.
unfoldable pub parse_offset : Bytes → Result ℤ
parse_offset text = elim (parse_int text) [
  | none ↦ err (detailed err_invalid_offset)
  | some n ↦ if ltb_ℤ n (pos 0) then err (detailed err_invalid_offset) else ok n
]

-- The length that a PATCH declares for an upload whose length is deferred.
unfoldable pub parse_declared_length : ℤ → ℤ → Bytes → Result ℤ
parse_declared_length max_size offset text = elim (parse_int text) [
  | none ↦ err (detailed err_invalid_upload_length)
  | some n ↦
      if ltb_ℤ n (pos 0) || (ltb_ℤ n offset || exceeds_max_size max_size n)
      then err (detailed err_invalid_upload_length)
      else ok n
]

abbrev pub no_content : HttpResponse
no_content = record { status_code = 204; body = []; header = [] }

module _ {S : StoreComposer} where
  -- `Upload-Length` in a PATCH request.
  unfoldable pub declare_from_header :
      Config → Request → S.Upload → FileInfo → H S (S.Upload × FileInfo)
  declare_from_header config r upload info =
      if is_empty (get_header r (codes "Upload-Length")) then pure (upload, info) else (do
        require S.uses_length_deferrer (detailed err_not_implemented)
        require info.size_is_deferred (detailed err_invalid_upload_length)
        length ← lift (
            parse_declared_length config.max_size info.offset
              (get_header r (codes "Upload-Length")))
        upload' ← call S (S.declare_length upload length)
        pure (upload', record info { size = length; size_is_deferred = false }))

  -- A draft request that completes an upload of unknown length declares it.
  unfoldable pub complete_deferred :
      Config → Request → HttpResponse → S.Upload → FileInfo → H S HttpResponse
  complete_deferred config r resp upload info =
      if is_ietf_draft_upload_complete r && info.size_is_deferred
      then (do
        (info', upload') ← call S (S.get_info upload)
        upload'' ← call S (S.declare_length upload' info'.offset)
        finish_upload_if_complete {S = S} config r resp upload''
            (record info' { size = info'.offset; size_is_deferred = false }))
      else pure resp

  -- The part of `PatchFile` in which the data of an open upload is written.
  unfoldable pub append_chunk : Config → Request → S.Upload → FileInfo → H S HttpResponse
  append_chunk config r upload info = do
    (upload1, info1) ← declare_from_header config r upload info
    (resp, upload2) ← write_chunk {S = S} config r no_content upload1 info1
    complete_deferred config r resp upload2 info1

  -- The part of `PatchFile` behind the lock.
  unfoldable pub patch_upload : Config → Request → Bytes → ℤ → H S HttpResponse
  patch_upload config r id offset = do
    upload ← call S (S.get_upload id)
    (info, upload') ← call S (S.get_info upload)
    require (not info.is_final) (detailed err_modify_final)
    require (eqb_ℤ offset info.offset) (detailed err_mismatch_offset)
    if is_complete info
        then pure (record no_content { header = (codes "Upload-Offset", format_int offset) ∷ [] })
        else append_chunk config r upload' info

  unfoldable pub patch_request : Config → Request → H S Reply
  patch_request config r = do
    require (has_valid_content_type config.enable_experimental_protocol r)
        (detailed err_invalid_content_type)
    offset ← lift (parse_offset (get_header r (codes "Upload-Offset")))
    id ← lift (extract_id_from_path r.path)
    lock_upload id
    resp ← patch_upload config r id offset
    pure (send resp)

  unfoldable pub patch_file : Config → Request → World S → World S
  patch_file config r = handle r (patch_request config r)
