-- ===== src/Handler/Routes/Draft.antt =====
-- `PostFileV2` of pkg/handler/unrouted_handler.go: the creation of an upload by the draft protocol.
use tusd.Base.{not, ◌||◌, [], ◌∷◌, ◌++◌, codes, is_empty, if◌then◌else◌}
use tusd.Base.Dict.{insert, copy_into}
use tusd.Http.{HttpHeader, detailed, ok}
use tusd.Http.Errors.{err_not_implemented}
use tusd.DataStore.{StoreComposer, FileInfo, MetaData}
use tusd.Handler.Request.{
  Request, get_header, get_ietf_draft_interop_version, get_ietf_draft_upload_length,
}
use tusd.Handler.Config.{Config}
use tusd.Handler.Monad.{response, World, H, ◌>>=◌, ◌>>◌, pure, lift}
use tusd.Handler.Respond.{Reply, send, handle, lock_upload, abs_file_url}
use tusd.Handler.Chunk.{write_chunk}
use tusd.Handler.Post.{
  require, new_info, initial_response, call_pre_create, create_upload, announce_upload,
}
use tusd.Handler.Patch.{complete_deferred}
use tusd.Handler.Read.{version_text, get_ietf_draft_upload_limits}
use tusd.Handler.Read.ContentType.{Mime, get_meta}

module _ {S : StoreComposer} where
  -- The file type from `Content-Type`.
  unfoldable pub meta_from_type : Mime → Request → MetaData → H S MetaData
  meta_from_type mime r meta =
      if is_empty (get_header r (codes "Content-Type")) then pure meta else (do
        (file_type, params) ← lift (mime.parse_media_type (get_header r (codes "Content-Type")))
        pure (insert (codes "filetype") file_type meta))

  -- The file name from `Content-Disposition`.
  unfoldable pub meta_from_disposition : Mime → Request → MetaData → H S MetaData
  meta_from_disposition mime r meta =
      if is_empty (get_header r (codes "Content-Disposition")) then pure meta else (do
        (disposition, values) ←
            lift (mime.parse_media_type (get_header r (codes "Content-Disposition")))
        pure (
            if is_empty (get_meta values (codes "filename"))
            then meta
            else insert (codes "filename") (get_meta values (codes "filename")) meta))

  -- The info of the new upload, from the headers.
  unfoldable pub draft_info : Mime → Request → H S FileInfo
  draft_info mime r = do
    len ← lift (get_ietf_draft_upload_length r)
    require (not len.is_deferred || S.uses_length_deferrer) (detailed err_not_implemented)
    meta ← meta_from_type mime r []
    meta' ← meta_from_disposition mime r meta
    pure (record new_info {
      size = len.length;
      size_is_deferred = len.is_deferred;
      meta_data = meta';
    })

  -- The interim response 104 with the location.
  unfoldable pub send_interim : HttpHeader → H S (Unit {0})
  send_interim header w =
      let full = copy_into w.header header in
      (
        ok tt,
        record w {
          header = full;
          output =
              w.output ++ (response (record { status_code = 104; body = []; header = full }) ∷ []);
        },
      )

  unfoldable pub post_v2_upload : Mime → Config → Request → H S Reply
  post_v2_upload mime config r = do
    asked ← draft_info mime r
    (resp, info0) ← call_pre_create config.pre_upload_create_callback r initial_response asked
    (upload, info) ← create_upload config r info0
    let url = abs_file_url config r info.id
    let limits = get_ietf_draft_upload_limits config.max_size info
    let resp1 = record resp {
      header = insert (codes "Upload-Limit") limits (insert (codes "Location") url resp.header);
    }
    let version = version_text (get_ietf_draft_interop_version r)
    send_interim (
        (codes "Location", url)
        ∷ ((codes "Upload-Draft-Interop-Version", version) ∷ ((codes "Upload-Limit", limits) ∷ [])))
    announce_upload config r info
    lock_upload info.id
    (resp2, upload2) ← write_chunk {S = S} config r resp1 upload info
    resp3 ← complete_deferred {S = S} config r resp2 upload2 info
    pure (send resp3)

  unfoldable pub post_file_v2 : Mime → Config → Request → World S → World S
  post_file_v2 mime config r = handle r (post_v2_upload mime config r)
