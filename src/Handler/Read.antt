-- ===== src/Handler/Read.antt =====
-- `HeadFile` and `GetFile` of pkg/handler/unrouted_handler.go.
pub mod ContentType
use tusd.Base.{
  ℕ, Bool, true, false, not, ◌&&◌, ◌||◌, List, [], ◌∷◌, ◌++◌, Option, none, some, Bytes, codes,
  text_eq, is_empty, map, if◌then◌else◌,
}
use tusd.Base.Int.{ℤ, pos, negsuc, ltb_ℤ, eqb_ℤ}
use tusd.Base.Dict.{insert, copy_into}
use tusd.Strconv.{format_int}
use tusd.Http.{HttpResponse, HttpHeader, Failure, detailed, Result, ok, err}
use tusd.Ids.{extract_id_from_path, concat_header}
use tusd.Metadata.{serialize_metadata_header}
use tusd.DataStore.{StoreComposer, FileInfo, MetaData}
use tusd.Handler.Request.{
  Request, DraftVersion, interop_version3, interop_version4, interop_version5, interop_version6,
  no_version, get_ietf_draft_interop_version, uses_ietf_draft, set_ietf_draft_upload_complete,
  upload_length_deferred,
}
use tusd.Handler.Config.{Config}
use tusd.Handler.Monad.{Output, response, World, H, ◌>>=◌, ◌>>◌, pure, fail, call, lift}
use tusd.Handler.Respond.{Reply, send, send_and_copy, served, handle, lock_upload, abs_file_url}
use tusd.Handler.Chunk.{is_complete}
use ContentType.{Mime, filter_content_type, content_headers}

-- The text of a draft version.
unfoldable pub version_text : DraftVersion → Bytes
version_text interop_version3 = codes "3"
version_text interop_version4 = codes "4"
version_text interop_version5 = codes "5"
version_text interop_version6 = codes "6"
version_text no_version = []

unfoldable pub get_ietf_draft_upload_limits : ℤ → FileInfo → Bytes
get_ietf_draft_upload_limits max_size info =
    if ltb_ℤ (pos 0) max_size
    then codes "min-size=0" ++ (codes ",max-size=" ++ format_int max_size)
    else if info.size_is_deferred
    then codes "min-size=0"
    else codes "min-size=0" ++ (codes ",max-size=" ++ format_int info.size)

abbrev when : Bool → Bytes → Bytes → HttpHeader → HttpHeader
when test key value header = if test then insert key value header else header

-- The headers of every HEAD response.
unfoldable pub head_base : FileInfo → HttpHeader
head_base info =
    insert (codes "Upload-Offset") (format_int info.offset)
      (insert (codes "Cache-Control") (codes "no-store") [])

abbrev has_entries : MetaData → Bool
has_entries [] = false
has_entries (entry ∷ meta) = true

unfoldable pub head_lengths : FileInfo → HttpHeader → HttpHeader
head_lengths info header =
    if info.size_is_deferred
    then insert (codes "Upload-Defer-Length") upload_length_deferred header
    else insert (codes "Content-Length") (format_int info.size)
        (insert (codes "Upload-Length") (format_int info.size) header)

-- The response of tus v1, and that of the draft.
unfoldable pub head_v1 : Config → Request → FileInfo → HttpResponse
head_v1 config r info = record {
  status_code = 200;
  body = [];
  header = head_lengths info (
      when (has_entries info.meta_data) (codes "Upload-Metadata")
        (serialize_metadata_header info.meta_data)
        (when info.is_final (codes "Upload-Concat")
          (concat_header (map (abs_file_url config r) info.partial_uploads))
          (when info.is_partial (codes "Upload-Concat") (codes "partial") (head_base info))));
}

unfoldable pub head_draft : Config → Request → FileInfo → HttpResponse
head_draft config r info = record {
  status_code = 204;
  body = [];
  header = insert (codes "Upload-Limit") (get_ietf_draft_upload_limits config.max_size info) (
      when (not info.size_is_deferred) (codes "Upload-Length") (format_int info.size) (
        insert (codes "Upload-Draft-Interop-Version")
          (version_text (get_ietf_draft_interop_version r))
          (set_ietf_draft_upload_complete r (head_base info) (is_complete info))));
}

unfoldable pub head_response : Config → Request → FileInfo → HttpResponse
head_response config r info =
    if uses_ietf_draft config.enable_experimental_protocol r
    then head_draft config r info
    else head_v1 config r info

abbrev pub served_or : Option Failure → Result Reply
served_or none = ok served
served_or (some e) = err e

module _ {S : StoreComposer} where
  -- The start of HEAD, GET and DELETE: the ID, the lock and the upload.
  unfoldable pub open_upload : Request → H S S.Upload
  open_upload r = do
    id ← lift (extract_id_from_path r.path)
    lock_upload id
    call S (S.get_upload id)

  unfoldable pub head_request : Config → Request → H S Reply
  head_request config r = do
    upload ← open_upload r
    (info, upload') ← call S (S.get_info upload)
    pure (send (head_response config r info))

  unfoldable pub head_file : Config → Request → World S → World S
  head_file config r = handle r (head_request config r)

  -- The store writes the response; its headers start with those that the handler sets.
  unfoldable pub serve_content : S.Upload → HttpHeader → H S Reply
  serve_content upload header w =
      let ((resp, error), s) = S.serve_content upload (copy_into w.header header) w.store in
      let w' = record w {
        store = s;
        header = copy_into w.header header;
        output = w.output ++ (response resp ∷ []);
      } in
      (served_or error, w')

  -- The answer without a content server: nothing yet, or the bytes of the upload.
  unfoldable pub read_content : S.Upload → FileInfo → HttpHeader → H S Reply
  read_content upload info header =
      if eqb_ℤ info.offset (pos 0)
      then pure (send (record { status_code = 204; body = []; header = full }))
      else (do
        src ← call S (S.get_reader upload)
        pure (send_and_copy (record { status_code = 200; body = []; header = full }) src))
    where
      full : HttpHeader
      full = insert (codes "Content-Length") (format_int info.offset) header

  unfoldable pub get_request : Mime → Request → H S Reply
  get_request mime r = do
    upload ← open_upload r
    (info, upload') ← call S (S.get_info upload)
    let header = content_headers (filter_content_type mime info)
    if S.uses_content_server then serve_content upload' header else read_content upload' info header

  unfoldable pub get_file : Mime → Request → World S → World S
  get_file mime r = handle r (get_request mime r)
