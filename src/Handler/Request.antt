-- ===== src/Handler/Request.antt =====
-- A request as the handlers read it, and the functions of unrouted_handler.go that read the headers
-- of the resumable upload draft.
use tusd.Base.{
  Bool, true, false, not, ◌&&◌, List, [], Option, none, some, Bytes, codes, text_eq, is_empty,
  if◌then◌else◌,
}
use tusd.Base.Int.{ℤ, pos, negsuc, eqb_ℤ}
use tusd.Base.Dict.{lookup, insert}
use tusd.Http.{HttpHeader, detailed, Result, ok, err}
use tusd.Http.Errors.{err_invalid_upload_length}
use tusd.Strconv.{parse_int}
use tusd.BodyReader.{BodyEvent}
use tusd.DataStore.{FileInfo, HookEvent}

-- `content_length` is -1 where it is not known; `body` is `none` where it is nil.
pub record Request : Type 0 where
  pub method : Bytes
  pub path : Bytes
  pub request_uri : Bytes
  pub remote_addr : Bytes
  pub host : Bytes
  pub tls : Bool
  pub header : HttpHeader
  pub content_length : ℤ
  pub body : Option (List BodyEvent)

-- `r.Header.Get(key)`, with the key in the canonical spelling
unfoldable pub get_header : Request → Bytes → Bytes
get_header r key = elim (lookup key r.header) [ none ↦ [] | some value ↦ value ]

unfoldable pub new_hook_event : Request → FileInfo → HookEvent
new_hook_event r info = record {
  upload = info;
  http_request = record {
    method = r.method;
    uri = r.request_uri;
    remote_addr = r.remote_addr;
    header = insert (codes "Host") r.host r.header;
  };
}

-- `draftVersion`; the empty version is `no_version`.
pub data DraftVersion : Type 0 where
  interop_version3 interop_version4 interop_version5 interop_version6 no_version : DraftVersion

unfoldable pub get_ietf_draft_interop_version : Request → DraftVersion
get_ietf_draft_interop_version r =
    let version = get_header r (codes "Upload-Draft-Interop-Version") in
    if text_eq version (codes "3")
    then interop_version3
    else if text_eq version (codes "4")
    then interop_version4
    else if text_eq version (codes "5")
    then interop_version5
    else if text_eq version (codes "6")
    then interop_version6
    else no_version

abbrev pub is_no_version : DraftVersion → Bool
is_no_version no_version = true
is_no_version _ = false

unfoldable pub uses_ietf_draft : Bool → Request → Bool
uses_ietf_draft enabled r = enabled && not (is_no_version (get_ietf_draft_interop_version r))

unfoldable pub is_complete_for : DraftVersion → Request → Bool
is_complete_for interop_version3 r = text_eq (get_header r (codes "Upload-Incomplete")) (codes "?0")
is_complete_for no_version r = false
is_complete_for _ r = text_eq (get_header r (codes "Upload-Complete")) (codes "?1")

unfoldable pub is_ietf_draft_upload_complete : Request → Bool
is_ietf_draft_upload_complete r = is_complete_for (get_ietf_draft_interop_version r) r

-- The header that `setIETFDraftUploadComplete` sets.
unfoldable pub set_complete_for : DraftVersion → Bool → HttpHeader → HttpHeader
set_complete_for interop_version3 is_complete header =
    insert (codes "Upload-Incomplete") (if is_complete then codes "?0" else codes "?1") header
set_complete_for no_version is_complete header = header
set_complete_for _ is_complete header =
    insert (codes "Upload-Complete") (if is_complete then codes "?1" else codes "?0") header

unfoldable pub set_ietf_draft_upload_complete : Request → HttpHeader → Bool → HttpHeader
set_ietf_draft_upload_complete r header is_complete =
    set_complete_for (get_ietf_draft_interop_version r) is_complete header

-- A length, and whether it is deferred.
pub record UploadLength : Type 0 where
  pub length : ℤ
  pub is_deferred : Bool

-- The length from `Content-Length`, where the request completes the upload.
unfoldable pub length_from_content_length : Request → Option ℤ
length_from_content_length r =
    if is_ietf_draft_upload_complete r && not (eqb_ℤ r.content_length (negsuc 0))
    then some r.content_length
    else none

abbrev declared : ℤ → Result UploadLength
declared n = ok (record { length = n; is_deferred = false })

unfoldable pub combine_lengths : Option ℤ → Option ℤ → Result UploadLength
combine_lengths none none = ok (record { length = pos 0; is_deferred = true })
combine_lengths none (some content) = declared content
combine_lengths (some upload) none = declared upload
combine_lengths (some upload) (some content) =
    if eqb_ℤ upload content then declared upload else err (detailed err_invalid_upload_length)

unfoldable pub get_ietf_draft_upload_length : Request → Result UploadLength
get_ietf_draft_upload_length r =
    let text = get_header r (codes "Upload-Length") in
    if is_empty text
    then combine_lengths none (length_from_content_length r)
    else elim (parse_int text) [
      | none ↦ err (detailed err_invalid_upload_length)
      | some n ↦ combine_lengths (some n) (length_from_content_length r)
    ]

-- The result of `validateNewUploadLengthHeaders`, for a store with or without the deferrer extension.
-- The value of `UploadLengthDeferred` is "1".
abbrev pub upload_length_deferred : Bytes
upload_length_deferred = codes "1"
