-- ===== src/Handler/Respond.antt =====
-- How a handler ends: `sendResp`, `sendError` and the deferred `Unlock`; and `lockUpload`, `absFileURL`.
use tusd.Base.{
  Bool, not, ◌&&◌, List, [], ◌∷◌, ◌++◌, Option, none, some, Bytes, codes, text_eq, is_empty,
  if◌then◌else◌, has_prefix, drop, ◌==◌, ◌||◌,
}
use tusd.Http.{HttpResponse, write_to, Error, new_error, Failure, detailed, other, Result, ok, err}
use tusd.DataStore.{StoreComposer, Stream}
use tusd.Handler.Request.{Request, get_header}
use tusd.Handler.Config.{Config}
use tusd.Handler.Monad.{response, streamed, World, H, ◌>>◌, pure, call, inc_errors_total}

-- A response to send; one that a body follows; or nothing, as the store has sent it.
pub data Reply : Type 0 where
  send : HttpResponse → Reply
  send_and_copy : HttpResponse → Stream → Reply
  served : Reply

-- The error that is sent for any Go error.
unfoldable pub to_detailed : Failure → Error
unfolding new_error
to_detailed (detailed e) = e
to_detailed (other text) = new_error (codes "ERR_INTERNAL_SERVER_ERROR") text 500

-- The response that `sendError` sends; none to a HEAD request has a body.
unfoldable pub error_response : Bytes → Error → HttpResponse
error_response method e =
    if text_eq method (codes "HEAD")
    then record (e.http_response) { body = [] }
    else e.http_response

unfoldable pub unlock_all : (S : StoreComposer) → List Bytes → S.State → S.State
unlock_all S [] s = s
unlock_all S (id ∷ ids) s = unlock_all S ids (S.unlock id s)

module _ {S : StoreComposer} where
  unfoldable pub send_resp : HttpResponse → World S → World S
  send_resp resp w =
      let out = write_to resp w.header in
      record w { header = out.header; output = w.output ++ (response out ∷ []) }

  unfoldable pub send_error : Bytes → Failure → World S → World S
  send_error method e w =
      let detail = to_detailed e in
      let w' = send_resp (error_response method detail) w in
      record w' { metrics = inc_errors_total detail w'.metrics }

  unfoldable pub end_copy : Bytes → Option Failure → World S → World S
  end_copy method none w = w
  end_copy method (some e) w = send_error method e w

  -- `sendResp` and `io.Copy` to the client.
  unfoldable pub copy_out : Bytes → Stream → World S → World S
  copy_out method src w =
      end_copy method src.error (record w { output = w.output ++ (streamed src.bytes ∷ []) })

  unfoldable pub conclude : Bytes → Result Reply × World S → World S
  conclude method (err e, w) = send_error method e w
  conclude method (ok (send resp), w) = send_resp resp w
  conclude method (ok (send_and_copy resp src), w) = copy_out method src (send_resp resp w)
  conclude method (ok served, w) = w

  unfoldable pub run_deferred : World S → World S
  run_deferred w = record w { store = unlock_all S w.deferred w.store; deferred = [] }

  -- The body of a handler, with the response or error sent and the deferred calls made.
  unfoldable pub handle : Request → H S Reply → World S → World S
  handle r m w = run_deferred (conclude r.method (m w))

  unfoldable pub defer_unlock : Bytes → H S (Unit {0})
  defer_unlock id w = (ok tt, record w { deferred = id ∷ w.deferred })

  -- `if handler.composer.UsesLocker { lock, err := handler.lockUpload(c, id) … defer lock.Unlock() }`
  unfoldable pub lock_upload : Bytes → H S (Unit {0})
  lock_upload id = if S.uses_locker then (call S (S.lock id) >> defer_unlock id) else pure tt

-- The bytes before the first `;` or `"`.
unfoldable pub until_delimiter : Bytes → Bytes
until_delimiter [] = []
until_delimiter (c ∷ s) =
    let rest = until_delimiter s in if c == b';' || c == 34 then [] else c ∷ rest

unfoldable pub skip_quote : Bytes → Bytes
skip_quote [] = []
skip_quote (c ∷ s) = if c == 34 then s else c ∷ s

-- The group of the first match of `host="?([^;"]+)`.
unfoldable pub forwarded_host : Bytes → Option Bytes
forwarded_host [] = none
forwarded_host (c ∷ s) =
    let rest = forwarded_host s in
    let value = until_delimiter (skip_quote (drop 5 (c ∷ s))) in
    if has_prefix (c ∷ s) (codes "host=") && not (is_empty value) then some value else rest

-- The group of the first match of `proto=(https?)`.
unfoldable pub forwarded_proto : Bytes → Option Bytes
forwarded_proto [] = none
forwarded_proto (c ∷ s) =
    let rest = forwarded_proto s in
    if has_prefix (c ∷ s) (codes "proto=https")
    then some (codes "https")
    else if has_prefix (c ∷ s) (codes "proto=http")
    then some (codes "http")
    else rest

-- `strings.TrimSuffix`
unfoldable pub trim_suffix : Bytes → Bytes → Bytes
trim_suffix [] suffix = []
trim_suffix (c ∷ s) suffix =
    let rest = trim_suffix s suffix in if text_eq (c ∷ s) suffix then [] else c ∷ rest

abbrev or_given : Option Bytes → Bytes → Bytes
or_given none old = old
or_given (some new) old = new

unfoldable pub forwarded_origin : Request → Bytes → Bytes → Bytes × Bytes
forwarded_origin r host proto =
    let x_host = get_header r (codes "X-Forwarded-Host") in
    let x_proto = get_header r (codes "X-Forwarded-Proto") in
    let forwarded = get_header r (codes "Forwarded") in
    let host' = if is_empty x_host then host else x_host in
    let proto' =
      if text_eq x_proto (codes "http") || text_eq x_proto (codes "https")
      then x_proto
      else proto in
    (or_given (forwarded_host forwarded) host', or_given (forwarded_proto forwarded) proto')

unfoldable pub without_default_port : Bytes × Bytes → Bytes × Bytes
without_default_port (host, proto) =
    if text_eq proto (codes "http")
    then (trim_suffix host (codes ":80"), proto)
    else if text_eq proto (codes "https")
    then (trim_suffix host (codes ":443"), proto)
    else (host, proto)

unfoldable pub get_host_and_protocol : Request → Bool → Bytes × Bytes
get_host_and_protocol r allow_forwarded =
    let proto = if r.tls then codes "https" else codes "http" in
    if allow_forwarded
    then without_default_port (forwarded_origin r r.host proto)
    else (r.host, proto)

unfoldable pub abs_file_url : Config → Request → Bytes → Bytes
abs_file_url config r id =
    if config.is_abs
    then config.base_path ++ id
    else url (get_host_and_protocol r config.respect_forwarded_headers)
  where
    url : Bytes × Bytes → Bytes
    url (host, proto) = proto ++ (codes "://" ++ (host ++ (config.base_path ++ id)))
