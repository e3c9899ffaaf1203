-- ===== src/Handler/Chunk.antt =====
-- `writeChunk`, `finishUploadIfComplete`, `emitFinishEvents` and `terminateUpload` of
-- pkg/handler/unrouted_handler.go.
pub mod Limit
pub mod Offset
use tusd.Base.{
  ℕ, zero, ◌-◌, ◌^◌, Bool, true, false, not, ◌&&◌, List, [], ◌∷◌, ◌++◌, Option, none, some, Bytes,
  codes, if◌then◌else◌,
}
use tusd.Base.Int.{ℤ, pos, negsuc, ◌+ℤ◌, ◌-ℤ◌, ltb_ℤ, eqb_ℤ, half_range}
use tusd.Base.Dict.{insert}
use tusd.Strconv.{format_int}
use tusd.Http.{HttpResponse, merge_with, Failure, detailed, failure_is, Result, ok, err}
use tusd.Http.Errors.{err_size_exceeded, err_upload_stopped_by_server}
use tusd.BodyReader.{BodyEvent, drain, new_body_reader, has_error}
use tusd.DataStore.{StoreComposer, FileInfo, WriteResult, HookEvent}
use tusd.Handler.Request.{Request, new_hook_event}
use tusd.Handler.Config.{Config}
use tusd.Handler.Monad.{
  completed, terminated, World, H, ◌>>=◌, ◌>>◌, pure, fail, call, attempt, lift, notify,
  modify_metrics, inc_bytes_received, inc_uploads_finished, inc_uploads_terminated,
}

-- The limit that `writeChunk` sets for the body.
unfoldable pub max_body_size : ℤ → FileInfo → ℤ → ℤ
max_body_size config_max info length =
    if ltb_ℤ (pos 0) length
    then length
    else if info.size_is_deferred
    then (if ltb_ℤ (pos 0) config_max then config_max -ℤ info.offset else pos (half_range - 1))
    else info.size -ℤ info.offset

-- `http.MaxBytesReader` takes a negative limit for 0.
unfoldable pub to_limit : ℤ → ℕ
to_limit (pos n) = n
to_limit (negsuc n) = 0

-- The check on `Content-Length`.
unfoldable pub exceeds_size : FileInfo → ℤ → Bool
exceeds_size info length = not info.size_is_deferred && ltb_ℤ info.size (info.offset +ℤ length)

unfoldable pub is_complete : FileInfo → Bool
is_complete info = not info.size_is_deferred && eqb_ℤ info.offset info.size

-- The error of the store comes before that of the body.
unfoldable pub first_error : Option Failure → Option Failure → Option Failure
first_error (some e) body = some e
first_error none body = body

abbrev pub after_write : Option Failure → Result HttpResponse → Result HttpResponse
after_write (some e) finished = err e
after_write none finished = finished

module _ {S : StoreComposer} where
  unfoldable pub call_pre_finish :
      Option (HookEvent → Result HttpResponse) → HookEvent → HttpResponse → H S HttpResponse
  call_pre_finish none event resp = pure resp
  call_pre_finish (some callback) event resp = do
    resp2 ← lift (callback event)
    pure (merge_with resp resp2)

  unfoldable pub emit_finish_events : Config → Request → HttpResponse → FileInfo → H S HttpResponse
  emit_finish_events config r resp info = do
    resp' ← call_pre_finish config.pre_finish_response_callback (new_hook_event r info) resp
    modify_metrics inc_uploads_finished
    notify config.notify_complete_uploads (completed (new_hook_event r info))
    pure resp'

  unfoldable pub finish_upload_if_complete :
      Config → Request → HttpResponse → S.Upload → FileInfo → H S HttpResponse
  finish_upload_if_complete config r resp upload info =
      if is_complete info
      then (do upload' ← call S (S.finish_upload upload); emit_finish_events config r resp info)
      else pure resp

  unfoldable pub terminate_upload : Config → Request → S.Upload → FileInfo → H S (Unit {0})
  terminate_upload config r upload info = do
    call S (S.terminate upload)
    notify config.notify_terminated_uploads (terminated (new_hook_event r info))
    modify_metrics inc_uploads_terminated

  -- An error of this termination is only logged.
  unfoldable pub terminate_if_stopped :
      Config → Request → S.Upload → FileInfo → Option Failure → H S (Unit {0})
  terminate_if_stopped config r upload info body_err =
      if failure_is body_err err_upload_stopped_by_server && S.uses_terminater
      then (do ignored ← attempt (terminate_upload config r upload info); pure tt)
      else pure tt

  unfoldable pub store_chunk : S.Upload → ℤ → List BodyEvent → ℕ → H S (WriteResult S.Upload)
  store_chunk upload offset events limit w =
      let (result, s) =
        S.write_chunk upload offset (drain events false (new_body_reader limit)).0 w.store in
      (ok result, record w { store = s })

  -- The end of `writeChunk`: the new offset, and an attempt to finish whatever error there was. An
  -- error of the chunk comes before one of finishing.
  unfoldable pub finish_chunk :
      Config
      → Request
      → HttpResponse
      → S.Upload
      → FileInfo
      → ℤ
      → Option Failure
      → H S (HttpResponse × S.Upload)
  finish_chunk config r resp upload info bytes_written error = do
    let new_offset = info.offset +ℤ bytes_written
    let resp' = record resp {
      header = insert (codes "Upload-Offset") (format_int new_offset) resp.header;
    }
    modify_metrics (inc_bytes_received bytes_written)
    finished ←
        attempt
          (finish_upload_if_complete config r resp' upload (record info { offset = new_offset }))
    final ← lift (after_write error finished)
    pure (final, upload)

  -- The response, and the upload as the store has left it.
  unfoldable pub write_body :
      Config
      → Request
      → HttpResponse
      → S.Upload
      → FileInfo
      → List BodyEvent
      → H S (HttpResponse × S.Upload)
  write_body config r resp upload info events = do
    let limit = to_limit (max_body_size config.max_size info r.content_length)
    result ← store_chunk upload info.offset events limit
    let body_err = has_error events result.reads limit
    terminate_if_stopped config r result.upload info body_err
    finish_chunk config r resp result.upload info result.bytes_written
        (first_error result.error body_err)

  -- A request without a body only finishes the upload, where it is complete.
  unfoldable pub write_given_body :
      Config
      → Request
      → HttpResponse
      → S.Upload
      → FileInfo
      → Option (List BodyEvent)
      → H S (HttpResponse × S.Upload)
  write_given_body config r resp upload info none =
      finish_chunk config r resp upload info (pos 0) none
  write_given_body config r resp upload info (some events) =
      write_body config r resp upload info events

  unfoldable pub write_chunk :
      Config → Request → HttpResponse → S.Upload → FileInfo → H S (HttpResponse × S.Upload)
  write_chunk config r resp upload info =
      if exceeds_size info r.content_length
      then fail (detailed err_size_exceeded)
      else write_given_body config r resp upload info r.body
