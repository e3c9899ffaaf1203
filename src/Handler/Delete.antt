-- ===== src/Handler/Delete.antt =====
-- `DelFile` of pkg/handler/unrouted_handler.go.
use tusd.Base.{Bool, true, false, ◌||◌, Option, none, some, if◌then◌else◌}
use tusd.Http.{HttpResponse, merge_with, detailed, Result}
use tusd.Http.Errors.{err_not_implemented}
use tusd.DataStore.{StoreComposer, FileInfo, HookEvent}
use tusd.Handler.Request.{Request, new_hook_event}
use tusd.Handler.Config.{Config}
use tusd.Handler.Monad.{World, H, ◌>>=◌, ◌>>◌, pure, call, lift}
use tusd.Handler.Respond.{Reply, send, handle}
use tusd.Handler.Chunk.{terminate_upload}
use tusd.Handler.Post.{require, new_info}
use tusd.Handler.Patch.{no_content}
use tusd.Handler.Read.{open_upload}

abbrev is_given {ℓ} : {A : Type ℓ} → Option A → Bool
is_given none = false
is_given (some a) = true

module _ {S : StoreComposer} where
  -- The info is only fetched where a notification or a hook needs it.
  unfoldable pub info_for_termination : Config → S.Upload → H S (FileInfo × S.Upload)
  info_for_termination config upload =
      if config.notify_terminated_uploads || is_given config.pre_upload_terminate_callback
      then call S (S.get_info upload)
      else pure (new_info, upload)

  unfoldable pub call_pre_terminate :
      Option (HookEvent → Result HttpResponse) → HookEvent → HttpResponse → H S HttpResponse
  call_pre_terminate none event resp = pure resp
  call_pre_terminate (some callback) event resp = do
    resp2 ← lift (callback event)
    pure (merge_with resp resp2)

  unfoldable pub delete_request : Config → Request → H S Reply
  delete_request config r = do
    require S.uses_terminater (detailed err_not_implemented)
    upload ← open_upload r
    (info, upload') ← info_for_termination config upload
    resp ←
        call_pre_terminate config.pre_upload_terminate_callback (new_hook_event r info) no_content
    terminate_upload {S = S} config r upload' info
    pure (send resp)

  unfoldable pub del_file : Config → Request → World S → World S
  del_file config r = handle r (delete_request config r)
