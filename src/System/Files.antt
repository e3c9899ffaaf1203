-- ===== src/System/Files.antt =====
-- What the handlers leave as it is: the data file of an upload, once it is written.
use tusd.Base.{Bool, true, false, Option, none, some, ◌≡◌, Bytes}
use tusd.Base.Int.{ℤ}
use tusd.Base.Dict.{lookup}
use tusd.Http.{HttpResponse, HttpHeader, Failure, Result}
use tusd.DataStore.{FileInfo, StoreComposer, HookEvent}
use tusd.FileStore.{Platform, FileUpload, stored_bin_path, finish_upload}
use tusd.FileStore.Os.{Fs}
use tusd.FileStore.Composer.{file_composer}
use tusd.Handler.Request.{Request}
use tusd.Handler.Config.{Config}
use tusd.Handler.Monad.{World, call, Notification, notify, Metrics, modify_metrics}
use tusd.Handler.Chunk.{
  call_pre_finish, emit_finish_events, finish_upload_if_complete, finish_chunk,
}
use tusd.Handler.Patch.{complete_deferred}
use tusd.Handler.Keeps.{Keeps-if_and, Keeps, keeps_rules, Keeps-pure}

module _ (os : Platform) (path : Bytes) (serve_file : Bytes → HttpHeader → Fs → HttpResponse) where
  abbrev pub S : StoreComposer
  S = file_composer os path serve_file

module _ (os : Platform) (path : Bytes) (serve_file : Bytes → HttpHeader → Fs → HttpResponse)
    (info : FileInfo) (bytes : Bytes) where
  -- The data file of the upload has these bytes.
  abbrev pub Holds : World (S os path serve_file) → Type 0
  Holds w = lookup (stored_bin_path os path info) w.store.fs.files ≡ some bytes

module _ (os : Platform) (path : Bytes) (serve_file : Bytes → HttpHeader → Fs → HttpResponse)
    (info : FileInfo) (config : Config) (r : Request) (bytes : Bytes) where
  Holds-finish_upload :
      (u : FileUpload)
      → Keeps
          (Holds os path serve_file info bytes)
          (call (S os path serve_file) ((S os path serve_file).finish_upload u))
  unfolding call finish_upload
  Holds-finish_upload u = record { at = λ w h. h }

  Holds-notify :
      (enabled : Bool) (n : Notification)
      → Keeps (Holds os path serve_file info bytes) (notify {S = S os path serve_file} enabled n)
  unfolding notify
  Holds-notify true n = record { at = λ w h. h }
  Holds-notify false n = record { at = λ w h. h }

  Holds-modify_metrics :
      (f : Metrics → Metrics)
      → Keeps (Holds os path serve_file info bytes) (modify_metrics {S = S os path serve_file} f)
  unfolding modify_metrics
  Holds-modify_metrics f = record { at = λ w h. h }

  Holds-call_pre_finish :
      (c : Option (HookEvent → Result HttpResponse)) (e : HookEvent) (resp : HttpResponse)
      → Keeps
          (Holds os path serve_file info bytes)
          (call_pre_finish {S = S os path serve_file} c e resp)
  unfolding call_pre_finish
  Holds-call_pre_finish none e resp = search keeps_rules
  Holds-call_pre_finish (some callback) e resp = search keeps_rules

  Holds-emit_finish_events :
      (resp : HttpResponse) (i : FileInfo)
      → Keeps
          (Holds os path serve_file info bytes)
          (emit_finish_events {S = S os path serve_file} config r resp i)
  unfolding emit_finish_events
  Holds-emit_finish_events resp i =
      search (keeps_rules, Holds-call_pre_finish, Holds-notify, Holds-modify_metrics)

  Holds-finish_upload_if_complete :
      (resp : HttpResponse) (u : FileUpload) (i : FileInfo)
      → Keeps
          (Holds os path serve_file info bytes)
          (finish_upload_if_complete {S = S os path serve_file} config r resp u i)
  unfolding finish_upload_if_complete
  Holds-finish_upload_if_complete resp u i =
      search (keeps_rules, Holds-finish_upload, Holds-emit_finish_events)

  pub Holds-finish_chunk :
      (resp : HttpResponse) (u : FileUpload) (i : FileInfo) (n : ℤ) (e : Option Failure)
      → Keeps
          (Holds os path serve_file info bytes)
          (finish_chunk {S = S os path serve_file} config r resp u i n e)
  unfolding finish_chunk
  Holds-finish_chunk resp u i n e =
      search (keeps_rules, Holds-modify_metrics, Holds-finish_upload_if_complete)

  pub Holds-complete_deferred :
      (resp : HttpResponse) (u : FileUpload) (i : FileInfo)
      → i.size_is_deferred ≡ false
      → Keeps
          (Holds os path serve_file info bytes)
          (complete_deferred {S = S os path serve_file} config r resp u i)
  unfolding complete_deferred
  Holds-complete_deferred resp u i known =
      Keeps-if_and _ i.size_is_deferred _ _ known (Keeps-pure resp)
