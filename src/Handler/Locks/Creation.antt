-- ===== src/Handler/Locks/Creation.antt =====
-- The creation of uploads keeps account of the locks.
use tusd.Base.{Bool, List, [], ◌∷◌, Option, none, some, Bytes}
use tusd.Base.Int.{ℤ}
use tusd.Http.{HttpResponse, HttpHeader, Result}
use tusd.Ids.{Concat}
use tusd.DataStore.{StoreComposer, FileInfo, FileInfoChanges, HookEvent, MetaData}
use tusd.Handler.Request.{Request}
use tusd.Handler.Config.{Config}
use tusd.Handler.Post.{
  size_of_uploads, Creation, creation_size, call_pre_create, prepare_upload, create_upload,
  announce_upload, concatenate, first_chunk, post_upload,
}
use tusd.Handler.Patch.{complete_deferred}
use tusd.Handler.Read.ContentType.{Mime}
use tusd.Handler.Routes.Draft.{
  meta_from_type, meta_from_disposition, draft_info, send_interim, post_v2_upload,
}
use tusd.Handler.Keeps.{Keeps, Keeps-bind}
use tusd.Handler.Locks.{
  TracksLocks, Balanced, call_rules, Keeps-lock_upload, Keeps-emit_finish_events,
  Keeps-finish_upload_if_complete, Keeps-write_chunk,
}

module _ {S : StoreComposer} (T : TracksLocks S) (base : List Bytes) where
  Keeps-size_of_uploads :
      (ids : List Bytes) (us : List S.Upload) (n : ℤ)
      → Keeps (Balanced T base) (size_of_uploads {S = S} ids us n)
  unfolding size_of_uploads
  Keeps-size_of_uploads [] us n = search call_rules
  Keeps-size_of_uploads (id ∷ ids) us n = search (call_rules, Keeps-size_of_uploads ids)

  Keeps-creation_size :
      (r : Request) (c : Concat) (b : Bool) → Keeps (Balanced T base) (creation_size {S = S} r c b)
  unfolding creation_size
  Keeps-creation_size r c b = search (call_rules, Keeps-size_of_uploads)

  Keeps-call_pre_create :
      (c : Option (HookEvent → Result (HttpResponse × FileInfoChanges))) (r : Request)
      (resp : HttpResponse) (info : FileInfo)
      → Keeps (Balanced T base) (call_pre_create {S = S} c r resp info)
  unfolding call_pre_create
  Keeps-call_pre_create none r resp info = search call_rules
  Keeps-call_pre_create (some callback) r resp info = search call_rules

  Keeps-prepare_upload :
      (config : Config) (r : Request) (b : Bool)
      → Keeps (Balanced T base) (prepare_upload {S = S} config r b)
  unfolding prepare_upload
  Keeps-prepare_upload config r b = search (call_rules, Keeps-creation_size)

  Keeps-create_upload :
      (config : Config) (r : Request) (info : FileInfo)
      → Keeps (Balanced T base) (create_upload {S = S} config r info)
  unfolding create_upload
  Keeps-create_upload config r info = search call_rules

  Keeps-announce_upload :
      (config : Config) (r : Request) (info : FileInfo)
      → Keeps (Balanced T base) (announce_upload {S = S} config r info)
  unfolding announce_upload
  Keeps-announce_upload config r info = search call_rules

  Keeps-concatenate :
      (config : Config) (r : Request) (resp : HttpResponse) (u : S.Upload) (info : FileInfo)
      (c : Creation S.Upload)
      → Keeps (Balanced T base) (concatenate {S = S} config r resp u info c)
  unfolding concatenate
  Keeps-concatenate config r resp u info c = search (call_rules, Keeps-emit_finish_events)

  Keeps-first_chunk :
      (config : Config) (r : Request) (b : Bool) (asked : FileInfo) (resp : HttpResponse)
      (u : S.Upload) (info : FileInfo)
      → Keeps (Balanced T base) (first_chunk {S = S} config r b asked resp u info)
  unfolding first_chunk
  Keeps-first_chunk config r b asked resp u info =
      search (call_rules, Keeps-lock_upload, Keeps-write_chunk, Keeps-finish_upload_if_complete)

  pub Keeps-post_upload :
      (config : Config) (r : Request) → Keeps (Balanced T base) (post_upload {S = S} config r)
  unfolding post_upload
  Keeps-post_upload config r =
      search
        (
          call_rules, Keeps-prepare_upload, Keeps-call_pre_create, Keeps-create_upload,
          Keeps-announce_upload, Keeps-concatenate, Keeps-first_chunk,
        )
        depth 12

  Keeps-meta_from_type :
      (mime : Mime) (r : Request) (meta : MetaData)
      → Keeps (Balanced T base) (meta_from_type {S = S} mime r meta)
  unfolding meta_from_type
  Keeps-meta_from_type mime r meta = search call_rules

  Keeps-meta_from_disposition :
      (mime : Mime) (r : Request) (meta : MetaData)
      → Keeps (Balanced T base) (meta_from_disposition {S = S} mime r meta)
  unfolding meta_from_disposition
  Keeps-meta_from_disposition mime r meta = search call_rules

  Keeps-draft_info :
      (mime : Mime) (r : Request) → Keeps (Balanced T base) (draft_info {S = S} mime r)
  unfolding draft_info
  Keeps-draft_info mime r = search (call_rules, Keeps-meta_from_type, Keeps-meta_from_disposition)

  Keeps-send_interim : (header : HttpHeader) → Keeps (Balanced T base) (send_interim {S = S} header)
  unfolding send_interim
  Keeps-send_interim header = record { at = λ w b. b }

  pub Keeps-complete_deferred :
      (config : Config) (r : Request) (resp : HttpResponse) (u : S.Upload) (info : FileInfo)
      → Keeps (Balanced T base) (complete_deferred {S = S} config r resp u info)
  unfolding complete_deferred
  Keeps-complete_deferred config r resp u info =
      search (call_rules, Keeps-finish_upload_if_complete)

  pub Keeps-post_v2_upload :
      (mime : Mime) (config : Config) (r : Request)
      → Keeps (Balanced T base) (post_v2_upload {S = S} mime config r)
  unfolding post_v2_upload
  Keeps-post_v2_upload mime config r = Keeps-bind _ _ (Keeps-draft_info mime r) (λ asked.
      Keeps-bind _ _ (Keeps-call_pre_create _ _ _ _) (λ x.
        Keeps-bind _ _ (Keeps-create_upload _ _ _) (λ y.
          search
            (
              call_rules, Keeps-send_interim, Keeps-announce_upload, Keeps-lock_upload,
              Keeps-write_chunk, Keeps-complete_deferred,
            )
            depth 14)))
