-- ===== src/Handler/Locks/Requests.antt =====
-- PATCH, HEAD, GET and DELETE keep account of the locks.
use tusd.Base.{List, Option, none, some, Bytes, ◌∙◌}
use tusd.Base.Int.{ℤ}
use tusd.Http.{HttpResponse, HttpHeader, Result}
use tusd.DataStore.{StoreComposer, FileInfo, HookEvent}
use tusd.Handler.Request.{Request}
use tusd.Handler.Config.{Config}
use tusd.Handler.Patch.{declare_from_header, append_chunk, patch_upload, patch_request}
use tusd.Handler.Read.{open_upload, head_request, serve_content, read_content, get_request}
use tusd.Handler.Read.ContentType.{Mime}
use tusd.Handler.Delete.{info_for_termination, call_pre_terminate, delete_request}
use tusd.Handler.Keeps.{Keeps, Keeps-bind, Keeps-then, Keeps-require}
use tusd.Handler.Locks.{
  TracksLocks, Balanced, call_rules, Keeps-lock_upload, Keeps-terminate_upload, Keeps-write_chunk,
}
use tusd.Handler.Locks.Creation.{Keeps-complete_deferred}

module _ {S : StoreComposer} (T : TracksLocks S) (base : List Bytes) where
  Keeps-declare_from_header :
      (config : Config) (r : Request) (u : S.Upload) (info : FileInfo)
      → Keeps (Balanced T base) (declare_from_header {S = S} config r u info)
  unfolding declare_from_header
  Keeps-declare_from_header config r u info = search call_rules depth 8

  Keeps-append_chunk :
      (config : Config) (r : Request) (u : S.Upload) (info : FileInfo)
      → Keeps (Balanced T base) (append_chunk {S = S} config r u info)
  unfolding append_chunk
  Keeps-append_chunk config r u info =
      search (call_rules, Keeps-declare_from_header, Keeps-write_chunk, Keeps-complete_deferred)

  Keeps-patch_upload :
      (config : Config) (r : Request) (id : Bytes) (o : ℤ)
      → Keeps (Balanced T base) (patch_upload {S = S} config r id o)
  unfolding patch_upload
  Keeps-patch_upload config r id o = search (call_rules, Keeps-append_chunk) depth 8

  pub Keeps-patch_request :
      (config : Config) (r : Request) → Keeps (Balanced T base) (patch_request {S = S} config r)
  unfolding patch_request
  Keeps-patch_request config r = search (call_rules, Keeps-lock_upload, Keeps-patch_upload) depth 8

  Keeps-open_upload : (r : Request) → Keeps (Balanced T base) (open_upload {S = S} r)
  unfolding open_upload
  Keeps-open_upload r = search (call_rules, Keeps-lock_upload)

  pub Keeps-head_request :
      (config : Config) (r : Request) → Keeps (Balanced T base) (head_request {S = S} config r)
  unfolding head_request
  Keeps-head_request config r = search (call_rules, Keeps-open_upload)

  Keeps-serve_content :
      (u : S.Upload) (h : HttpHeader) → Keeps (Balanced T base) (serve_content {S = S} u h)
  unfolding serve_content
  Keeps-serve_content u h = record { at = λ w b. T.held-serve_content u _ w.store ∙ b }

  Keeps-read_content :
      (u : S.Upload) (info : FileInfo) (h : HttpHeader)
      → Keeps (Balanced T base) (read_content {S = S} u info h)
  unfolding read_content
  Keeps-read_content u info h = search call_rules

  pub Keeps-get_request :
      (mime : Mime) (r : Request) → Keeps (Balanced T base) (get_request {S = S} mime r)
  unfolding get_request
  Keeps-get_request mime r =
      search (call_rules, Keeps-open_upload, Keeps-serve_content, Keeps-read_content) depth 8

  Keeps-info_for_termination :
      (config : Config) (u : S.Upload)
      → Keeps (Balanced T base) (info_for_termination {S = S} config u)
  unfolding info_for_termination
  Keeps-info_for_termination config u = search call_rules

  Keeps-call_pre_terminate :
      (c : Option (HookEvent → Result HttpResponse)) (e : HookEvent) (resp : HttpResponse)
      → Keeps (Balanced T base) (call_pre_terminate {S = S} c e resp)
  unfolding call_pre_terminate
  Keeps-call_pre_terminate none e resp = search call_rules
  Keeps-call_pre_terminate (some callback) e resp = search call_rules

  pub Keeps-delete_request :
      (config : Config) (r : Request) → Keeps (Balanced T base) (delete_request {S = S} config r)
  unfolding delete_request
  Keeps-delete_request config r = Keeps-then _ _ (Keeps-require _ _) (
      Keeps-bind _ _ (Keeps-open_upload r) (λ u.
        Keeps-bind _ _ (Keeps-info_for_termination config u)
          (λ x. search (call_rules, Keeps-call_pre_terminate, Keeps-terminate_upload) depth 8)))
