-- ===== src/Handler/Locks/Release.antt =====
-- A request gives back every lock that it has taken.
use tusd.Base.{
  Bool, true, false, ◌||◌, List, [], ◌∷◌, ◌++◌, Option, none, some, ◌≡◌, refl, sym, ◌∙◌, ap, Bytes,
  codes, text_eq, is_empty, if◌then◌else◌,
}
use tusd.Http.Errors.{err_unsupported_version, err_origin_not_allowed}
use tusd.Http.{HttpHeader, Failure, detailed, Result, ok, err}
use tusd.DataStore.{StoreComposer, Stream}
use tusd.Handler.Request.{Request, get_header}
use tusd.Handler.Config.{Config}
use tusd.Handler.Monad.{World, H}
use tusd.Handler.Respond.{
  Reply, send, send_and_copy, served, send_resp, send_error, copy_out, end_copy, conclude,
  run_deferred, unlock_all, handle,
}
use tusd.Handler.Post.{post_file}
use tusd.Handler.Patch.{patch_file}
use tusd.Handler.Read.{head_file, get_file}
use tusd.Handler.Read.ContentType.{Mime}
use tusd.Handler.Delete.{del_file}
use tusd.Handler.Routes.{method_not_allowed, post_any, route, serve}
use tusd.Handler.Routes.Draft.{post_file_v2}
use tusd.Handler.Routes.Middleware.{
  dispatch, cors_headers, protocol_headers, has_supported_version, check_origin, middleware,
  override_method,
}
use tusd.Handler.Keeps.{Keeps}
use tusd.Handler.Locks.{TracksLocks, Balanced}
use tusd.Handler.Locks.Creation.{Keeps-post_upload, Keeps-post_v2_upload}
use tusd.Handler.Locks.Requests.{
  Keeps-patch_request, Keeps-head_request, Keeps-get_request, Keeps-delete_request,
}

module _ {S : StoreComposer} (T : TracksLocks S) where
  held-unlock_all :
      (ids base : List Bytes) (s : S.State)
      → T.held s ≡ ids ++ base
      → T.held (unlock_all S ids s) ≡ base
  unfolding unlock_all
  held-unlock_all [] base s h = h
  held-unlock_all (id ∷ ids) base s h =
      held-unlock_all ids base _ (T.held-unlock id (ids ++ base) s h)

module _ {S : StoreComposer} (T : TracksLocks S) (base : List Bytes) where
  send_resp-Balanced :
      (resp : tusd.Http.HttpResponse) (w : World S)
      → Balanced T base w
      → Balanced T base (send_resp resp w)
  unfolding send_resp
  send_resp-Balanced resp w b = b

  send_error-Balanced :
      (m : Bytes) (e : Failure) (w : World S)
      → Balanced T base w
      → Balanced T base (send_error m e w)
  unfolding send_error send_resp
  send_error-Balanced m e w b = b

  end_copy-Balanced :
      (m : Bytes) (e : Option Failure) (w : World S)
      → Balanced T base w
      → Balanced T base (end_copy m e w)
  unfolding end_copy
  end_copy-Balanced m none w b = b
  end_copy-Balanced m (some e) w b = send_error-Balanced m e w b

  copy_out-Balanced :
      (m : Bytes) (src : Stream) (w : World S)
      → Balanced T base w
      → Balanced T base (copy_out m src w)
  unfolding copy_out
  copy_out-Balanced m src w b = end_copy-Balanced m src.error _ b

  conclude-Balanced :
      (m : Bytes) (r : Result Reply) (w : World S)
      → Balanced T base w
      → Balanced T base (conclude m (r, w))
  unfolding conclude
  conclude-Balanced m (err e) w b = send_error-Balanced m e w b
  conclude-Balanced m (ok (send resp)) w b = send_resp-Balanced resp w b
  conclude-Balanced m (ok (send_and_copy resp src)) w b =
      copy_out-Balanced m src _ (send_resp-Balanced resp w b)
  conclude-Balanced m (ok served) w b = b

  -- Nothing is deferred, and only the locks of others are held.
  record Released (w : World S) : Type 0 where
    none_deferred : w.deferred ≡ []
    held_same : T.held w.store ≡ base

  Released-header :
      {w : World S} (header : HttpHeader) → Released w → Released (record w { header = header })
  Released-header header h = record { none_deferred = h.none_deferred; held_same = h.held_same }

  Released-if : (b : Bool) (v w : World S) → Released v → Released w → Released (if b then v else w)
  Released-if true v w rv rw = rv
  Released-if false v w rv rw = rw

  record Releases (f : World S → World S) : Type 0 where
    at : (w : World S) → Released w → Released (f w)

  Releases-if :
      (b : Bool) (f g : World S → World S) → Releases f → Releases g → Releases (if b then f else g)
  Releases-if true f g rf rg = rf
  Releases-if false f g rf rg = rg

  Releases-handle :
      (r : Request) (m : H S Reply) → Keeps (Balanced T base) m → Releases (handle r m)
  unfolding handle run_deferred
  Releases-handle r m k = record {
    at = λ w h. record {
      none_deferred = refl;
      held_same = held-unlock_all T _ base _ (
          conclude-Balanced r.method _ _
            (k.at w (h.held_same ∙ ap (λ ids. ids ++ base) (sym h.none_deferred))));
    };
  }

  Releases-send_error : (m : Bytes) (e : Failure) → Releases (send_error m e)
  unfolding send_error send_resp
  Releases-send_error m e = record {
    at = λ w h. record { none_deferred = h.none_deferred; held_same = h.held_same };
  }

  Releases-method_not_allowed : (allowed : Bytes) → Releases (method_not_allowed allowed)
  unfolding method_not_allowed
  Releases-method_not_allowed allowed = record {
    at = λ w h. record { none_deferred = h.none_deferred; held_same = h.held_same };
  }

  Releases-post_any :
      (mime : Mime) (config : Config) (r : Request) → Releases (post_any mime config r)
  unfolding post_any post_file post_file_v2
  Releases-post_any mime config r =
      search (Releases-if, Releases-handle, Keeps-post_upload, Keeps-post_v2_upload)

  Releases-route : (mime : Mime) (config : Config) (r : Request) → Releases (route mime config r)
  unfolding route head_file patch_file get_file del_file
  Releases-route mime config r =
      search
        (
          Releases-if, Releases-handle, Releases-post_any, Releases-method_not_allowed,
          Keeps-head_request, Keeps-patch_request, Keeps-get_request, Keeps-delete_request,
        )
        depth 10

  Released-dispatch :
      (config : Config) (r : Request) (next : Request → World S → World S) (w : World S)
      → ((r : Request) → Releases (next r))
      → Released w
      → Released (dispatch config r next w)
  unfolding dispatch send_resp
  Released-dispatch config r next w k h =
      Released-if (text_eq r.method (codes "OPTIONS")) _ _
        (record { none_deferred = h.none_deferred; held_same = h.held_same })
        (Released-if (has_supported_version config r) _ _ ((k r).at _ served_headers)
          ((Releases-send_error r.method (detailed err_unsupported_version)).at _ served_headers))
    where
      served_headers : Released (record w { header = protocol_headers config r w.header })
      served_headers = Released-header _ h

  Released-check_origin :
      (config : Config) (r : Request) (next : Request → World S → World S) (w : World S)
      → ((r : Request) → Releases (next r))
      → Released w
      → Released (check_origin config r next w)
  unfolding check_origin
  Released-check_origin config r next w k h =
      Released-if (config.cors.disable || is_empty (get_header r (codes "Origin"))) _ _
        (Released-dispatch config r next w k h)
        (Released-if (config.cors.allow_origin (get_header r (codes "Origin"))) _ _
          (Released-dispatch config r next _ k (
            Released-header
              (cors_headers config.cors r.method (get_header r (codes "Origin")) w.header) h))
          ((Releases-send_error r.method (detailed err_origin_not_allowed)).at w h))

-- A request that starts with no deferred call leaves exactly the locks held that were held before it,
-- whatever the method, the hooks, the store and the locker do, for any locker and store that track the
-- locks.
pub held-serve :
    {S : StoreComposer} (T : TracksLocks S) (mime : Mime) (config : Config) (r : Request)
    (w : World S)
    → w.deferred ≡ []
    → T.held (serve mime config r w).store ≡ T.held w.store
unfolding serve middleware
held-serve T mime config r w d =
    (Released-check_origin T (T.held w.store) config (override_method r) (route mime config) _
      (Releases-route T (T.held w.store) mime config)
      (record { none_deferred = d; held_same = refl })).held_same
