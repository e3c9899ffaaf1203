-- ===== src/Handler/Routes.antt =====
-- The router of pkg/handler/handler.go.
pub mod Middleware
pub mod Draft
use tusd.Base.{
  ℕ, Bool, true, false, not, ◌&&◌, List, [], ◌∷◌, ◌++◌, Bytes, codes, text_eq, is_empty,
  if◌then◌else◌,
}
use tusd.Base.Dict.{insert}
use tusd.Http.{HttpResponse}
use tusd.Ids.{trim, is_slash}
use tusd.DataStore.{StoreComposer}
use tusd.Handler.Request.{Request, uses_ietf_draft}
use tusd.Handler.Config.{Config}
use tusd.Handler.Monad.{Output, response, World}
use tusd.Handler.Post.{post_file}
use tusd.Handler.Patch.{patch_file}
use tusd.Handler.Read.{head_file, get_file}
use tusd.Handler.Read.ContentType.{Mime}
use tusd.Handler.Delete.{del_file}
use Middleware.{middleware}
use Draft.{post_file_v2}

module _ {S : StoreComposer} where
  -- `405 method not allowed`, with the methods that are
  unfoldable pub method_not_allowed : Bytes → World S → World S
  method_not_allowed allowed w =
      let header = insert (codes "Allow") allowed w.header in
      record w {
        header = header;
        output =
            w.output
            ++ (response
                  (record { status_code = 405; body = codes "method not allowed"; header = header })
                ∷ []);
      }

  -- `PostFile` hands requests of the draft to `PostFileV2`.
  unfoldable pub post_any : Mime → Config → Request → World S → World S
  post_any mime config r =
      if uses_ietf_draft config.enable_experimental_protocol r
      then post_file_v2 mime config r
      else post_file config r

  -- `mux`
  unfoldable pub route : Mime → Config → Request → World S → World S
  route mime config r =
      if is_empty (trim is_slash r.path)
      then (if text_eq r.method (codes "POST")
          then post_any mime config r
          else method_not_allowed (codes "POST"))
      else if text_eq r.method (codes "HEAD")
      then head_file config r
      else if text_eq r.method (codes "PATCH")
      then patch_file config r
      else if text_eq r.method (codes "GET") && not config.disable_download
      then get_file mime r
      else if text_eq r.method (codes "DELETE")
          && (S.uses_terminater && not config.disable_termination)
      then del_file config r
      else method_not_allowed (codes "GET, HEAD, PATCH, DELETE")

  unfoldable pub serve : Mime → Config → Request → World S → World S
  serve mime config r = middleware config r (route mime config)
