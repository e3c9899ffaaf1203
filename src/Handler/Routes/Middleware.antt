-- ===== src/Handler/Routes/Middleware.antt =====
-- `Middleware` of pkg/handler/unrouted_handler.go: method override, CORS, OPTIONS and the version check.
use tusd.Base.{Bool, not, ◌&&◌, ◌||◌, [], ◌++◌, Bytes, codes, text_eq, is_empty, if◌then◌else◌}
use tusd.Base.Int.{pos, ltb_ℤ}
use tusd.Base.Dict.{insert}
use tusd.Strconv.{format_int}
use tusd.Http.{HttpHeader, detailed}
use tusd.Http.Errors.{err_origin_not_allowed, err_unsupported_version}
use tusd.DataStore.{StoreComposer}
use tusd.Handler.Request.{Request, get_header, uses_ietf_draft}
use tusd.Handler.Config.{Config, CorsConfig}
use tusd.Handler.Monad.{World, inc_requests_total}
use tusd.Handler.Respond.{send_resp, send_error}

-- Header fields have the canonical names of net/http.
unfoldable pub override_method : Request → Request
override_method r =
    let new_method = get_header r (codes "X-Http-Method-Override") in
    if text_eq r.method (codes "POST") && not (is_empty new_method)
    then record r { method = new_method }
    else r

-- The CORS headers for an allowed origin.
unfoldable pub cors_headers : CorsConfig → Bytes → Bytes → HttpHeader → HttpHeader
cors_headers cors method origin header =
    if text_eq method (codes "OPTIONS")
    then insert (codes "Access-Control-Max-Age") cors.max_age (
        insert (codes "Access-Control-Allow-Headers") cors.allow_headers
          (insert (codes "Access-Control-Allow-Methods") cors.allow_methods allowed))
    else insert (codes "Access-Control-Expose-Headers") cors.expose_headers allowed
  where
    with_origin : HttpHeader
    with_origin =
        insert (codes "Vary") (codes "Origin")
          (insert (codes "Access-Control-Allow-Origin") origin header)

    allowed : HttpHeader
    allowed =
        if cors.allow_credentials
        then insert (codes "Access-Control-Allow-Credentials") (codes "true") with_origin
        else with_origin

unfoldable pub protocol_headers : Config → Request → HttpHeader → HttpHeader
protocol_headers config r header = insert (codes "X-Content-Type-Options") (codes "nosniff") (
    if uses_ietf_draft config.enable_experimental_protocol r
    then header
    else insert (codes "Tus-Resumable") (codes "1.0.0") header)

-- `NewUnroutedHandler`: the extensions that are promoted.
unfoldable pub extensions : StoreComposer → Config → Bytes
extensions S config =
    codes "creation,creation-with-upload"
    ++ ((if S.uses_terminater && not config.disable_termination then codes ",termination" else [])
        ++ ((if S.uses_concater && not config.disable_concatenation
              then codes ",concatenation"
              else [])
            ++ (if S.uses_length_deferrer then codes ",creation-defer-length" else [])))

unfoldable pub options_headers : StoreComposer → Config → Request → HttpHeader → HttpHeader
options_headers S config r header = insert (codes "Tus-Extension") (extensions S config) (
    insert (codes "Tus-Version") (codes "1.0.0") (
      if uses_ietf_draft config.enable_experimental_protocol r
      then insert (codes "Upload-Limit") limits with_size
      else with_size))
  where
    limited : Bool
    limited = ltb_ℤ (pos 0) config.max_size

    with_size : HttpHeader
    with_size =
        if limited
        then insert (codes "Tus-Max-Size") (format_int config.max_size) header
        else header

    limits : Bytes
    limits =
        if limited
        then codes "min-size=0" ++ (codes ",max-size=" ++ format_int config.max_size)
        else codes "min-size=0"

-- Neither GET nor HEAD needs the header, and no draft request does.
unfoldable pub has_supported_version : Config → Request → Bool
has_supported_version config r =
    text_eq r.method (codes "GET")
    || (text_eq r.method (codes "HEAD")
        || (text_eq (get_header r (codes "Tus-Resumable")) (codes "1.0.0")
            || uses_ietf_draft config.enable_experimental_protocol r))

module _ {S : StoreComposer} where
  -- What follows the CORS checks.
  unfoldable pub dispatch : Config → Request → (Request → World S → World S) → World S → World S
  dispatch config r next w =
      let w' = record w { header = protocol_headers config r w.header } in
      if text_eq r.method (codes "OPTIONS")
      then send_resp (record { status_code = 200; body = []; header = [] })
          (record w' { header = options_headers S config r w'.header })
      else if has_supported_version config r
      then next r w'
      else send_error r.method (detailed err_unsupported_version) w'

  unfoldable pub check_origin : Config → Request → (Request → World S → World S) → World S → World S
  check_origin config r next w =
      let origin = get_header r (codes "Origin") in
      let cors = config.cors in
      if cors.disable || is_empty origin
      then dispatch config r next w
      else if cors.allow_origin origin
      then dispatch config r next (record w { header = cors_headers cors r.method origin w.header })
      else send_error r.method (detailed err_origin_not_allowed) w

  unfoldable pub middleware : Config → Request → (Request → World S → World S) → World S → World S
  middleware config request next w =
      let r = override_method request in
      check_origin config r next (record w { metrics = inc_requests_total r.method w.metrics })
