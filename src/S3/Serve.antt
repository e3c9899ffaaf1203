-- ===== src/S3/Serve.antt =====
-- `ServeContent` of pkg/s3store/serve_content.go: GET requests that the service answers.
pub mod Laws
use tusd.Base.{
  ℕ, ◌≡◌, refl, Bool, true, false, ◌||◌, not, List, [], ◌∷◌, Option, none, some, Bytes, codes,
  text_eq, is_empty, ◌==◌, if◌then◌else◌, arith, ◌∙◌,
}
use tusd.Base.Int.{ℤ, pos, eqb_ℤ}
use tusd.Base.Dict.{lookup, insert, erase, lookup-insert, lookup-erase}
use tusd.Strconv.{format_int}
use tusd.Http.{HttpHeader, Failure, other}
use tusd.S3.Finish.{err_incomplete_upload}

-- The conditions of `GetObjectInput`; times are as `http.ParseTime` makes them.
pub record ServeInput : Type 0 where
  pub range : Option Bytes
  pub if_match : Option Bytes
  pub if_none_match : Option Bytes
  pub if_modified_since : Option Bytes
  pub if_unmodified_since : Option Bytes

-- `GetObjectOutput`; `last_modified` is formatted, and `copy_error` is what ends the copy of the body.
pub record ObjectOutput : Type 0 where
  pub accept_ranges : Option Bytes
  pub content_disposition : Option Bytes
  pub content_encoding : Option Bytes
  pub content_language : Option Bytes
  pub content_length : Option ℤ
  pub content_range : Option Bytes
  pub content_type : Option Bytes
  pub cache_control : Option Bytes
  pub etag : Option Bytes
  pub expires : Option Bytes
  pub last_modified : Option Bytes
  pub body : Bytes
  pub copy_error : Option Failure

-- The answer of the service: an object, an error with a response, or one without.
pub data ServeAnswer : Type 0 where
  object : ObjectOutput → ServeAnswer
  responded : ℕ → HttpHeader → Bytes → ServeAnswer
  unanswered : Bytes → ServeAnswer

-- What `ServeContent` has done with the response writer, and its error; no status is written where it leaves that to
-- the handler.
pub record Served : Type 0 where
  pub header : HttpHeader
  pub status : Option ℕ
  pub body : Bytes
  pub error : Option Failure

abbrev text_or_empty : Option Bytes → Bytes
text_or_empty none = []
text_or_empty (some s) = s

unfoldable pub given : Bytes → Option Bytes
given value = if is_empty value then none else some value

unfoldable pub parsed : (Bytes → Option Bytes) → Bytes → Option Bytes
parsed parse_time value = if is_empty value then none else parse_time value

-- The request's conditions that are forwarded; `parse_time` is `http.ParseTime`.
unfoldable pub serve_input : (Bytes → Option Bytes) → HttpHeader → ServeInput
serve_input parse_time request = record {
  range = given (text_or_empty (lookup (codes "Range") request));
  if_match = given (text_or_empty (lookup (codes "If-Match") request));
  if_none_match = given (text_or_empty (lookup (codes "If-None-Match") request));
  if_modified_since =
      parsed parse_time (text_or_empty (lookup (codes "If-Modified-Since") request));
  if_unmodified_since =
      parsed parse_time (text_or_empty (lookup (codes "If-Unmodified-Since") request));
}

-- The headers that are there are set, in their order.
unfoldable pub set_given : List (Bytes × Option Bytes) → HttpHeader → HttpHeader
set_given [] header = header
set_given ((name, none) ∷ values) header = set_given values header
set_given ((name, some value) ∷ values) header = set_given values (insert name value header)

abbrev length_text : Option ℤ → Option Bytes
length_text none = none
length_text (some n) = some (format_int n)

unfoldable pub object_headers : ObjectOutput → List (Bytes × Option Bytes)
object_headers out =
    (codes "Accept-Ranges", out.accept_ranges)
    ∷ (codes "Content-Disposition", out.content_disposition)
    ∷ (codes "Content-Encoding", out.content_encoding)
    ∷ (codes "Content-Language", out.content_language)
    ∷ (codes "Content-Length", length_text out.content_length)
    ∷ (codes "Content-Range", out.content_range)
    ∷ (codes "Content-Type", out.content_type)
    ∷ (codes "Cache-Control", out.cache_control)
    ∷ (codes "Etag", out.etag)
    ∷ (codes "Expires", out.expires)
    ∷ (codes "Last-Modified", out.last_modified)
    ∷ []

unfoldable pub is_zero : Option ℤ → Bool
is_zero none = false
is_zero (some n) = eqb_ℤ n (pos 0)

unfoldable pub status_code : Option Bytes → Option ℤ → ℕ
status_code (some range) length = 206
status_code none length = if is_zero length then 204 else 200

-- The headers of a 304 response that are passed on.
unfoldable pub not_modified_headers : HttpHeader → List (Bytes × Option Bytes)
not_modified_headers response =
    (codes "Content-Location", given (text_or_empty (lookup (codes "Content-Location") response)))
    ∷ (codes "Date", given (text_or_empty (lookup (codes "Date") response)))
    ∷ (codes "Etag", given (text_or_empty (lookup (codes "Etag") response)))
    ∷ (codes "Vary", given (text_or_empty (lookup (codes "Vary") response)))
    ∷ (codes "Cache-Control", given (text_or_empty (lookup (codes "Cache-Control") response)))
    ∷ (codes "Expires", given (text_or_empty (lookup (codes "Expires") response)))
    ∷ []

unfoldable pub not_satisfiable_headers : HttpHeader → List (Bytes × Option Bytes)
not_satisfiable_headers response =
    (codes "Content-Range", given (text_or_empty (lookup (codes "Content-Range") response))) ∷ []

-- The headers that the handler has set for the content go.
unfoldable pub without_content : HttpHeader → HttpHeader
without_content header = erase (codes "Content-Disposition") (erase (codes "Content-Type") header)

unfoldable pub serve_error : ℕ → HttpHeader → Bytes → HttpHeader → Served
serve_error status response text header =
    if status == 404 || status == 403
    then record { header = header; status = none; body = []; error = some err_incomplete_upload }
    else if status == 304
    then record {
      header = set_given (not_modified_headers response) header;
      status = some 304;
      body = [];
      error = none;
    }
    else if status == 416
    then record {
      header = set_given (not_satisfiable_headers response) header;
      status = some 416;
      body = [];
      error = none;
    }
    else record { header = header; status = none; body = []; error = some (other text) }

-- `header` is `w.Header()` as the handler has left it.
unfoldable pub serve_content : ServeAnswer → HttpHeader → Served
serve_content (object out) header = record {
  header = set_given (object_headers out) header;
  status = some (status_code out.content_range out.content_length);
  body = out.body;
  error = out.copy_error;
}
serve_content (responded status response text) header =
    serve_error status response text (without_content header)
serve_content (unanswered text) header = record {
  header = without_content header;
  status = none;
  body = [];
  error = some (other text);
}
