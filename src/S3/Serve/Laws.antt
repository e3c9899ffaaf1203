-- ===== src/S3/Serve/Laws.antt =====
-- What the answers of `ServeContent` have in common.
use tusd.Base.{
  ℕ, ◌≡◌, refl, Bool, true, false, not, List, [], ◌∷◌, Option, none, some, Bytes, codes, text_eq,
  arith, ◌∙◌,
}
use tusd.Base.Dict.{lookup, insert, erase, lookup-insert, lookup-erase}
use tusd.Http.{HttpHeader}
use tusd.S3.Serve.{
  Served, responded, set_given, not_modified_headers, not_satisfiable_headers, without_content,
  serve_error, serve_content,
}

-- A header that is not among those to set stays as it is.
unfoldable pub Lacks : Bytes → List (Bytes × Option Bytes) → Type 0
Lacks name [] = Unit {0}
Lacks name (value ∷ values) = (text_eq value.0 name ≡ false) × Lacks name values

set_given-Lacks :
    (name : Bytes) (values : List (Bytes × Option Bytes)) (header : HttpHeader)
    → Lacks name values
    → lookup name (set_given values header) ≡ lookup name header
unfolding Lacks set_given
set_given-Lacks name [] header h = refl
set_given-Lacks name ((key, none) ∷ values) header (h, hs) = set_given-Lacks name values header hs
set_given-Lacks name ((key, some value) ∷ values) header (h, hs) =
    set_given-Lacks name values (insert key value header) hs
    ∙ lookup-insert key name value header
    ∙ rw h

without_content-type :
    (header : HttpHeader) → lookup (codes "Content-Type") (without_content header) ≡ none
unfolding without_content codes text_eq
without_content-type header =
    lookup-erase (codes "Content-Disposition") (codes "Content-Type")
      (erase (codes "Content-Type") header)
    ∙ lookup-erase (codes "Content-Type") (codes "Content-Type") header

not_modified_headers-Lacks :
    (response : HttpHeader) → Lacks (codes "Content-Type") (not_modified_headers response)
unfolding Lacks not_modified_headers codes text_eq
not_modified_headers-Lacks response = (refl, (refl, (refl, (refl, (refl, (refl, tt))))))

not_satisfiable_headers-Lacks :
    (response : HttpHeader) → Lacks (codes "Content-Type") (not_satisfiable_headers response)
unfolding Lacks not_satisfiable_headers codes text_eq
not_satisfiable_headers-Lacks response = (refl, tt)

unfoldable pub is_given {ℓ} : {A : Type ℓ} → Option A → Bool
is_given none = false
is_given (some x) = true

-- What an answer without an object leaves: the handler's content type is gone, and the handler gets an error exactly
-- where no status has been written.
unfoldable pub IsErrorAnswer : Served → Type 0
IsErrorAnswer served =
    (lookup (codes "Content-Type") served.header ≡ none)
    × (is_given served.error ≡ not (is_given served.status))

serve_error-IsErrorAnswer :
    (status : ℕ) (response : HttpHeader) (text : Bytes) (header : HttpHeader)
    → lookup (codes "Content-Type") header ≡ none
    → IsErrorAnswer (serve_error status response text header)
unfolding IsErrorAnswer serve_error is_given
serve_error-IsErrorAnswer status response text header h = ground (
  arith,
  h,
  set_given-Lacks (codes "Content-Type") (not_modified_headers response) header
      (not_modified_headers-Lacks response),
  set_given-Lacks (codes "Content-Type") (not_satisfiable_headers response) header
      (not_satisfiable_headers-Lacks response),
)

-- When the service answers a GET request with an error response of any status, the content type that the handler had
-- set for the upload is removed, and `ServeContent` returns an error to the handler exactly where it has not itself
-- written a status.
pub serve_content-IsErrorAnswer :
    (status : ℕ) (response : HttpHeader) (text : Bytes) (header : HttpHeader)
    → IsErrorAnswer (serve_content (responded status response text) header)
unfolding serve_content
serve_content-IsErrorAnswer status response text header =
    serve_error-IsErrorAnswer status response text (without_content header)
      (without_content-type header)
