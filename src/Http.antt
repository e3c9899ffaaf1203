-- ===== src/Http.antt =====
-- pkg/handler/http.go and pkg/handler/error.go: responses, and errors that carry one.
pub mod Errors
pub mod Merge
use mathlib.Core.Option
use tusd.Base.{
  ℕ, Bool, true, false, ◌&&◌, List, [], ◌∷◌, ◌++◌, Option, none, some, Bytes, codes, text_eq,
  is_empty, ◌==◌, if◌then◌else◌, length,
}
use tusd.Base.Dict.{Dict, lookup, insert, copy_into}
use tusd.Strconv.{format_nat}

abbrev pub HttpHeader : Type 0
HttpHeader = Dict Bytes

-- A nil header map and an empty one are the same to every reader of the struct.
pub record HttpResponse : Type 0 where
  pub status_code : ℕ
  pub body : Bytes
  pub header : HttpHeader

-- Non-default values of the second response overwrite those of the first.
unfoldable pub merge_with : HttpResponse → HttpResponse → HttpResponse
merge_with resp1 resp2 = record {
  status_code = if resp2.status_code == 0 then resp1.status_code else resp2.status_code;
  body = if is_empty resp2.body then resp1.body else resp2.body;
  header = copy_into (copy_into [] resp1.header) resp2.header;
}

-- What `writeTo` sends through a writer whose header map is already `sent`.
unfoldable pub write_to : HttpResponse → HttpHeader → HttpResponse
write_to resp sent =
    let headers = copy_into sent resp.header in
    record {
      status_code = resp.status_code;
      body = resp.body;
      header =
          if is_empty resp.body
          then headers
          else insert (codes "Content-Length") (format_nat (length resp.body)) headers;
    }

pub record Error : Type 0 where
  pub error_code : Bytes
  pub message : Bytes
  pub http_response : HttpResponse

unfoldable pub new_error : Bytes → Bytes → ℕ → Error
new_error code message status = record {
  error_code = code;
  message = message;
  http_response = record {
    status_code = status;
    body = code ++ (codes ": " ++ (message ++ codes "\n"));
    header = (codes "Content-Type", codes "text/plain; charset=utf-8") ∷ [];
  };
}

-- `Error.Is`: two errors match when their codes do.
unfoldable pub error_is : Error → Error → Bool
error_is e1 e2 = text_eq e1.error_code e2.error_code

-- A Go `error`: one of the handler's own, or any other, known by its text.
pub data Failure : Type 0 where
  detailed : Error → Failure
  other : Bytes → Failure

-- `errors.Is(err, target)` for a target of the handler's own; nil matches nothing.
unfoldable pub failure_is : Option Failure → Error → Bool
unfolding error_is
failure_is none target = false
failure_is (some (other text)) target = false
failure_is (some (detailed e)) target = error_is e target

-- The value and the error that a Go function returns.
pub data Result {ℓ} (A : Type ℓ) : Type ℓ where
  ok : A → Result A
  err : Failure → Result A
