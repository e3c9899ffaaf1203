-- ===== src/S3/Service.antt =====
-- `S3API`: the calls of the S3 service that the store makes, and how the store tells their errors apart.
use tusd.Base.{ℕ, Bool, ◌||◌, List, Option, Bytes, codes, text_eq}
use tusd.Base.Int.{ℤ}
use tusd.Base.Dict.{Dict}
use tusd.Http.{Failure, other, Result, ok, err}
use tusd.Action.{M}

-- An error of the SDK: which of the types `NoSuchKey`, `NoSuchUpload` and `NotFound` it has, the error code,
-- and the text.
pub record AwsError : Type 0 where
  pub no_such_key : Bool
  pub no_such_upload : Bool
  pub not_found : Bool
  pub code : Bytes
  pub text : Bytes

pub data Aws (A : Type 0) : Type 0 where
  done : A → Aws A
  failed : AwsError → Aws A

-- `s3Part`; the size of a part that was copied is -1.
pub record Part : Type 0 where
  pub number : ℕ
  pub size : ℤ
  pub etag : Bytes

-- One page of `ListParts`.
pub record Page : Type 0 where
  pub parts : List Part
  pub is_truncated : Bool
  pub next_marker : Option ℕ

-- What `DeleteObjects` reports of a key that it could not delete.
pub record KeyError : Type 0 where
  pub code : Bytes
  pub key : Bytes
  pub message : Bytes

-- The service, over a state of its own. The bucket is the same for all calls, and left out.
pub record S3Api : Type 1 where
  pub State : Type 0
  pub put_object : Bytes → Bytes → State → Aws (Unit {0}) × State
  pub get_object : Bytes → State → Aws Bytes × State
  pub head_object : Bytes → State → Aws ℕ × State
  pub delete_object : Bytes → State → Aws (Unit {0}) × State
  pub delete_objects : List Bytes → State → Aws (List KeyError) × State
  pub create_multipart_upload : Bytes → Dict Bytes → Option Bytes → State → Aws Bytes × State
  pub upload_part : Bytes → Bytes → ℕ → Bytes → State → Aws Bytes × State
  pub upload_part_copy : Bytes → Bytes → ℕ → Bytes → State → Aws Bytes × State
  pub list_parts : Bytes → Bytes → Option ℕ → State → Aws Page × State
  pub complete_multipart_upload : Bytes → Bytes → List (Bytes × ℕ) → State → Aws (Unit {0}) × State
  pub abort_multipart_upload : Bytes → Bytes → State → Aws (Unit {0}) × State

-- The error as a Go error of no type that the handler knows.
abbrev pub aws_failure : AwsError → Failure
aws_failure e = other e.text

unfoldable pub or_fail : {A : Type 0} → Aws A → Result A
or_fail (done a) = ok a
or_fail (failed e) = err (aws_failure e)

-- `isAwsErrorCode`
unfoldable pub has_code : AwsError → Bytes → Bool
has_code e code = text_eq e.code code

-- The errors that say that a multipart upload is completed or aborted.
unfoldable pub is_upload_gone : AwsError → Bool
is_upload_gone e =
    e.no_such_upload
    || (has_code e (codes "NoSuchUpload") || (e.no_such_key || has_code e (codes "NoSuchKey")))

-- The errors that say that there is no incomplete part.
unfoldable pub is_part_missing : AwsError → Bool
is_part_missing e =
    e.no_such_key
    || (e.not_found || (has_code e (codes "AccessDenied") || has_code e (codes "Forbidden")))

-- The errors of HEAD and GET that say that there is no such object. `AccessDenied` and `Forbidden` do not: the object may
-- be there, and the caller not be allowed to read it.
unfoldable pub says_missing : AwsError → Bool
says_missing e = e.no_such_key || e.not_found

-- The state of the store: the service, what becomes of the temporary files to come (where the list is at its
-- end, all goes well), and how many random IDs were drawn.
pub record Env (api : S3Api) : Type 0 where
  pub service : api.State
  pub disk : List (Option Failure)
  pub uids : ℕ

module _ (api : S3Api) where
  -- A call with its errors as a value.
  abbrev pub try_call : {A : Type 0} → (api.State → Aws A × api.State) → M (Env api) (Aws A)
  try_call f env = let (r, s) = f env.service in (ok r, record env { service = s })

  -- A call whose error ends the caller.
  abbrev pub call : {A : Type 0} → (api.State → Aws A × api.State) → M (Env api) A
  call f env = let (r, s) = f env.service in (or_fail r, record env { service = s })
