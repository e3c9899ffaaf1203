-- ===== src/Handler/Config.antt =====
-- pkg/handler/config.go: the options that the handlers read.
use tusd.Base.{Bool, [], ◌∷◌, ◌++◌, Option, Bytes, codes, not, ◌&&◌, ◌==◌, is_empty, if◌then◌else◌}
use tusd.Base.Int.{ℤ}
use tusd.Ids.{has_slash_suffix}
use tusd.Http.{HttpResponse, Result}
use tusd.DataStore.{HookEvent, FileInfoChanges}

-- `AllowOrigin` is a regular expression: its matches are a function.
pub record CorsConfig : Type 0 where
  pub disable : Bool
  pub allow_origin : Bytes → Bool
  pub allow_credentials : Bool
  pub allow_methods : Bytes
  pub allow_headers : Bytes
  pub max_age : Bytes
  pub expose_headers : Bytes

-- The timeouts, the logger and the progress notifications are left out.
pub record Config : Type 0 where
  pub max_size : ℤ
  pub base_path : Bytes
  pub is_abs : Bool
  pub enable_experimental_protocol : Bool
  pub disable_download : Bool
  pub disable_termination : Bool
  pub disable_concatenation : Bool
  pub cors : CorsConfig
  pub notify_complete_uploads : Bool
  pub notify_terminated_uploads : Bool
  pub notify_created_uploads : Bool
  pub respect_forwarded_headers : Bool
  pub pre_upload_create_callback : Option (HookEvent → Result (HttpResponse × FileInfoChanges))
  pub pre_finish_response_callback : Option (HookEvent → Result HttpResponse)
  pub pre_upload_terminate_callback : Option (HookEvent → Result HttpResponse)

-- The part of `validate` that completes the base path; `url.Parse` says whether it is absolute.
unfoldable pub with_slash_suffix : Bytes → Bytes
with_slash_suffix base =
    if not (is_empty base) && not (has_slash_suffix base) then base ++ codes "/" else base

unfoldable pub with_slash_prefix : Bytes → Bytes
with_slash_prefix [] = []
with_slash_prefix (c ∷ base) = if c == b'/' then c ∷ base else b'/' ∷ (c ∷ base)

unfoldable pub validate_base_path : Bool → Bytes → Bytes
validate_base_path is_abs base =
    if is_abs then with_slash_suffix base else with_slash_prefix (with_slash_suffix base)
