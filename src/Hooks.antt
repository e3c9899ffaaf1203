-- ===== src/Hooks.antt =====
-- pkg/hooks/hooks.go: the callbacks and notifications of the handler as hooks of one hook handler.
pub mod Laws
use tusd.Base.{
  ℕ, ◌+◌, Bool, true, false, ◌||◌, List, [], ◌∷◌, Option, none, some, Bytes, codes, text_eq, map,
  if◌then◌else◌,
}
use tusd.Base.Dict.{Dict, lookup, insert}
use tusd.Http.{HttpResponse, Error, merge_with, Failure, detailed, Result, ok, err}
use tusd.Http.Errors.{err_upload_rejected_by_server, err_upload_termination_rejected}
use tusd.DataStore.{HookEvent, FileInfoChanges}
use tusd.Handler.Config.{Config}
use tusd.Handler.Monad.{Notification, created, completed, terminated}

pub data HookType : Type 0 where
  post_finish post_terminate post_receive post_create pre_create pre_finish pre_terminate : HookType

unfoldable pub hook_name : HookType → Bytes
hook_name post_finish = codes "post-finish"
hook_name post_terminate = codes "post-terminate"
hook_name post_receive = codes "post-receive"
hook_name post_create = codes "post-create"
hook_name pre_create = codes "pre-create"
hook_name pre_finish = codes "pre-finish"
hook_name pre_terminate = codes "pre-terminate"

-- `AvailableHooks`
unfoldable pub available_hooks : List HookType
available_hooks =
    pre_create ∷ post_create ∷ post_receive ∷ pre_terminate ∷ post_terminate ∷ post_finish
    ∷ pre_finish ∷ []

pub record HookRequest : Type 0 where
  pub type : HookType
  pub event : HookEvent

pub record HookResponse : Type 0 where
  pub http_response : HttpResponse
  pub reject_upload : Bool
  pub reject_termination : Bool
  pub change_file_info : FileInfoChanges
  pub stop_upload : Bool

-- `MetricsHookInvocationsTotal` and `MetricsHookErrorsTotal`, by the names of the hooks.
pub record HookMetrics : Type 0 where
  pub invocations_total : Dict ℕ
  pub errors_total : Dict ℕ

-- `HookHandler`: what each request is answered with.
abbrev pub HookHandler : Type 0
HookHandler = HookRequest → Result HookResponse

abbrev pub count_of : Option ℕ → ℕ
count_of none = 0
count_of (some n) = n

-- `WithLabelValues(typ).Add(1)`
unfoldable pub add_one : HookType → Dict ℕ → Dict ℕ
add_one type counts = insert (hook_name type) (count_of (lookup (hook_name type) counts) + 1) counts

-- `WithLabelValues(typ).Add(0)`
unfoldable pub add_zero : HookType → Dict ℕ → Dict ℕ
add_zero type counts = insert (hook_name type) (count_of (lookup (hook_name type) counts)) counts

unfoldable pub set_up : List HookType → Dict ℕ → Dict ℕ
set_up [] counts = counts
set_up (type ∷ types) counts = set_up types (add_zero type counts)

unfoldable pub setup_hook_metrics : HookMetrics → HookMetrics
setup_hook_metrics m = record {
  invocations_total = set_up set_up_order m.invocations_total;
  errors_total = set_up set_up_order m.errors_total;
}
  where
    set_up_order : List HookType
    set_up_order =
        post_finish ∷ post_terminate ∷ post_receive ∷ post_create ∷ pre_create ∷ pre_finish
        ∷ pre_terminate ∷ []

unfoldable pub count_error : HookType → Result HookResponse → HookMetrics → HookMetrics
count_error type (ok res) m = m
count_error type (err e) m = record m { errors_total = add_one type m.errors_total }

-- `invokeHookSync`, whose `ok` says that there is no error
unfoldable pub invoke_hook_sync :
    HookHandler → HookType → HookEvent → HookMetrics → Result HookResponse × HookMetrics
invoke_hook_sync hooks type event m =
    let res = hooks (record { type = type; event = event }) in
    (res, count_error type res (record m { invocations_total = add_one type m.invocations_total }))

-- An error of the handler, with what the hook has set in its response.
unfoldable pub rejection : Error → HttpResponse → Failure
rejection e res = detailed (record e { http_response = merge_with e.http_response res })

unfoldable pub pre_create_answer : Result HookResponse → Result (HttpResponse × FileInfoChanges)
pre_create_answer (err e) = err e
pre_create_answer (ok res) =
    if res.reject_upload
    then err (rejection err_upload_rejected_by_server res.http_response)
    else ok (res.http_response, res.change_file_info)

unfoldable pub pre_finish_answer : Result HookResponse → Result HttpResponse
pre_finish_answer (err e) = err e
pre_finish_answer (ok res) = ok res.http_response

unfoldable pub pre_terminate_answer : Result HookResponse → Result HttpResponse
pre_terminate_answer (err e) = err e
pre_terminate_answer (ok res) =
    if res.reject_termination
    then err (rejection err_upload_termination_rejected res.http_response)
    else ok res.http_response

-- The response that `StopUpload` is called with, where it is.
unfoldable pub post_receive_answer : Result HookResponse → Option HttpResponse
post_receive_answer (err e) = none
post_receive_answer (ok res) = if res.stop_upload then some res.http_response else none

module _ (hooks : HookHandler) where
  unfoldable pub pre_create_callback :
      HookEvent → HookMetrics → Result (HttpResponse × FileInfoChanges) × HookMetrics
  pre_create_callback event m =
      let (res, m') = invoke_hook_sync hooks pre_create event m in (pre_create_answer res, m')

  unfoldable pub pre_finish_callback : HookEvent → HookMetrics → Result HttpResponse × HookMetrics
  pre_finish_callback event m =
      let (res, m') = invoke_hook_sync hooks pre_finish event m in (pre_finish_answer res, m')

  unfoldable pub pre_terminate_callback :
      HookEvent → HookMetrics → Result HttpResponse × HookMetrics
  pre_terminate_callback event m =
      let (res, m') = invoke_hook_sync hooks pre_terminate event m in (pre_terminate_answer res, m')

  unfoldable pub post_receive_callback : HookEvent → HookMetrics → Option HttpResponse × HookMetrics
  post_receive_callback event m =
      let (res, m') = invoke_hook_sync hooks post_receive event m in (post_receive_answer res, m')

-- `slices.Contains`
unfoldable pub contains : List HookType → HookType → Bool
contains [] type = false
contains (t ∷ enabled) type =
    let rest = contains enabled type in text_eq (hook_name t) (hook_name type) || rest

-- The hook that the event of a notification goes to.
unfoldable pub hook_of : Notification → HookRequest
hook_of (completed event) = record { type = post_finish; event = event }
hook_of (terminated event) = record { type = post_terminate; event = event }
hook_of (created event) = record { type = post_create; event = event }

-- The goroutine that listens for notifications starts a hook for each.
unfoldable pub emitted : List Notification → List HookRequest
emitted [] = []
emitted (n ∷ events) = hook_of n ∷ emitted events

abbrev when : {A : Type 0} → Bool → A → Option A → Option A
when true a old = some a
when false a old = old

-- The configuration that `NewHandlerWithHooks` makes. A callback does not depend on the counts, which it changes.
unfoldable pub with_hooks : HookHandler → List HookType → HookMetrics → Config → Config
with_hooks hooks enabled m config = record config {
  notify_complete_uploads = contains enabled post_finish;
  notify_terminated_uploads = contains enabled post_terminate;
  notify_created_uploads = contains enabled post_create;
  pre_upload_create_callback =
      when (contains enabled pre_create) (λ event. (pre_create_callback hooks event m).0)
        config.pre_upload_create_callback;
  pre_finish_response_callback =
      when (contains enabled pre_finish) (λ event. (pre_finish_callback hooks event m).0)
        config.pre_finish_response_callback;
  pre_upload_terminate_callback =
      when (contains enabled pre_terminate) (λ event. (pre_terminate_callback hooks event m).0)
        config.pre_upload_terminate_callback;
}
