-- ===== src/Hooks/Laws/Counts.antt =====
-- The counters of hooks over any run of invocations.
use tusd.Base.{
  ℕ, ◌+◌, ◌≡◌, refl, ◌∙◌, ap, Bool, true, false, List, [], ◌∷◌, Bytes, Bool-cases, inl, inr,
  text_eq_iff, if◌then◌else◌, text_eq, arith,
}
use tusd.Http.{Result, ok, err}
use tusd.Base.Dict.{Dict, lookup, lookup-insert}
use tusd.Hooks.{
  HookType, HookHandler, HookRequest, HookResponse, HookMetrics, invoke_hook_sync, count_of,
  count_error, add_one, hook_name,
}

count-add_one :
    (type : HookType) (name : Bytes) (counts : Dict ℕ)
    → count_of (lookup name (add_one type counts))
      ≡ count_of (lookup name counts) + (if text_eq (hook_name type) name then 1 else 0)
unfolding add_one
count-add_one type name counts = elim (Bool-cases (text_eq (hook_name type) name)) [
  | inl same ↦ rw (
    lookup-insert (hook_name type) name (count_of (lookup (hook_name type) counts) + 1) counts,
    same,
    (text_eq_iff (hook_name type) name).0 same,
  )
  | inr other ↦
      rw
        (
          lookup-insert (hook_name type) name (count_of (lookup (hook_name type) counts) + 1)
              counts,
          other,
        )
        (omega arith)
]

-- Invocations one after the other.
unfoldable pub invoke_all : HookHandler → List HookRequest → HookMetrics → HookMetrics
invoke_all hooks [] m = m
invoke_all hooks (request ∷ requests) m =
    invoke_all hooks requests (invoke_hook_sync hooks request.type request.event m).1

-- How many of the requests are for the hook of a name, and how many of these the hook handler answers with an error.
unfoldable pub requests_for : Bytes → List HookRequest → ℕ
requests_for name [] = 0
requests_for name (request ∷ requests) =
    (if text_eq (hook_name request.type) name then 1 else 0) + requests_for name requests

unfoldable pub is_error : Result HookResponse → Bool
is_error (ok res) = false
is_error (err e) = true

unfoldable pub failures_for : HookHandler → Bytes → List HookRequest → ℕ
failures_for hooks name [] = 0
failures_for hooks name (request ∷ requests) =
    (if is_error (hooks request)
      then (if text_eq (hook_name request.type) name then 1 else 0)
      else 0)
    + failures_for hooks name requests

-- An error counts as one, and changes no other count.
count_error-invocations :
    (type : HookType) (res : Result HookResponse) (m : HookMetrics)
    → (count_error type res m).invocations_total ≡ m.invocations_total
unfolding count_error
count_error-invocations type (ok res) m = refl
count_error-invocations type (err e) m = refl

count_error-errors :
    (type : HookType) (res : Result HookResponse) (m : HookMetrics) (name : Bytes)
    → count_of (lookup name (count_error type res m).errors_total)
      ≡ count_of (lookup name m.errors_total)
        + (if is_error res then (if text_eq (hook_name type) name then 1 else 0) else 0)
unfolding count_error is_error
count_error-errors type (ok res) m name = omega arith
count_error-errors type (err e) m name = count-add_one type name m.errors_total

invoked :
    (hooks : HookHandler) (request : HookRequest) (name : Bytes) (m : HookMetrics)
    → count_of
        (lookup name (invoke_hook_sync hooks request.type request.event m).1.invocations_total)
      ≡ count_of (lookup name m.invocations_total)
        + (if text_eq (hook_name request.type) name then 1 else 0)
unfolding invoke_hook_sync
invoked hooks request name m =
    ap (λ counts. count_of (lookup name counts))
      (count_error-invocations request.type (hooks request) _)
    ∙ count-add_one request.type name m.invocations_total

failed :
    (hooks : HookHandler) (request : HookRequest) (name : Bytes) (m : HookMetrics)
    → count_of (lookup name (invoke_hook_sync hooks request.type request.event m).1.errors_total)
      ≡ count_of (lookup name m.errors_total)
        + (if is_error (hooks request)
            then (if text_eq (hook_name request.type) name then 1 else 0)
            else 0)
unfolding invoke_hook_sync
failed hooks request name m = count_error-errors request.type (hooks request) _ name

-- After any run of invocations of hooks, each hook counts as many more invocations as the run had for it, and as many more
-- errors as the hook handler answered these with.
pub invoke_all-counts :
    (hooks : HookHandler) (requests : List HookRequest) (m : HookMetrics) (name : Bytes)
    → (count_of (lookup name (invoke_all hooks requests m).invocations_total)
        ≡ count_of (lookup name m.invocations_total) + requests_for name requests)
      × (count_of (lookup name (invoke_all hooks requests m).errors_total)
          ≡ count_of (lookup name m.errors_total) + failures_for hooks name requests)
unfolding invoke_all requests_for failures_for
invoke_all-counts hooks [] m name = (omega arith, omega arith)
invoke_all-counts hooks (request ∷ requests) m name =
    let (more, worse) =
      invoke_all-counts hooks requests (invoke_hook_sync hooks request.type request.event m).1
        name in
    (
      omega (arith, more, invoked hooks request name m),
      omega (arith, worse, failed hooks request name m),
    )
