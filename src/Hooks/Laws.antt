-- ===== src/Hooks/Laws.antt =====
-- Hooks that reject requests, with the handlers of pkg/handler/unrouted_handler.go.
pub mod Counts
use tusd.Base.{
  ◌≡◌, refl, Bool, true, false, List, [], ◌∷◌, Bytes, ◌||◌, ◌⊎◌, inl, inr, text_eq, codes, ap, ◌∙◌,
  sym,
}
use tusd.Base.Int.{ℤ}
use tusd.Http.Errors.{err_not_implemented}
use tusd.Http.{HttpResponse, detailed, Failure, Result, ok, err}
use tusd.Ids.{Concat}
use tusd.DataStore.{StoreComposer, FileInfo, HookEvent}
use tusd.Handler.Config.{Config}
use tusd.Handler.Request.{Request, get_header, new_hook_event}
use tusd.Handler.Monad.{World, H, and_then, ◌>>=◌, ◌>>◌, pure, lift, call}
use tusd.Handler.Respond.{Reply, lock_upload, defer_unlock}
use tusd.Handler.Post.{
  Creation, initial_response, creation_size, size_of_uploads, prepare_upload, call_pre_create,
  post_upload, octet_stream,
}
use tusd.Handler.Read.{open_upload}
use tusd.Handler.Delete.{call_pre_terminate, info_for_termination, delete_request}
use tusd.Handler.Keeps.{Keeps, keeps_rules, Keeps-require}
use tusd.Hooks.{
  HookType, HookHandler, HookResponse, HookMetrics, pre_create, pre_terminate, invoke_hook_sync,
  pre_create_answer, pre_create_callback, pre_terminate_answer, pre_terminate_callback, contains,
  with_hooks,
}

-- What the calls that a handler makes before a hook keep: the reads of a store, and its lock.
pub record ReadsKeep (S : StoreComposer) (P : S.State → Type 0) : Type 0 where
  pub get_upload : (id : Bytes) (s : S.State) → P s → P (S.get_upload id s).1
  pub get_info : (u : S.Upload) (s : S.State) → P s → P (S.get_info u s).1
  pub lock : (id : Bytes) (s : S.State) → P s → P (S.lock id s).1

-- A hook that fails rejects, too.
unfoldable pub rejects_upload : Result HookResponse → Bool
rejects_upload (err e) = true
rejects_upload (ok res) = res.reject_upload

unfoldable pub rejects_termination : Result HookResponse → Bool
rejects_termination (err e) = true
rejects_termination (ok res) = res.reject_termination

pre_create_answer-rejected :
    (res : Result HookResponse)
    → rejects_upload res ≡ true
    → (e : Failure) × (pre_create_answer res ≡ err e)
unfolding rejects_upload pre_create_answer
pre_create_answer-rejected (err e) h = (e, refl)
pre_create_answer-rejected (ok res) h = rw h (_, refl)

pre_terminate_answer-rejected :
    (res : Result HookResponse)
    → rejects_termination res ≡ true
    → (e : Failure) × (pre_terminate_answer res ≡ err e)
unfolding rejects_termination pre_terminate_answer
pre_terminate_answer-rejected (err e) h = (e, refl)
pre_terminate_answer-rejected (ok res) h = rw h (_, refl)

module _ {S : StoreComposer} {P : S.State → Type 0} (reads : ReadsKeep S P) where
  -- `P` holds of the store.
  abbrev Kept : World S → Type 0
  Kept w = P w.store

  Keeps-get_upload : (id : Bytes) → Keeps Kept (call S (S.get_upload id))
  unfolding call
  Keeps-get_upload id = record { at = λ w h. reads.get_upload id w.store h }

  Keeps-get_info : (u : S.Upload) → Keeps Kept (call S (S.get_info u))
  unfolding call
  Keeps-get_info u = record { at = λ w h. reads.get_info u w.store h }

  Keeps-lock : (id : Bytes) → Keeps Kept (call S (S.lock id))
  unfolding call
  Keeps-lock id = record { at = λ w h. reads.lock id w.store h }

  Keeps-defer_unlock : (id : Bytes) → Keeps Kept (defer_unlock id)
  unfolding defer_unlock
  Keeps-defer_unlock id = record { at = λ w h. h }

  ruleset read_rules =
      (keeps_rules, Keeps-get_upload, Keeps-get_info, Keeps-lock, Keeps-defer_unlock)

  Keeps-size_of_uploads :
      (ids : List Bytes) (us : List S.Upload) (n : ℤ)
      → Keeps Kept (size_of_uploads {S = S} ids us n)
  unfolding size_of_uploads
  Keeps-size_of_uploads [] us n = search read_rules
  Keeps-size_of_uploads (id ∷ ids) us n = search (read_rules, Keeps-size_of_uploads ids)

  Keeps-creation_size :
      (r : Request) (c : Concat) (b : Bool) → Keeps Kept (creation_size {S = S} r c b)
  unfolding creation_size
  Keeps-creation_size r c b = search (read_rules, Keeps-size_of_uploads)

  Keeps-prepare_upload :
      (config : Config) (r : Request) (b : Bool) → Keeps Kept (prepare_upload {S = S} config r b)
  unfolding prepare_upload
  Keeps-prepare_upload config r b = search (read_rules, Keeps-creation_size)

  Keeps-open_upload : (r : Request) → Keeps Kept (open_upload {S = S} r)
  unfolding open_upload lock_upload
  Keeps-open_upload r = search read_rules

  Keeps-info_for_termination :
      (config : Config) (u : S.Upload) → Keeps Kept (info_for_termination {S = S} config u)
  unfolding info_for_termination
  Keeps-info_for_termination config u = search read_rules

  -- The request ends with an error, and `P` still holds of the store.
  pub record Refused {A : Type 0} (q : Result A × World S) : Type 0 where
    pub kept : P q.1.store
    pub failed : (e : Failure) × (q.0 ≡ err e)

  Refused-and_then :
      {A B : Type 0} (q : Result A × World S) (f : A → H S B)
      → Kept q.1
      → ((a : A) (w : World S) → Kept w → Refused (f a w))
      → Refused (and_then q f)
  Refused-and_then (ok a, w) f h k = k a w h
  Refused-and_then (err e, w) f h k = record { kept = h; failed = (e, refl) }

  Refused-bind :
      {A B : Type 0} (m : H S A) (f : A → H S B) (w : World S)
      → Keeps Kept m
      → Kept w
      → ((a : A) (w : World S) → Kept w → Refused (f a w))
      → Refused ((m >>= f) w)
  unfolding ◌>>=◌
  Refused-bind m f w km h k = Refused-and_then (m w) f (km.at w h) k

  Refused-stopped :
      {A B : Type 0} (q : Result A × World S) (f : A → H S B) (w : World S) (e : Failure)
      → q ≡ (err e, w)
      → Kept w
      → Refused (and_then q f)
  Refused-stopped q f w e same h = rw same (record { kept = h; failed = (e, refl) })

  module _ (hooks : HookHandler) (enabled : List HookType) (m : HookMetrics) (config : Config) where
    call_pre_create-rejected :
        (r : Request) (resp : HttpResponse) (info : FileInfo) (w : World S)
        → contains enabled pre_create ≡ true
        → ((event : HookEvent)
            → rejects_upload (hooks (record { type = pre_create; event = event })) ≡ true)
        → (e : Failure) × (call_pre_create {S = S}
              (with_hooks hooks enabled m config).pre_upload_create_callback
              r
              resp
              info
              w
            ≡ (err e, w))
    unfolding with_hooks pre_create_callback invoke_hook_sync call_pre_create ◌>>=◌ lift
    call_pre_create-rejected r resp info w on rejects =
        let (e, answer) = pre_create_answer-rejected _ (rejects (new_hook_event r info)) in
        rw (on, answer) (e, refl)

    -- Where the pre-create hook is enabled and rejects, or fails for, each upload, `PostFile` ends with an error, and makes
    -- no call of the store but reads: each property of the store that `GetUpload`, `GetInfo` and `Lock` keep still holds.
    pub post_upload-rejected :
        (r : Request) (w : World S)
        → contains enabled pre_create ≡ true
        → ((event : HookEvent)
            → rejects_upload (hooks (record { type = pre_create; event = event })) ≡ true)
        → P w.store
        → Refused (post_upload (with_hooks hooks enabled m config) r w)
    unfolding post_upload
    post_upload-rejected r w on rejects h =
        Refused-bind _ _ w (Keeps-prepare_upload (with_hooks hooks enabled m config) r _) h
          (λ creation w1 h1.
            let (e, same) =
              call_pre_create-rejected r initial_response creation.info w1 on rejects in
            unfold ◌>>=◌ in Refused-stopped _ _ w1 e same h1)

    call_pre_terminate-rejected :
        (event : HookEvent) (resp : HttpResponse) (w : World S)
        → contains enabled pre_terminate ≡ true
        → ((event : HookEvent)
            → rejects_termination (hooks (record { type = pre_terminate; event = event })) ≡ true)
        → (e : Failure) × (call_pre_terminate {S = S}
              (with_hooks hooks enabled m config).pre_upload_terminate_callback
              event
              resp
              w
            ≡ (err e, w))
    unfolding with_hooks pre_terminate_callback invoke_hook_sync call_pre_terminate ◌>>=◌ lift
    call_pre_terminate-rejected event resp w on rejects =
        let (e, answer) = pre_terminate_answer-rejected _ (rejects event) in
        rw (on, answer) (e, refl)

    -- Where the pre-terminate hook is enabled and rejects, or fails for, each termination, `DelFile` ends with an error,
    -- and makes no call of the store but reads: each property of the store that `GetUpload`, `GetInfo` and `Lock` keep
    -- still holds.
    pub delete_request-rejected :
        (r : Request) (w : World S)
        → contains enabled pre_terminate ≡ true
        → ((event : HookEvent)
            → rejects_termination (hooks (record { type = pre_terminate; event = event })) ≡ true)
        → P w.store
        → Refused (delete_request (with_hooks hooks enabled m config) r w)
    unfolding delete_request ◌>>◌
    delete_request-rejected r w on rejects h =
        Refused-bind _ _ w (Keeps-require S.uses_terminater (detailed err_not_implemented)) h
          (λ _ w1 h1. Refused-bind _ _ w1 (Keeps-open_upload r) h1 (λ upload w2 h2.
            Refused-bind _ _ w2
              (Keeps-info_for_termination (with_hooks hooks enabled m config) upload) h2
              (λ (info, upload') w3 h3.
                let (e, same) =
                  call_pre_terminate-rejected (new_hook_event r info) _ w3 on rejects in
                unfold ◌>>=◌ in Refused-stopped _ _ w3 e same h3)))
