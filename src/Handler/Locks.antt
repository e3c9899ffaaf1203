-- ===== src/Handler/Locks.antt =====
-- Every handler gives back the locks that it has taken, on every path.
mod Creation
mod Requests
pub mod Release
use tusd.Base.{
  ℕ, Bool, true, false, List, [], ◌∷◌, ◌++◌, Option, none, some, ◌≡◌, refl, sym, ◌∙◌, ap, Bytes,
  arith, if◌then◌else◌, Option-cases, inl, inr, ◌⊎◌,
}
use tusd.Base.Int.{ℤ}
use tusd.Http.{HttpResponse, HttpHeader, Failure, Result, ok, err}
use tusd.BodyReader.{BodyEvent}
use tusd.Ids.{Concat}
use tusd.DataStore.{StoreComposer, FileInfo, HookEvent, FileInfoChanges}
use tusd.Handler.Request.{Request}
use tusd.Handler.Config.{Config}
use tusd.Handler.Monad.{
  World, H, ◌>>=◌, ◌>>◌, pure, fail, lift, call, attempt, Notification, notify, Metrics,
  modify_metrics,
}
use tusd.Handler.Respond.{
  Reply, handle, conclude, send_resp, send_error, copy_out, run_deferred, unlock_all, lock_upload,
  defer_unlock,
}
use tusd.Handler.Chunk.{
  call_pre_finish, emit_finish_events, finish_upload_if_complete, terminate_upload,
  terminate_if_stopped, store_chunk, finish_chunk, write_body, write_given_body, write_chunk,
}
use tusd.Handler.Keeps.{Keeps, keeps_rules, Keeps-if, Keeps-pure}

-- What a locker and a store do to the locks that are held: the store leaves them alone.
pub record TracksLocks (S : StoreComposer) : Type 0 where
  pub held : S.State → List Bytes
  pub held-new_upload : (i : FileInfo) (s : S.State) → held (S.new_upload i s).1 ≡ held s
  pub held-get_upload : (id : Bytes) (s : S.State) → held (S.get_upload id s).1 ≡ held s
  pub held-get_info : (u : S.Upload) (s : S.State) → held (S.get_info u s).1 ≡ held s
  pub held-write_chunk :
      (u : S.Upload) (o : ℤ) (src : List Bytes) (s : S.State)
      → held (S.write_chunk u o src s).1 ≡ held s
  pub held-get_reader : (u : S.Upload) (s : S.State) → held (S.get_reader u s).1 ≡ held s
  pub held-finish_upload : (u : S.Upload) (s : S.State) → held (S.finish_upload u s).1 ≡ held s
  pub held-terminate : (u : S.Upload) (s : S.State) → held (S.terminate u s).1 ≡ held s
  pub held-concat_uploads :
      (u : S.Upload) (us : List S.Upload) (s : S.State) → held (S.concat_uploads u us s).1 ≡ held s
  pub held-declare_length :
      (u : S.Upload) (n : ℤ) (s : S.State) → held (S.declare_length u n s).1 ≡ held s
  pub held-serve_content :
      (u : S.Upload) (h : HttpHeader) (s : S.State) → held (S.serve_content u h s).1 ≡ held s
  pub held-lock :
      (id : Bytes) (s : S.State)
      → (((S.lock id s).0 ≡ ok tt) × (held (S.lock id s).1 ≡ id ∷ held s))
        ⊎ ((e : Failure) × ((S.lock id s).0 ≡ err e) × (held (S.lock id s).1 ≡ held s))
  pub held-unlock :
      (id : Bytes) (ids : List Bytes) (s : S.State) → held s ≡ id ∷ ids → held (S.unlock id s) ≡ ids

module _ {S : StoreComposer} (T : TracksLocks S) (base : List Bytes) where
  -- The locks held are those of others, and those whose release is deferred.
  abbrev pub Balanced : World S → Type 0
  Balanced w = T.held w.store ≡ w.deferred ++ base

  Keeps-call :
      {A : Type 0} (f : S.State → Result A × S.State)
      → ((s : S.State) → T.held (f s).1 ≡ T.held s)
      → Keeps Balanced (call S f)
  unfolding call
  Keeps-call f h = record { at = λ w b. h w.store ∙ b }

  pub Keeps-call-new_upload : (i : FileInfo) → Keeps Balanced (call S (S.new_upload i))
  Keeps-call-new_upload i = Keeps-call _ (T.held-new_upload i)

  pub Keeps-call-get_upload : (id : Bytes) → Keeps Balanced (call S (S.get_upload id))
  Keeps-call-get_upload id = Keeps-call _ (T.held-get_upload id)

  pub Keeps-call-get_info : (u : S.Upload) → Keeps Balanced (call S (S.get_info u))
  Keeps-call-get_info u = Keeps-call _ (T.held-get_info u)

  pub Keeps-call-get_reader : (u : S.Upload) → Keeps Balanced (call S (S.get_reader u))
  Keeps-call-get_reader u = Keeps-call _ (T.held-get_reader u)

  pub Keeps-call-finish_upload : (u : S.Upload) → Keeps Balanced (call S (S.finish_upload u))
  Keeps-call-finish_upload u = Keeps-call _ (T.held-finish_upload u)

  pub Keeps-call-terminate : (u : S.Upload) → Keeps Balanced (call S (S.terminate u))
  Keeps-call-terminate u = Keeps-call _ (T.held-terminate u)

  pub Keeps-call-concat_uploads :
      (u : S.Upload) (us : List S.Upload) → Keeps Balanced (call S (S.concat_uploads u us))
  Keeps-call-concat_uploads u us = Keeps-call _ (T.held-concat_uploads u us)

  pub Keeps-call-declare_length :
      (u : S.Upload) (n : ℤ) → Keeps Balanced (call S (S.declare_length u n))
  Keeps-call-declare_length u n = Keeps-call _ (T.held-declare_length u n)

  pub Keeps-notify : (enabled : Bool) (n : Notification) → Keeps Balanced (notify enabled n)
  unfolding notify
  Keeps-notify true n = record { at = λ w b. b }
  Keeps-notify false n = record { at = λ w b. b }

  pub Keeps-modify_metrics : (f : Metrics → Metrics) → Keeps Balanced (modify_metrics f)
  unfolding modify_metrics
  Keeps-modify_metrics f = record { at = λ w b. b }

  pub Keeps-store_chunk :
      (u : S.Upload) (o : ℤ) (events : List BodyEvent) (limit : ℕ)
      → Keeps Balanced (store_chunk {S = S} u o events limit)
  unfolding store_chunk
  Keeps-store_chunk u o events limit = record { at = λ w b. T.held-write_chunk u o _ w.store ∙ b }

  locked :
      (id : Bytes) (w : World S)
      → Balanced w
      → Balanced ((call S (S.lock id) >> defer_unlock id) w).1
  unfolding call defer_unlock ◌>>◌
  locked id w b = elim (T.held-lock id w.store) [
    | inl (yes', e) ↦ rw yes' (e ∙ ap (λ l. id ∷ l) b)
    | inr (f, no', e) ↦ rw no' (e ∙ b)
  ]

  Keeps-locked : (id : Bytes) → Keeps Balanced (call S (S.lock id) >> defer_unlock id)
  Keeps-locked id = record { at = locked id }

  pub Keeps-lock_upload : (id : Bytes) → Keeps Balanced (lock_upload {S = S} id)
  unfolding lock_upload
  Keeps-lock_upload id = Keeps-if S.uses_locker _ _ (Keeps-locked id) (Keeps-pure tt)

  pub ruleset call_rules = (
    keeps_rules, Keeps-notify, Keeps-modify_metrics, Keeps-store_chunk, Keeps-call-new_upload,
    Keeps-call-get_upload, Keeps-call-get_info, Keeps-call-get_reader, Keeps-call-finish_upload,
    Keeps-call-terminate, Keeps-call-concat_uploads, Keeps-call-declare_length,
  )

  pub Keeps-call_pre_finish :
      (c : Option (HookEvent → Result HttpResponse)) (e : HookEvent) (resp : HttpResponse)
      → Keeps Balanced (call_pre_finish {S = S} c e resp)
  unfolding call_pre_finish
  Keeps-call_pre_finish none e resp = search call_rules
  Keeps-call_pre_finish (some callback) e resp = search call_rules

  pub Keeps-emit_finish_events :
      (config : Config) (r : Request) (resp : HttpResponse) (info : FileInfo)
      → Keeps Balanced (emit_finish_events {S = S} config r resp info)
  unfolding emit_finish_events
  Keeps-emit_finish_events config r resp info = search (call_rules, Keeps-call_pre_finish)

  pub Keeps-finish_upload_if_complete :
      (config : Config) (r : Request) (resp : HttpResponse) (u : S.Upload) (info : FileInfo)
      → Keeps Balanced (finish_upload_if_complete {S = S} config r resp u info)
  unfolding finish_upload_if_complete
  Keeps-finish_upload_if_complete config r resp u info =
      search (call_rules, Keeps-emit_finish_events)

  pub Keeps-terminate_upload :
      (config : Config) (r : Request) (u : S.Upload) (info : FileInfo)
      → Keeps Balanced (terminate_upload {S = S} config r u info)
  unfolding terminate_upload
  Keeps-terminate_upload config r u info = search call_rules

  Keeps-terminate_if_stopped :
      (config : Config) (r : Request) (u : S.Upload) (info : FileInfo) (e : Option Failure)
      → Keeps Balanced (terminate_if_stopped {S = S} config r u info e)
  unfolding terminate_if_stopped
  Keeps-terminate_if_stopped config r u info e = search (call_rules, Keeps-terminate_upload)

  Keeps-finish_chunk :
      (config : Config) (r : Request) (resp : HttpResponse) (u : S.Upload) (info : FileInfo) (n : ℤ)
      (e : Option Failure)
      → Keeps Balanced (finish_chunk {S = S} config r resp u info n e)
  unfolding finish_chunk
  Keeps-finish_chunk config r resp u info n e = search (call_rules, Keeps-finish_upload_if_complete)

  Keeps-write_body :
      (config : Config) (r : Request) (resp : HttpResponse) (u : S.Upload) (info : FileInfo)
      (events : List BodyEvent)
      → Keeps Balanced (write_body {S = S} config r resp u info events)
  unfolding write_body
  Keeps-write_body config r resp u info events =
      search (call_rules, Keeps-terminate_if_stopped, Keeps-finish_chunk)

  Keeps-write_given_body :
      (config : Config) (r : Request) (resp : HttpResponse) (u : S.Upload) (info : FileInfo)
      (body : Option (List BodyEvent))
      → Keeps Balanced (write_given_body {S = S} config r resp u info body)
  unfolding write_given_body
  Keeps-write_given_body config r resp u info none = search (call_rules, Keeps-finish_chunk)
  Keeps-write_given_body config r resp u info (some events) = search (call_rules, Keeps-write_body)

  pub Keeps-write_chunk :
      (config : Config) (r : Request) (resp : HttpResponse) (u : S.Upload) (info : FileInfo)
      → Keeps Balanced (write_chunk {S = S} config r resp u info)
  unfolding write_chunk
  Keeps-write_chunk config r resp u info = search (call_rules, Keeps-write_given_body)
