-- ===== src/Handler/Chunk/Offset.antt =====
-- The response of a chunk that is written without an error.
use tusd.Base.{◌&&◌, Bool, true, false, Option, none, some, ◌≡◌, refl, codes, if◌then◌else◌, arith}
use tusd.Base.Int.{ℤ, ◌+ℤ◌}
use tusd.Base.Dict.{insert}
use tusd.Strconv.{format_int}
use tusd.Http.{HttpResponse, Result, ok}
use tusd.DataStore.{StoreComposer, FileInfo, HookEvent}
use tusd.Handler.Request.{Request, new_hook_event}
use tusd.Handler.Config.{Config}
use tusd.Handler.Monad.{World, H, ◌>>=◌, ◌>>◌, pure, call, attempt, lift, notify, modify_metrics}
use tusd.Handler.Chunk.{
  call_pre_finish, emit_finish_events, finish_upload_if_complete, finish_chunk, is_complete,
}

call_pre_finish-none :
    {S : StoreComposer} (c : Option (HookEvent → Result HttpResponse)) (e : HookEvent)
    (resp : HttpResponse)
    → c ≡ none
    → call_pre_finish {S = S} c e resp ≡ pure resp
unfolding call_pre_finish
call_pre_finish-none none e resp h = refl
call_pre_finish-none (some callback) e resp h = absurd (grind arith)

pub if_ok :
    {S : StoreComposer} {A : Type 0} (b : Bool) (m : H S A) (a : A) (w : World S)
    → (m w).0 ≡ ok a
    → ((if b then m else pure a) w).0 ≡ ok a
unfolding pure
if_ok true m a w h = h
if_ok false m a w h = refl

pub if_and-ok :
    {S : StoreComposer} {A : Type 0} (b c : Bool) (m : H S A) (a : A) (w : World S)
    → c ≡ false
    → ((if b && c then m else pure a) w).0 ≡ ok a
unfolding pure
if_and-ok true true m a w h = absurd (grind arith)
if_and-ok true false m a w h = refl
if_and-ok false c m a w h = refl

module _ {S : StoreComposer} (config : Config) (r : Request)
    (finishes : (u : S.Upload) (s : S.State) → (S.finish_upload u s).0 ≡ ok u)
    (no_hook : config.pre_finish_response_callback ≡ none) where
  emit_finish_events-ok :
      (resp : HttpResponse) (i : FileInfo) (w : World S)
      → (emit_finish_events {S = S} config r resp i w).0 ≡ ok resp
  unfolding emit_finish_events ◌>>=◌ ◌>>◌ notify modify_metrics pure
  emit_finish_events-ok resp i w =
      rw
        (call_pre_finish-none {S = S} config.pre_finish_response_callback (new_hook_event r i) resp
          no_hook)
        refl

  finish_upload_if_complete-ok :
      (resp : HttpResponse) (u : S.Upload) (i : FileInfo) (w : World S)
      → (finish_upload_if_complete {S = S} config r resp u i w).0 ≡ ok resp
  unfolding finish_upload_if_complete ◌>>=◌ call pure
  finish_upload_if_complete-ok resp u i w =
      if_ok (is_complete i)
        (call S (S.finish_upload u) >>= λ u'. emit_finish_events {S = S} config r resp i) resp w
        (rw (finishes u w.store) (emit_finish_events-ok resp i _))

  pub finish_chunk-ok :
      (resp : HttpResponse) (u : S.Upload) (i : FileInfo) (n : ℤ) (w : World S)
      → (finish_chunk {S = S} config r resp u i n none w).0
        ≡ ok (
          record resp {
            header = insert (codes "Upload-Offset") (format_int (i.offset +ℤ n)) resp.header;
          },
          u,
        )
  unfolding finish_chunk ◌>>=◌ ◌>>◌ modify_metrics attempt lift pure
  finish_chunk-ok resp u i n w = rw (finish_upload_if_complete-ok _ u _ _) refl
