-- ===== src/Tests/Hooks.antt =====
-- Requests that a hook rejects, and the counters of a run of hooks.
use tusd.Base.{List, ◌+◌, ℕ, ◌≡◌, refl, true, false, [], ◌∷◌, none, Bytes, codes, text_eq}
use tusd.Base.Dict.{lookup}
use tusd.Base.Int.{pos}
use tusd.Http.{HttpResponse, ok, err, other}
use tusd.DataStore.{StoreComposer, HookEvent}
use tusd.Handler.Request.{Request, new_hook_event}
use tusd.Handler.Monad.{World}
use tusd.Handler.Post.{post_upload, new_info}
use tusd.Handler.Config.{Config}
use tusd.Handler.Delete.{delete_request}
use tusd.Hooks.{
  HookHandler, HookResponse, HookRequest, HookMetrics, pre_create, pre_terminate, contains,
  hook_name, with_hooks, count_of,
}
use tusd.Hooks.Laws.{
  ReadsKeep, Refused, rejects_upload, rejects_termination, post_upload-rejected,
  delete_request-rejected,
}
use tusd.Hooks.Laws.Counts.{invoke_all, requests_for, failures_for, invoke_all-counts}
use tusd.Tests.Requests.{sample_composer, sample_world, sample_config, sample_request}

abbrev forbidden : HttpResponse
forbidden = record { status_code = 403; body = codes "no"; header = [] }

abbrev refusal : HookResponse
refusal = record {
  http_response = forbidden;
  reject_upload = true;
  reject_termination = true;
  change_file_info = record { id = []; meta_data = none; storage = none };
  stop_upload = false;
}

abbrev refusing : HookHandler
refusing request = ok refusal

abbrev no_counts : HookMetrics
no_counts = record { invocations_total = []; errors_total = [] }

abbrev hooked_config : Config
hooked_config = with_hooks refusing (pre_create ∷ pre_terminate ∷ []) no_counts sample_config

abbrev create_request : Request
create_request = record sample_request {
  method = codes "POST";
  header = (codes "Upload-Length", codes "5") ∷ [];
}

sample_enabled : contains (pre_create ∷ pre_terminate ∷ []) pre_create ≡ true
unfolding contains hook_name codes text_eq
sample_enabled = refl

-- A store that has every upload, with no data; its state is the number of uploads that were made or removed.
abbrev full_store : StoreComposer
full_store = record sample_composer {
  State = ℕ;
  Upload = Bytes;
  new_upload = λ info s. (ok info.id, s + 1);
  get_upload = λ id s. (ok id, s);
  get_info = λ u s. (ok (record new_info { id = u }, u), s);
  write_chunk =
      λ u offset src s. (record { upload = u; bytes_written = pos 0; error = none; reads = 0 }, s);
  get_reader = λ u s. (ok (record { bytes = []; error = none }), s);
  finish_upload = λ u s. (ok u, s);
  terminate = λ u s. (ok tt, s + 1);
  uses_locker = false;
  lock = λ id s. (ok tt, s);
  unlock = λ id s. s;
  concat_uploads = λ u us s. (ok u, s);
  declare_length = λ u n s. (ok u, s);
  serve_content = λ u header s. ((forbidden, none), s);
}

abbrev full_world : World full_store
full_world = record {
  store = 0;
  header = [];
  output = [];
  events = [];
  metrics = sample_world.metrics;
  deferred = [];
}

abbrev delete_upload : Request
delete_upload = record sample_request { method = codes "DELETE"; path = codes "/a"; header = [] }

terminate_enabled : contains (pre_create ∷ pre_terminate ∷ []) pre_terminate ≡ true
unfolding contains hook_name codes text_eq
terminate_enabled = refl

abbrev Untouched : ℕ → Type 0
Untouched n = n ≡ 0

untouched_reads : ReadsKeep full_store Untouched
untouched_reads = record { get_upload = λ id s h. h; get_info = λ u s h. h; lock = λ id s h. h }

refusing-rejects_upload :
    (event : HookEvent)
    → rejects_upload (refusing (record { type = pre_create; event = event })) ≡ true
unfolding rejects_upload
refusing-rejects_upload event = refl

refusing-rejects_termination :
    (event : HookEvent)
    → rejects_termination (refusing (record { type = pre_terminate; event = event })) ≡ true
unfolding rejects_termination
refusing-rejects_termination event = refl

post_upload-rejected_example :
    Refused untouched_reads (post_upload hooked_config create_request full_world)
post_upload-rejected_example =
    post_upload-rejected untouched_reads refusing (pre_create ∷ pre_terminate ∷ []) no_counts
      sample_config create_request full_world sample_enabled refusing-rejects_upload refl

delete_request-rejected_example :
    Refused untouched_reads (delete_request hooked_config delete_upload full_world)
delete_request-rejected_example =
    delete_request-rejected untouched_reads refusing (pre_create ∷ pre_terminate ∷ []) no_counts
      sample_config delete_upload full_world terminate_enabled refusing-rejects_termination refl

sample_event : HookEvent
sample_event = new_hook_event create_request new_info

abbrev sample_run : List HookRequest
sample_run =
    record { type = pre_create; event = sample_event }
    ∷ record { type = pre_terminate; event = sample_event }
    ∷ record { type = pre_create; event = sample_event }
    ∷ []

-- One hook works, and the other fails.
abbrev half_broken : HookHandler
half_broken request = elim request.type [
  | pre_terminate ↦ err (other (codes "no hook"))
  | otherwise ↦ ok refusal
]

invoke_all-counts_example :
    (count_of (
        lookup (codes "pre-create") (invoke_all half_broken sample_run no_counts).invocations_total)
      ≡ count_of (lookup (codes "pre-create") no_counts.invocations_total)
        + requests_for (codes "pre-create") sample_run)
    × (count_of
          (lookup (codes "pre-create") (invoke_all half_broken sample_run no_counts).errors_total)
        ≡ count_of (lookup (codes "pre-create") no_counts.errors_total)
          + failures_for half_broken (codes "pre-create") sample_run)
invoke_all-counts_example = invoke_all-counts half_broken sample_run no_counts (codes "pre-create")
