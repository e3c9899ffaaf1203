-- ===== src/Tests/Requests.antt =====
-- Runs of the handlers over the file store.
use tusd.Tests.Disks.{
  disk_path, disk_id, stored_info, old_bytes, sample_os, sample_fs, sample-IsStored,
}
use tusd.Base.{
  true, false, List, [], ◌∷◌, ◌++◌, none, some, ◌≡◌, refl, Bytes, codes, arith, length, is_empty,
  text_eq,
}
use tusd.Base.Int.{pos}
use tusd.Base.Dict.{lookup}
use tusd.Http.{HttpResponse, HttpHeader, ok}
use tusd.BodyReader.{BodyEvent, read, eof}
use tusd.DataStore.{StoreComposer}
use tusd.FileStore.{stored_bin_path}
use tusd.FileStore.Os.{Fs}
use tusd.FileStore.Stored.{calm}
use tusd.FileStore.Composer.{file_composer, file_composer_tracker}
use tusd.Handler.Request.{Request}
use tusd.Handler.Config.{Config}
use tusd.Handler.Monad.{World}
use tusd.Handler.Read.ContentType.{Mime}
use tusd.Handler.Routes.{serve}
use tusd.Strconv.{format_int}
use tusd.Handler.Patch.{no_content, patch_upload}
use tusd.Handler.Locks.Release.{held-serve}
use tusd.BodyReader.{has_error, limited_read, drain, body_read, new_body_reader}
use tusd.BodyReader.Laws.{sent}
use tusd.Handler.Chunk.{max_body_size, to_limit, exceeds_size}
use tusd.Handler.Chunk.Limit.{IsOpen}
use tusd.Handler.Request.{get_header}
use tusd.Base.Int.{◌+ℤ◌}
use tusd.Base.{◌≤◌}
use tusd.FileStore.{stored_bin_path}
use tusd.System.{patch_upload-sent, patch_upload-answer}

-- A locker that holds one lock, a disk that fails soon, and a request that wants to write.
abbrev pub sample_serve : Bytes → HttpHeader → Fs → HttpResponse
sample_serve file header fs = record { status_code = 200; body = []; header = header }

abbrev pub sample_composer : StoreComposer
sample_composer = file_composer sample_os disk_path sample_serve

abbrev pub sample_world : World sample_composer
sample_world = record {
  store = record { fs = sample_fs; locks = (1 ∷ []) ∷ [] };
  header = [];
  output = [];
  events = [];
  metrics = record {
    requests_total = [];
    errors_total = [];
    bytes_received = 0;
    uploads_finished = 0;
    uploads_created = 0;
    uploads_terminated = 0;
  };
  deferred = [];
}

abbrev sample_mime : Mime
sample_mime = record { parse_media_type = λ s. ok (s, []); quote = λ s. s }

abbrev pub sample_config : Config
sample_config = record {
  max_size = pos 0;
  base_path = codes "/";
  is_abs = false;
  enable_experimental_protocol = false;
  disable_download = false;
  disable_termination = false;
  disable_concatenation = false;
  cors = record {
    disable = true;
    allow_origin = λ origin. true;
    allow_credentials = false;
    allow_methods = [];
    allow_headers = [];
    max_age = [];
    expose_headers = [];
  };
  notify_complete_uploads = true;
  notify_terminated_uploads = true;
  notify_created_uploads = true;
  respect_forwarded_headers = false;
  pre_upload_create_callback = none;
  pre_finish_response_callback = none;
  pre_upload_terminate_callback = none;
}

abbrev pub sample_request : Request
sample_request = record {
  method = codes "PATCH";
  path = disk_id;
  request_uri = codes "/a";
  remote_addr = [];
  host = [];
  tls = false;
  header =
      (codes "Tus-Resumable", codes "1.0.0")
      ∷ ((codes "Content-Type", codes "application/offset+octet-stream")
          ∷ ((codes "Upload-Offset", codes "2") ∷ []));
  content_length = pos 3;
  body = some (read (3 ∷ (4 ∷ (5 ∷ []))) (some eof) ∷ []);
}

held-serve_example :
    (serve sample_mime sample_config sample_request sample_world).store.locks
    ≡ sample_world.store.locks
held-serve_example =
    held-serve (file_composer_tracker sample_os disk_path sample_serve) sample_mime sample_config
      sample_request sample_world refl

abbrev calm_world : World sample_composer
calm_world = record sample_world { store = record { fs = calm sample_fs; locks = (1 ∷ []) ∷ [] } }

abbrev sample_body : List BodyEvent
sample_body = read (3 ∷ (4 ∷ (5 ∷ []))) (some eof) ∷ []

sample_body_whole :
    has_error sample_body
      (length sample_body)
      (to_limit (max_body_size (pos 0) (record stored_info { offset = pos 2 }) (pos 3)))
    ≡ none
unfolding has_error limited_read drain body_read new_body_reader max_body_size to_limit
sample_body_whole = refl

stored_info-IsOpen : IsOpen (record stored_info { offset = pos 2 }) 2 5
stored_info-IsOpen = record {
  known = refl;
  at = refl;
  of = refl;
  within = omega arith;
  in_range = omega arith;
}

stored_info_fits : exceeds_size (record stored_info { offset = pos 2 }) (pos 3) ≡ false
unfolding exceeds_size ◌+ℤ◌
stored_info_fits = refl

no_length_header : is_empty (get_header sample_request (codes "Upload-Length")) ≡ true
unfolding is_empty get_header lookup text_eq codes
no_length_header = refl

patch_upload-sent_example :
    (lookup
        (stored_bin_path sample_os disk_path stored_info)
        (patch_upload {S = sample_composer} sample_config sample_request disk_id
          (pos 2)
          calm_world).1.store.fs.files
      ≡ some (old_bytes ++ sent sample_body))
    × (length (old_bytes ++ sent sample_body) ≤ 5)
patch_upload-sent_example =
    patch_upload-sent sample_os disk_path sample_serve sample_config sample_request disk_id
      stored_info old_bytes 5 sample_body sample_world sample_fs ((1 ∷ []) ∷ []) sample-IsStored
      sample_body_whole stored_info-IsOpen (omega arith) refl (omega arith) stored_info_fits
      no_length_header refl

patch_upload-answer_example :
    (patch_upload {S = sample_composer} sample_config sample_request disk_id (pos 2) calm_world).0
    ≡ ok (record no_content {
      header =
          (codes "Upload-Offset", format_int (pos (length (old_bytes ++ sent sample_body)))) ∷ [];
    })
patch_upload-answer_example =
    patch_upload-answer sample_os disk_path sample_serve sample_config sample_request disk_id
      stored_info old_bytes 5 sample_body sample_world sample_fs ((1 ∷ []) ∷ []) sample-IsStored
      sample_body_whole refl stored_info-IsOpen (omega arith) refl (omega arith) stored_info_fits
      no_length_header refl
