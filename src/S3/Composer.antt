-- ===== src/S3/Composer.antt =====
-- `UseIn` of pkg/s3store/s3store.go: the store as the data store of the handler. It has no locker.
use tusd.Base.{true, false, Option}
use tusd.Http.{HttpResponse, HttpHeader, Failure, ok}
use tusd.DataStore.{StoreComposer}
use tusd.S3.Service.{S3Api, Env}
use tusd.S3.Upload.{Platform, S3Store, S3Upload, get_info, get_upload, new_upload, declare_length}
use tusd.S3.Write.{write_chunk}
use tusd.S3.Finish.{get_reader, terminate, finish_upload, concat_uploads}

-- `serve` is `ServeContent`, which forwards the request to the service.
module _ (api : S3Api) (os : Platform) (store : S3Store)
    (serve : S3Upload → HttpHeader → Env api → (HttpResponse × Option Failure) × Env api) where
  abbrev pub s3_composer : StoreComposer
  s3_composer = record {
    State = Env api;
    Upload = S3Upload;
    new_upload = new_upload api os store;
    get_upload = λ id env. (get_upload id, env);
    get_info = get_info api os store;
    write_chunk = write_chunk api os store;
    get_reader = get_reader api os store;
    finish_upload = finish_upload api os store;
    uses_terminater = true;
    terminate = terminate api os store;
    uses_locker = false;
    lock = λ id env. (ok tt, env);
    unlock = λ id env. env;
    uses_concater = true;
    concat_uploads = concat_uploads api os store;
    uses_length_deferrer = true;
    declare_length = declare_length api os store;
    uses_content_server = true;
    serve_content = serve;
  }
