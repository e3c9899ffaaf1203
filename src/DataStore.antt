-- ===== src/DataStore.antt =====
-- pkg/handler/datastore.go, composer.go and hooks.go: what an upload is, and what the handler asks of
-- a data store, its extensions and a locker.
use tusd.Base.{ℕ, Bool, List, Option, Bytes}
use tusd.Base.Int.{ℤ}
use tusd.Base.Dict.{Dict}
use tusd.Http.{HttpResponse, HttpHeader, Failure, Result}

abbrev pub MetaData : Type 0
MetaData = Dict Bytes

-- `Storage` is nil or a map. The callback `stopUpload` is in the events of the body.
pub record FileInfo : Type 0 where
  pub id : Bytes
  pub size : ℤ
  pub size_is_deferred : Bool
  pub offset : ℤ
  pub meta_data : MetaData
  pub is_partial : Bool
  pub is_final : Bool
  pub partial_uploads : List Bytes
  pub storage : Option (Dict Bytes)

pub record FileInfoChanges : Type 0 where
  pub id : Bytes
  pub meta_data : Option MetaData
  pub storage : Option (Dict Bytes)

pub record HttpRequest : Type 0 where
  pub method : Bytes
  pub uri : Bytes
  pub remote_addr : Bytes
  pub header : HttpHeader

pub record HookEvent : Type 0 where
  pub upload : FileInfo
  pub http_request : HttpRequest

-- What `WriteChunk` returns: the count, the error, how many events of the body it has consumed,
-- and the upload, which it may change.
pub record WriteResult (Upload : Type 0) : Type 0 where
  pub upload : Upload
  pub bytes_written : ℤ
  pub error : Option Failure
  pub reads : ℕ

-- What a `Reader` or `ServeContent` sends: parts of the body, and the error that ends it.
pub record Stream : Type 0 where
  pub bytes : Bytes
  pub error : Option Failure

-- `StoreComposer`: the core store and its extensions, over one state. A handle is an object that its
-- methods may change, so they return it. An extension that is not used has any function in its place.
pub record StoreComposer : Type 1 where
  pub State : Type 0
  pub Upload : Type 0
  pub new_upload : FileInfo → State → Result Upload × State
  pub get_upload : Bytes → State → Result Upload × State
  pub get_info : Upload → State → Result (FileInfo × Upload) × State
  pub write_chunk : Upload → ℤ → List Bytes → State → WriteResult Upload × State
  pub get_reader : Upload → State → Result Stream × State
  pub finish_upload : Upload → State → Result Upload × State
  pub uses_terminater : Bool
  pub terminate : Upload → State → Result (Unit {0}) × State
  pub uses_locker : Bool
  pub lock : Bytes → State → Result (Unit {0}) × State
  pub unlock : Bytes → State → State
  pub uses_concater : Bool
  pub concat_uploads : Upload → List Upload → State → Result Upload × State
  pub uses_length_deferrer : Bool
  pub declare_length : Upload → ℤ → State → Result Upload × State
  pub uses_content_server : Bool
  pub serve_content : Upload → HttpHeader → State → (HttpResponse × Option Failure) × State
