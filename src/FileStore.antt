-- ===== src/FileStore.antt =====
-- pkg/filestore/filestore.go: uploads as a data file and a `.info` file.
pub mod Os
pub mod Calls
pub mod Append
pub mod Stored
pub mod Calm
pub mod Lifecycle
pub mod Composer
use tusd.Base.{
  ℕ, ◌+◌, Bool, true, false, not, ◌&&◌, List, [], ◌∷◌, ◌++◌, Option, none, some, Bytes, codes,
  is_empty, length, if◌then◌else◌,
}
use tusd.Base.Int.{ℤ, pos, ◌+ℤ◌}
use tusd.Base.Dict.{Dict, lookup, insert}
use tusd.Http.{Failure, detailed, Result, ok, err}
use tusd.Http.Errors.{err_not_found}
use tusd.BodyReader.{flatten}
use tusd.DataStore.{FileInfo, WriteResult, Stream}
use Os.{
  Fs, M, returning, ◌>>=◌, ◌>>◌, pure, raise, attempt, is_not_exist, open_truncated,
  open_for_append, mkdir_all, Written, write_end, close_file, read_file, stat_size, remove_file,
}

-- What the store takes from packages `encoding/json`, `path/filepath` and internal/uid.
pub record Platform : Type 0 where
  pub marshal : FileInfo → Bytes
  pub unmarshal : Bytes → Result FileInfo
  pub join : Bytes → Bytes → Bytes
  pub dir : Bytes → Bytes
  pub is_abs : Bytes → Bool
  pub uid : ℕ → Bytes

abbrev pub storage_key_path : Bytes
storage_key_path = codes "Path"

abbrev pub storage_key_info_path : Bytes
storage_key_info_path = codes "InfoPath"

-- `fileUpload`; the permissions are left out.
pub record FileUpload : Type 0 where
  pub info : FileInfo
  pub info_path : Bytes
  pub bin_path : Bytes

-- `info.Storage[StorageKeyPath]`, empty where there is none
unfoldable pub storage_path : FileInfo → Bytes
storage_path info = elim info.storage [
  | none ↦ []
  | some storage ↦ elim (lookup storage_key_path storage) [ none ↦ [] | some path ↦ path ]
]

-- An error that says that a file is missing becomes ErrNotFound.
unfoldable pub or_not_found : {A : Type 0} → Result A → Result A
or_not_found (ok a) = ok a
or_not_found (err e) = if is_not_exist e then err (detailed err_not_found) else err e

-- An error that says that a file is missing is ignored.
unfoldable pub unless_missing : Result (Unit {0}) → Result (Unit {0})
unless_missing (ok u) = ok tt
unless_missing (err e) = if is_not_exist e then ok tt else err e

abbrev pub lift : {A : Type 0} → Result A → M A
lift r fs = (r, fs)

abbrev pub stop_on : Option Failure → Result (Unit {0})
stop_on none = ok tt
stop_on (some e) = err e

module _ (os : Platform) where
  -- The first attempt, and a second one in a directory that is made for it.
  unfoldable pub open_or_mkdir : Bytes → M (Unit {0})
  open_or_mkdir file = do
    first ← attempt (open_truncated (os.dir file) file)
    elim first [
      | ok u ↦ pure tt
      | err e ↦
          if is_not_exist e
          then (mkdir_all (os.dir file) >> open_truncated (os.dir file) file)
          else raise e
    ]

  -- `createFile`, with content or with nil
  unfoldable pub create_file : Bytes → Option Bytes → M (Unit {0})
  create_file file none = do open_or_mkdir file; close_file
  create_file file (some content) = do
    open_or_mkdir file
    written ← returning (write_end file content)
    lift (stop_on written.error)
    close_file

  unfoldable pub write_info : FileUpload → M (Unit {0})
  write_info upload = create_file upload.info_path (some (os.marshal upload.info))

  unfoldable pub declare_length : FileUpload → ℤ → M FileUpload
  declare_length upload length = do
    let upload' = record upload {
      info = record (upload.info) { size = length; size_is_deferred = false };
    }
    write_info upload'
    pure upload'

-- `path` is the directory of the store.
module _ (os : Platform) (path : Bytes) where
  unfoldable pub default_bin_path : Bytes → Bytes
  default_bin_path id = os.join path id

  unfoldable pub info_path : Bytes → Bytes
  info_path id = os.join path (id ++ codes ".info")

  -- Where a new upload keeps its data: a hook may choose the place.
  unfoldable pub new_bin_path : FileInfo → Bytes
  new_bin_path info =
      let chosen = storage_path info in
      if is_empty chosen
      then default_bin_path info.id
      else if os.is_abs chosen
      then chosen
      else os.join path chosen

  unfoldable pub with_id : FileInfo → M FileInfo
  with_id info fs =
      if is_empty info.id
      then (ok (record info { id = os.uid fs.uids }), record fs { uids = fs.uids + 1 })
      else (ok info, fs)

  unfoldable pub make_upload : FileInfo → FileUpload
  make_upload info = record {
    info = record info {
      storage = some (
          (codes "Type", codes "filestore")
          ∷ ((storage_key_path, new_bin_path info)
              ∷ ((storage_key_info_path, info_path info.id) ∷ [])));
    };
    info_path = info_path info.id;
    bin_path = new_bin_path info;
  }

  -- The two files of a new upload.
  unfoldable pub create_files : FileUpload → M FileUpload
  create_files upload = do create_file os upload.bin_path none; write_info os upload; pure upload

  unfoldable pub new_upload : FileInfo → M FileUpload
  new_upload asked = do info ← with_id asked; create_files (make_upload info)

  unfoldable pub stored_bin_path : FileInfo → Bytes
  stored_bin_path info =
      if is_empty (storage_path info) then default_bin_path info.id else storage_path info

  unfoldable pub get_upload : Bytes → M FileUpload
  get_upload id = do
    read ← attempt (read_file (info_path id))
    text ← lift (or_not_found read)
    info ← lift (os.unmarshal text)
    stat ← attempt (stat_size (stored_bin_path info))
    size ← lift (or_not_found stat)
    pure (record {
      info = record info { offset = pos size };
      info_path = info_path id;
      bin_path = stored_bin_path info;
    })

unfoldable pub get_info : FileUpload → M (FileInfo × FileUpload)
get_info upload = pure (upload.info, upload)

unfoldable pub wrote : FileUpload → ℕ → Option Failure → ℕ → WriteResult FileUpload
wrote upload n error reads = record {
  upload = record upload { info = record (upload.info) { offset = upload.info.offset +ℤ pos n } };
  bytes_written = pos n;
  error = error;
  reads = reads;
}

unfoldable pub no_write : FileUpload → Failure → WriteResult FileUpload
no_write upload e = record { upload = upload; bytes_written = pos 0; error = some e; reads = 0 }

-- `return n, file.Close()`
unfoldable pub after_close :
    FileUpload → ℕ → ℕ → Result (Unit {0}) × Fs → WriteResult FileUpload × Fs
after_close upload n reads (ok u, fs) = (wrote upload n none reads, fs)
after_close upload n reads (err e, fs) = (wrote upload n (some e) reads, fs)

unfoldable pub after_copy : FileUpload → ℕ → ℕ → Option Failure → Fs → WriteResult FileUpload × Fs
after_copy upload n reads none fs = after_close upload n reads (close_file fs)
after_copy upload n reads (some e) fs = (wrote upload n (some e) reads, (close_file fs).1)

unfoldable pub after_open :
    FileUpload → List Bytes → Result (Unit {0}) × Fs → WriteResult FileUpload × Fs
after_open upload src (err e, fs) = (no_write upload e, fs)
after_open upload src (ok u, fs) =
    let (w, fs') = write_end upload.bin_path (flatten src) fs in
    after_copy upload w.count (length src) w.error fs'

-- The source is read to the end, in as many reads as it has parts. Where the disk fails, some of
-- them have been made; the model takes all.
unfoldable pub write_chunk : FileUpload → ℤ → List Bytes → Fs → WriteResult FileUpload × Fs
write_chunk upload offset src fs = after_open upload src (open_for_append upload.bin_path fs)

unfoldable pub get_reader : FileUpload → M Stream
get_reader upload = do
  bytes ← read_file upload.bin_path
  pure (record { bytes = bytes; error = none })

unfoldable pub terminate : FileUpload → M (Unit {0})
terminate upload = do
  bin ← attempt (remove_file upload.bin_path)
  lift (unless_missing bin)
  info ← attempt (remove_file upload.info_path)
  lift (unless_missing info)

-- `appendTo`
unfoldable pub append_file : Bytes → Bytes → M (Unit {0})
append_file target source = do
  bytes ← read_file source
  written ← returning (write_end target bytes)
  lift (stop_on written.error)
  close_file

unfoldable pub append_all : Bytes → List FileUpload → M (Unit {0})
append_all target [] = pure tt
append_all target (partial ∷ uploads) = do
  append_file target partial.bin_path
  append_all target uploads

-- The file is closed whatever happened; an error of appending comes first.
unfoldable pub concat_uploads : FileUpload → List FileUpload → M FileUpload
concat_uploads upload uploads = do
  open_for_append upload.bin_path
  appended ← attempt (append_all upload.bin_path uploads)
  closed ← attempt close_file
  lift appended
  lift closed
  pure upload

unfoldable pub finish_upload : FileUpload → M FileUpload
finish_upload upload = pure upload
