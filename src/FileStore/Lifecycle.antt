-- ===== src/FileStore/Lifecycle.antt =====
-- Creation, declaration of a length and termination of uploads of the file store, while no call fails.
use tusd.Base.{
  ◌+◌, true, false, List, [], ◌∷◌, ◌≡◌, ◌≢◌, refl, sym, none, some, Bytes, arith, codes, text_eq,
  text_eq_iff, text_eq_refl, is_empty, if◌then◌else◌, ◌∙◌, ap,
}
use tusd.Base.Dict.{Dict, lookup, insert, erase, lookup-insert, lookup-erase}
use tusd.Http.{ok, err, detailed}
use tusd.Http.Errors.{err_not_found}
use tusd.DataStore.{FileInfo}
use tusd.FileStore.{
  Platform, FileUpload, info_path, stored_bin_path, storage_path, new_bin_path, with_id,
  make_upload, create_files, new_upload, get_upload, or_not_found, unless_missing, open_or_mkdir,
  create_file, write_info, terminate,
}
use tusd.FileStore.Os.{
  Fs, contains, open_truncated, mkdir_all, append_to, write_until, write_end, close_file, read_file,
  remove_file, is_not_exist, err_not_exist,
}
use tusd.FileStore.Calls.{lookup-append_to_self, lookup-append_to_ne}
use tusd.FileStore.Stored.{calm, IsStored, handle_of}

is_not_exist-err_not_exist : is_not_exist err_not_exist ≡ true
unfolding is_not_exist err_not_exist
is_not_exist-err_not_exist = text_eq_refl (codes "file does not exist")

lookup-insert_self {ℓ} :
    {V : Type ℓ} (k : Bytes) (v : V) (m : Dict V) → lookup k (insert k v m) ≡ some v
lookup-insert_self k v m = lookup-insert k k v m ∙ rw text_eq_refl

lookup-insert_ne {ℓ} :
    {V : Type ℓ} (k j : Bytes) (v : V) (m : Dict V) → k ≢ j → lookup j (insert k v m) ≡ lookup j m
lookup-insert_ne k j v m h = lookup-insert k j v m ∙ ground (arith, text_eq_iff k j)

lookup-erase_self {ℓ} : {V : Type ℓ} (k : Bytes) (m : Dict V) → lookup k (erase k m) ≡ none
lookup-erase_self k m = lookup-erase k k m ∙ rw text_eq_refl

lookup-erase_ne {ℓ} :
    {V : Type ℓ} (k j : Bytes) (m : Dict V) → k ≢ j → lookup j (erase k m) ≡ lookup j m
lookup-erase_ne k j m h = lookup-erase k j m ∙ ground (arith, text_eq_iff k j)

module _ (os : Platform) where
  made_dirs : List Bytes → Bytes → List Bytes
  made_dirs dirs dir = if contains dirs dir then dirs else dir ∷ dirs

  -- The state with a new empty file.
  opened : Bytes → Fs → Fs
  opened file fs = record (calm fs) {
    files = insert file [] fs.files;
    dirs = made_dirs fs.dirs (os.dir file);
  }

  open_or_mkdir-calm :
      (file : Bytes) (fs : Fs) → open_or_mkdir os file (calm fs) ≡ (ok tt, opened file fs)
  unfolding open_or_mkdir open_truncated mkdir_all opened made_dirs
  open_or_mkdir-calm file fs =
      ground (arith, is_not_exist-err_not_exist, text_eq_refl (os.dir file))

  -- The state with a new file of this content.
  filled : Bytes → Bytes → Fs → Fs
  filled file content fs = record (opened file fs) {
    files = append_to file content (insert file [] fs.files);
  }

  create_file-calm :
      (file content : Bytes) (fs : Fs)
      → create_file os file (some content) (calm fs) ≡ (ok tt, filled file content fs)
  unfolding create_file write_end write_until close_file opened filled
  create_file-calm file content fs = rw (open_or_mkdir-calm file fs)

  create_file-calm_empty :
      (file : Bytes) (fs : Fs) → create_file os file none (calm fs) ≡ (ok tt, opened file fs)
  unfolding create_file close_file opened
  create_file-calm_empty file fs = rw (open_or_mkdir-calm file fs)

  lookup-filled_self :
      (file content : Bytes) (fs : Fs) → lookup file (filled file content fs).files ≡ some content
  unfolding filled
  lookup-filled_self file content fs =
      lookup-append_to_self file content _ (lookup-insert_self file [] fs.files)

  lookup-filled_ne :
      (file k content : Bytes) (fs : Fs)
      → file ≢ k
      → lookup k (filled file content fs).files ≡ lookup k fs.files
  unfolding filled
  lookup-filled_ne file k content fs h =
      lookup-append_to_ne file k content _ h ∙ lookup-insert_ne file k [] fs.files h

-- The info survives the way through its JSON text.
abbrev pub SurvivesJson : Platform → FileInfo → Type 0
SurvivesJson os info = os.unmarshal (os.marshal info) ≡ ok info

module _ (os : Platform) (path : Bytes) where
  -- The requested info with an ID: the one that it has, or a new one.
  abbrev pub identified : FileInfo → Fs → FileInfo
  identified asked fs = if is_empty asked.id then record asked { id = os.uid fs.uids } else asked

  -- What a store needs of the paths of a new upload: they differ, and that of the data is not empty.
  pub record HasPaths (info : FileInfo) : Type 0 where
    pub apart : new_bin_path os path info ≢ info_path os path info.id
    pub named : is_empty (new_bin_path os path info) ≡ false

  stored_bin_path-make_upload :
      (info : FileInfo)
      → HasPaths info
      → stored_bin_path os path (make_upload os path info).info ≡ new_bin_path os path info
  unfolding stored_bin_path storage_path make_upload lookup text_eq codes
  stored_bin_path-make_upload info h = rw (h.named)

  created : FileUpload → Fs → Fs
  created upload fs =
      filled os upload.info_path (os.marshal upload.info) (opened os upload.bin_path fs)

  create_files-calm :
      (upload : FileUpload) (fs : Fs)
      → create_files os path upload (calm fs) ≡ (ok upload, created upload fs)
  unfolding create_files write_info created
  create_files-calm upload fs = rw (create_file-calm_empty os upload.bin_path fs) (
      unfold opened in
      rw (
        create_file-calm os upload.info_path (os.marshal upload.info)
          (opened os upload.bin_path fs)))

  created-IsStored :
      (info : FileInfo) (fs : Fs)
      → HasPaths info
      → SurvivesJson os (make_upload os path info).info
      → IsStored os path info.id
          (make_upload os path info).info
          []
          (created (make_upload os path info) fs)
  unfolding created make_upload opened
  created-IsStored info fs h json = record {
    text = os.marshal (make_upload os path info).info;
    info_file = lookup-filled_self os (info_path os path info.id) _ _;
    parsed = json;
    bin_file =
        ap (λ k. lookup k (created (make_upload os path info) fs).files)
          (stored_bin_path-make_upload info h)
        ∙ lookup-filled_ne os (info_path os path info.id) (new_bin_path os path info) _ _
            (λ e. h.apart (sym e))
        ∙ lookup-insert_self (new_bin_path os path info) [] fs.files;
    apart = λ e. h.apart (sym (stored_bin_path-make_upload info h) ∙ e);
  }

  abbrev named_fs : FileInfo → Fs → Fs
  named_fs asked fs = if is_empty asked.id then record fs { uids = fs.uids + 1 } else fs

  with_id-calm :
      (asked : FileInfo) (fs : Fs)
      → with_id os path asked (calm fs) ≡ (ok (identified asked fs), calm (named_fs asked fs))
  unfolding with_id
  with_id-calm asked fs = ground arith

  -- The state in which `NewUpload` leaves the file system.
  pub new_upload_fs : FileInfo → Fs → Fs
  new_upload_fs asked fs = created (make_upload os path (identified asked fs)) (named_fs asked fs)

  -- While no call fails, `NewUpload` succeeds, with a missing directory or without; the new upload is
  -- on disk under its ID, the given one or a fresh one, with no data. The paths of its two files
  -- differ, that of the data is not empty, and the info survives the way through JSON.
  pub new_upload-IsStored :
      (asked : FileInfo) (fs : Fs)
      → HasPaths (identified asked fs)
      → SurvivesJson os (make_upload os path (identified asked fs)).info
      → let upload = make_upload os path (identified asked fs) in
        (new_upload os path asked (calm fs) ≡ (ok upload, new_upload_fs asked fs))
        × IsStored os path (identified asked fs).id upload.info [] (new_upload_fs asked fs)
  unfolding new_upload new_upload_fs
  new_upload-IsStored asked fs h json = (
    rw (with_id-calm asked fs) (create_files-calm (make_upload os path info) (named_fs asked fs)),
    created-IsStored info (named_fs asked fs) h json,
  )
    where
      info : FileInfo
      info = identified asked fs

  terminated_fs : FileUpload → Fs → Fs
  terminated_fs upload fs = record (calm fs) {
    files = erase upload.info_path (erase upload.bin_path fs.files);
  }

  remove_file_found :
      (file : Bytes) (fs : Fs) {content : Bytes}
      → lookup file fs.files ≡ some content
      → remove_file file (calm fs) ≡ (ok tt, record (calm fs) { files = erase file fs.files })
  unfolding remove_file
  remove_file_found file fs h = ground arith

  terminate-calm :
      (id : Bytes) (info : FileInfo) (content : Bytes) (fs : Fs)
      → IsStored os path id info content fs
      → terminate (handle_of os path id info content) (calm fs)
        ≡ (ok tt, terminated_fs (handle_of os path id info content) fs)
  unfolding terminate unless_missing terminated_fs
  terminate-calm id info content fs s =
      rw (remove_file_found (stored_bin_path os path info) fs s.bin_file) (
        rw (
          remove_file_found (info_path os path id)
            (record (calm fs) { files = erase (stored_bin_path os path info) fs.files })
            (lookup-erase_ne (stored_bin_path os path info) (info_path os path id) fs.files s.apart
              ∙ s.info_file)))

  read_file_missing :
      (file : Bytes) (fs : Fs)
      → lookup file fs.files ≡ none
      → read_file file (calm fs) ≡ (err err_not_exist, calm fs)
  unfolding read_file
  read_file_missing file fs h = ground arith

  get_upload_missing :
      (id : Bytes) (fs : Fs)
      → lookup (info_path os path id) fs.files ≡ none
      → get_upload os path id (calm fs) ≡ (err (detailed err_not_found), calm fs)
  unfolding get_upload or_not_found
  get_upload_missing id fs h =
      rw (read_file_missing (info_path os path id) fs h) (rw is_not_exist-err_not_exist)

  -- While no call fails, `Terminate` of an upload on disk succeeds, and `GetUpload` no longer finds it.
  pub get_upload-terminate :
      (id : Bytes) (info : FileInfo) (content : Bytes) (fs : Fs)
      → IsStored os path id info content fs
      → let (r, fs') = terminate (handle_of os path id info content) (calm fs) in
        (r ≡ ok tt) × (get_upload os path id fs' ≡ (err (detailed err_not_found), fs'))
  unfolding terminated_fs
  get_upload-terminate id info content fs s = rw (terminate-calm id info content fs s) (
    refl,
    get_upload_missing id (terminated_fs (handle_of os path id info content) fs)
        (lookup-erase_self (info_path os path id) _),
  )
