-- ===== src/FileStore/Composer.antt =====
-- `UseIn` of pkg/filestore/filestore.go and of pkg/memorylocker/memorylocker.go: a store composer of the
-- file store and the memory locker.
use tusd.Base.{true, List, ◌∷◌, Bytes, ◌≡◌, refl, ◌∙◌, ◌⊎◌, inl, inr, none, ap}
use tusd.Http.{HttpResponse, HttpHeader, Failure, ok, err, detailed}
use tusd.Http.Errors.{err_lock_timeout}
use tusd.DataStore.{StoreComposer}
use tusd.FileStore.{
  Platform, FileUpload, new_upload, get_upload, get_info, write_chunk, get_reader, finish_upload,
  terminate, concat_uploads, declare_length,
}
use tusd.FileStore.Os.{Fs}
use tusd.MemoryLocker.{lock, unlock, lock-cases, unlock-lock}
use tusd.Handler.Locks.{TracksLocks}

-- The files, and the map of the locker.
pub record Disk : Type 0 where
  pub fs : Fs
  pub locks : List Bytes

-- A call of the store, which leaves the locks alone.
abbrev pub on_fs : {A : Type 0} → (Fs → A × Fs) → Disk → A × Disk
on_fs m s = let (r, fs) = m s.fs in (r, record s { fs = fs })

abbrev pub on_locks : {A : Type 0} → (List Bytes → A × List Bytes) → Disk → A × Disk
on_locks m s = let (r, locks) = m s.locks in (r, record s { locks = locks })

-- `serve_file` is `http.ServeFile`. A panic of `Unlock` is not passed on: a handler unlocks what it has locked, where
-- there is none.
module _ (os : Platform) (path : Bytes) (serve_file : Bytes → HttpHeader → Fs → HttpResponse) where
  abbrev pub file_composer : StoreComposer
  file_composer = record {
    State = Disk;
    Upload = FileUpload;
    new_upload = λ info. on_fs (new_upload os path info);
    get_upload = λ id. on_fs (get_upload os path id);
    get_info = λ u. on_fs (get_info u);
    write_chunk = λ u offset src. on_fs (write_chunk u offset src);
    get_reader = λ u. on_fs (get_reader u);
    finish_upload = λ u. on_fs (finish_upload u);
    uses_terminater = true;
    terminate = λ u. on_fs (terminate u);
    uses_locker = true;
    lock = λ id. on_locks (lock id);
    unlock = λ id s. record s { locks = (unlock id s.locks).1 };
    uses_concater = true;
    concat_uploads = λ u us. on_fs (concat_uploads u us);
    uses_length_deferrer = true;
    declare_length = λ u n. on_fs (declare_length os u n);
    uses_content_server = true;
    serve_content = λ u header s. ((serve_file u.bin_path header s.fs, none), s);
  }

  pub file_composer-held-lock :
      (id : Bytes) (s : Disk)
      → (((file_composer.lock id s).0 ≡ ok tt) × ((file_composer.lock id s).1.locks ≡ id ∷ s.locks))
        ⊎ ((e : Failure) × ((file_composer.lock id s).0 ≡ err e)
            × ((file_composer.lock id s).1.locks ≡ s.locks))
  file_composer-held-lock id s = elim (lock-cases id s.locks) [
    | inl (free, e) ↦ inl (ap (λ p. p.0) e, ap (λ p. p.1) e)
    | inr (taken, e) ↦ inr (detailed err_lock_timeout, ap (λ p. p.0) e, ap (λ p. p.1) e)
  ]

  -- The file store leaves the locks alone, and the memory locker keeps account of them.
  abbrev pub file_composer_tracker : TracksLocks file_composer
  file_composer_tracker = record {
    held = λ s. s.locks;
    held-new_upload = λ i s. refl;
    held-get_upload = λ id s. refl;
    held-get_info = λ u s. refl;
    held-write_chunk = λ u o src s. refl;
    held-get_reader = λ u s. refl;
    held-finish_upload = λ u s. refl;
    held-terminate = λ u s. refl;
    held-concat_uploads = λ u us s. refl;
    held-declare_length = λ u n s. refl;
    held-serve_content = λ u h s. refl;
    held-lock = λ id s. file_composer-held-lock id s;
    held-unlock = λ id ids s e. ap (λ l. (unlock id l).1) e ∙ ap (λ u. u.1) (unlock-lock id ids);
  }
