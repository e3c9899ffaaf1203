-- ===== src/Tests/FileLocker.antt =====
-- A run of the file locker over the names of the files that there are.
use tusd.Base.{
  ◌≡◌, refl, Bool, true, false, ◌||◌, List, [], ◌∷◌, ◌++◌, none, Bytes, codes, text_eq,
  if◌then◌else◌, inl, inr,
}
use tusd.Http.{ok, detailed}
use tusd.Http.Errors.{err_lock_timeout}
use tusd.FileLocker.{
  LockApi, FileUploadLock, Wait, acquired, busy, released, lock_failed, lock_file, interval,
  is_asked,
}
use tusd.FileLocker.Laws.{IsHeld, Keeping, HasEnd, lock_file-held}

unfoldable member : Bytes → List Bytes → Bool
member name [] = false
member name (x ∷ names) = text_eq x name || member name names

abbrev names_api : LockApi
names_api = record {
  State = List Bytes;
  join = λ path name. path ++ codes "/" ++ name;
  abs = λ path. ok path;
  try_lock = λ name names. if member name names then (busy, names) else (acquired, name ∷ names);
  unlock = λ name names. (released, []);
  create = λ name names. (none, name ∷ names);
  remove = λ name names. [];
  exists = member;
}

abbrev video_lock : FileUploadLock
video_lock = record { file = codes "video.lock"; request_release_file = codes "video.stop" }

video_held : IsHeld names_api video_lock
unfolding member codes text_eq
video_held = record {
  Held = λ names. member (codes "video.lock") names ≡ true;
  refuses = λ s h. rw h refl;
  after_refusal = λ s h. rw h h;
  creates = λ s h. refl;
  after_creation = λ s h. h;
  created = λ s h. refl;
}

-- Others make a file of their own in the first wait.
abbrev first_wait : Wait (List Bytes)
first_wait = record { is_expired = false; others = λ names. codes "other" ∷ names }

abbrev last_wait : Wait (List Bytes)
last_wait = record { is_expired = true; others = λ names. names }

video_waits : HasEnd names_api video_lock video_held (first_wait ∷ last_wait ∷ [])
unfolding HasEnd Keeping video_held member codes text_eq
video_waits = (λ s. (λ h. h, λ h. h), inr (λ s. (λ h. h, λ h. h), inl refl))

lock_file-held_example :
    ((lock_file names_api video_lock (first_wait ∷ last_wait ∷ []) (codes "video.lock" ∷ [])).0
      ≡ lock_failed (detailed err_lock_timeout))
    × (is_asked names_api video_lock
          (interval (λ t. t) ∷ [])
          (lock_file names_api video_lock (first_wait ∷ last_wait ∷ []) (codes "video.lock" ∷ [])).1
        ≡ true)
unfolding video_held member codes text_eq
lock_file-held_example =
    lock_file-held names_api video_lock video_held (first_wait ∷ last_wait ∷ [])
      (codes "video.lock" ∷ []) refl video_waits
