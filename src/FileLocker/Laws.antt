-- ===== src/FileLocker/Laws.antt =====
-- What a request that is kept waiting for a file lock brings about.
use tusd.Base.{
  ◌≡◌, refl, ap, ◌∙◌, Bool, true, false, List, [], ◌∷◌, Option, none, ◌⊎◌, inl, inr, Bool-cases,
}
use tusd.Http.{Failure, detailed}
use tusd.Http.Errors.{err_lock_timeout}
use tusd.FileLocker.{
  TryLock, LockApi, FileUploadLock, Wait, busy, lock_failed, after_create, after_try, after_attempt,
  after_wait, lock_file, waits_from, interval, is_asked,
}

-- A lock that another process has all along: attempts are refused, and whatever happens meanwhile keeps it so.
-- The files that ask for a release can be made.
pub record IsHeld (api : LockApi) (lock : FileUploadLock) : Type 1 where
  pub Held : api.State → Type 0
  pub refuses : (s : api.State) → Held s → (api.try_lock lock.file s).0 ≡ busy
  pub after_refusal : (s : api.State) → Held s → Held (api.try_lock lock.file s).1
  pub creates : (s : api.State) → Held s → (api.create lock.request_release_file s).0 ≡ none
  pub after_creation : (s : api.State) → Held s → Held (api.create lock.request_release_file s).1
  pub created :
      (s : api.State)
      → Held s
      → api.exists lock.request_release_file (api.create lock.request_release_file s).1 ≡ true

-- The waits of a request, of which the last ends with its context; the holder's process goes on meanwhile, and does not
-- release the lock or take the file away.
unfoldable pub Keeping :
    (api : LockApi) (lock : FileUploadLock) → IsHeld api lock → Wait api.State → Type 0
Keeping api lock held wait =
    (s : api.State)
    → (held.Held s → held.Held (wait.others s))
      × (api.exists lock.request_release_file s ≡ true
          → api.exists lock.request_release_file (wait.others s) ≡ true)

-- One of the waits ends with the context of the request, and all until then keep the lock held.
unfoldable pub HasEnd :
    (api : LockApi) (lock : FileUploadLock) → IsHeld api lock → List (Wait api.State) → Type 0
HasEnd api lock held [] = ⊥
HasEnd api lock held (wait ∷ waits) =
    Keeping api lock held wait × ((wait.is_expired ≡ true) ⊎ HasEnd api lock held waits)

module _ (api : LockApi) (lock : FileUploadLock) (held : IsHeld api lock) where
  after_try-busy :
      (p : TryLock × api.State)
      → p.0 ≡ busy
      → after_try api lock p ≡ after_create api (api.create lock.request_release_file p.1)
  unfolding after_try
  after_try-busy p h = ap (λ t. after_try api lock (t, p.1)) h

  after_create-none :
      (p : Option Failure × api.State) → p.0 ≡ none → after_create api p ≡ waits_from p.1
  unfolding after_create
  after_create-none p h = ap (λ t. after_create api (t, p.1)) h

  -- An attempt at a lock that is held makes the `.stop` file.
  attempt-Held :
      (s : api.State)
      → held.Held s
      → (t : api.State) × (after_try api lock (api.try_lock lock.file s) ≡ waits_from t)
        × held.Held t
        × (api.exists lock.request_release_file t ≡ true)
  attempt-Held s h =
      let tried = api.try_lock lock.file s in
      let made = api.create lock.request_release_file tried.1 in
      let h' = held.after_refusal s h in
      (
        made.1,
        after_try-busy tried (held.refuses s h) ∙ after_create-none made (held.creates tried.1 h'),
        held.after_creation tried.1 h',
        held.created tried.1 h',
      )

  left_over : {b : Bool} {P : Type 0} → b ≡ false → (b ≡ true) ⊎ P → P
  left_over going (inl expired) = cc
  left_over going (inr rest) = rest

  -- A request for a lock that another process has all along, and whose context ends in one of its waits, gets
  -- ErrLockTimeout, and when the holder next looks, it finds that it is asked to release the lock; the `.stop` file can
  -- be made and is not taken away meanwhile.
  pub lock_file-held :
      (waits : List (Wait api.State)) (s : api.State)
      → held.Held s
      → HasEnd api lock held waits
      → ((lock_file api lock waits s).0 ≡ lock_failed (detailed err_lock_timeout))
        × (is_asked api lock (interval (λ t. t) ∷ []) (lock_file api lock waits s).1 ≡ true)
  unfolding HasEnd Keeping lock_file after_attempt after_wait is_asked
  lock_file-held [] s h end = absurd end
  lock_file-held (wait ∷ waits) s h (keeping, end) =
      let (t, e, h', there) = attempt-Held s h in
      rw e (elim (Bool-cases wait.is_expired) [
        | inl expired ↦ (rw expired refl, rw (expired, (keeping t).1 there) refl)
        | inr going ↦
            rw going (lock_file-held waits (wait.others t) ((keeping t).0 h') (left_over going end))
      ])
