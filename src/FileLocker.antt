-- ===== src/FileLocker.antt =====
-- pkg/filelocker/filelocker.go over the lock files of another package and the files that ask for a release.
pub mod Laws
use tusd.Base.{
  Bool, true, false, List, [], ◌∷◌, ◌++◌, if◌then◌else◌, Option, none, some, Bytes, codes,
}
use tusd.Http.{Failure, detailed, Result, ok, err}
use tusd.Http.Errors.{err_lock_timeout, err_not_found}

-- What `TryLock` of a lock file answers: `lockfile.ErrNotExist`, an `fs.ErrNotExist`, `lockfile.ErrBusy`, or
-- another error.
pub data TryLock : Type 0 where
  acquired : TryLock
  not_visible : TryLock
  no_directory : TryLock
  busy : TryLock
  try_failed : Failure → TryLock

-- What `Unlock` of a lock file answers; a file that is missing satisfies `os.IsNotExist`.
pub data Release : Type 0 where
  released : Release
  missing : Release
  release_failed : Failure → Release

-- The calls of packages lockfile, os and path/filepath, over a state of their own.
pub record LockApi : Type 1 where
  pub State : Type 0
  pub join : Bytes → Bytes → Bytes
  pub abs : Bytes → Result Bytes
  pub try_lock : Bytes → State → TryLock × State
  pub unlock : Bytes → State → Release × State
  pub create : Bytes → State → Option Failure × State
  pub remove : Bytes → State → State
  pub exists : Bytes → State → Bool

-- `fileUploadLock`
pub record FileUploadLock : Type 0 where
  pub file : Bytes
  pub request_release_file : Bytes

-- A wait: whether the context ends in it, and what others do meanwhile.
pub record Wait (State : Type 0) : Type 0 where
  pub is_expired : Bool
  pub others : State → State

-- How a run of `Lock` ends; it is waiting still where its waits have been used up.
pub data LockRun : Type 0 where
  locked : LockRun
  lock_failed : Failure → LockRun
  still_waiting : LockRun

-- What the goroutine that polls sees: `stopHolderPoll` is closed, or an interval is over in which others did something.
pub data PollEvent (State : Type 0) : Type 0 where
  stop : PollEvent State
  interval : (State → State) → PollEvent State

unfoldable pub map_result : {A B : Type 0} → (A → B) → Result A → Result B
map_result f (ok a) = ok (f a)
map_result f (err e) = err e

module _ (api : LockApi) where
  -- `NewLock` in the directory `path`
  unfoldable pub new_lock : Bytes → Bytes → Result FileUploadLock
  new_lock path id =
      map_result
        (λ file. record { file = file; request_release_file = api.join path (id ++ codes ".stop") })
        (api.abs (api.join path (id ++ codes ".lock")))

  -- One attempt at the lock: done, or its state at the wait.
  pub data Attempt : Type 0 where
    ended : LockRun → api.State → Attempt
    waits_from : api.State → Attempt

  -- The `.stop` file is made, which asks the holder to release the lock.
  unfoldable pub after_create : Option Failure × api.State → Attempt
  after_create (some e, s) = ended (lock_failed e) s
  after_create (none, s) = waits_from s

  unfoldable pub after_try : FileUploadLock → TryLock × api.State → Attempt
  after_try lock (acquired, s) = ended locked s
  after_try lock (not_visible, s) = waits_from s
  after_try lock (no_directory, s) = ended (lock_failed (detailed err_not_found)) s
  after_try lock (busy, s) = after_create (api.create lock.request_release_file s)
  after_try lock (try_failed e, s) = ended (lock_failed e) s

  unfoldable pub after_attempt : (api.State → LockRun × api.State) → Attempt → LockRun × api.State
  after_attempt continue (ended run s) = (run, s)
  after_attempt continue (waits_from s) = continue s

  -- The `select` of a wait.
  unfoldable pub after_wait :
      Wait api.State → (api.State → LockRun × api.State) → api.State → LockRun × api.State
  after_wait wait continue s =
      if wait.is_expired
      then (lock_failed (detailed err_lock_timeout), wait.others s)
      else continue (wait.others s)

  -- The loop of `Lock`, with the waits to come.
  unfoldable pub lock_file :
      FileUploadLock → List (Wait api.State) → api.State → LockRun × api.State
  lock_file lock [] s =
      after_attempt (λ s'. (still_waiting, s')) (after_try lock (api.try_lock lock.file s))
  lock_file lock (wait ∷ waits) s =
      after_attempt (after_wait wait (lock_file lock waits))
        (after_try lock (api.try_lock lock.file s))

  -- The goroutine of `Lock`: whether it asks the holder to release the lock.
  unfoldable pub is_asked : FileUploadLock → List (PollEvent api.State) → api.State → Bool
  is_asked lock [] s = false
  is_asked lock (stop ∷ events) s = false
  is_asked lock (interval others ∷ events) s =
      let rest = is_asked lock events (others s) in
      if api.exists lock.request_release_file (others s) then true else rest

  unfoldable pub unlock_error : Release → Option Failure
  unlock_error released = none
  unlock_error missing = none
  unlock_error (release_failed e) = some e

  -- `Unlock`; the goroutine ends as its channel is closed.
  unfoldable pub unlock_file : FileUploadLock → api.State → Option Failure × api.State
  unlock_file lock s =
      let (release, s') = api.unlock lock.file s in
      (unlock_error release, api.remove lock.request_release_file s')
