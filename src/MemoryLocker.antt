-- ===== src/MemoryLocker.antt =====
-- pkg/memorylocker/memorylocker.go, as one request sees it: `locks` holds the IDs of the map `locks`.
-- Other requests hold their locks while this one runs, so that a wait ends with the context.
pub mod Waiting
use tusd.Base.{
  Bool, true, false, ◌||◌, List, [], ◌∷◌, Bytes, text_eq, text_eq_refl, ◌≡◌, refl, arith, ◌⊎◌,
  if◌then◌else◌,
}
use tusd.Http.{detailed, Result, ok, err}
use tusd.Http.Errors.{err_lock_timeout}

unfoldable pub is_locked : Bytes → List Bytes → Bool
is_locked id [] = false
is_locked id (other ∷ locks) = text_eq other id || is_locked id locks

-- `memoryLock.Lock`
unfoldable pub lock : Bytes → List Bytes → Result (Unit {0}) × List Bytes
lock id locks =
    if is_locked id locks then (err (detailed err_lock_timeout), locks) else (ok tt, id ∷ locks)

-- How `Unlock` ends: it closes the channel of its entry, or panics where there is no entry and the channel is nil.
pub data Unlocked : Type 0 where
  closed panicked : Unlocked

-- `memoryLock.Unlock`: the entry of the ID is deleted, of which the map has one at most.
unfoldable pub unlock : Bytes → List Bytes → Unlocked × List Bytes
unlock id [] = (panicked, [])
unlock id (other ∷ locks) =
    let (end, rest) = unlock id locks in
    if text_eq other id then (closed, locks) else (end, other ∷ rest)

-- `Lock` has two outcomes: the lock is new and now held, or it is held already and nothing changes.
pub lock-cases :
    (id : Bytes) (locks : List Bytes)
    → (is_locked id locks ≡ false) × (lock id locks ≡ (ok tt, id ∷ locks))
      ⊎ (is_locked id locks ≡ true) × (lock id locks ≡ (err (detailed err_lock_timeout), locks))
unfolding lock
lock-cases id locks = ground arith

-- What was locked is free again: `Unlock` undoes `Lock`, without a panic.
pub unlock-lock : (id : Bytes) (locks : List Bytes) → unlock id (id ∷ locks) ≡ (closed, locks)
unfolding unlock
unlock-lock id locks = rw (text_eq_refl id) refl
