-- ===== src/MemoryLocker/Waiting.antt =====
-- pkg/memorylocker/memorylocker.go with all requests at once: who waits for a lock, and who holds it.
pub mod Facts
pub mod Sound
pub mod Progress
use tusd.Base.{
  [], ℕ, suc, ◌+◌, ◌≡◌, ◌≢◌, refl, Bool, true, false, Option, none, some, Bytes, text_eq,
  text_eq_iff, text_eq_refl, arith, ap, sym, ◌∙◌, subst, ◌⊎◌, inl, inr, ◌==◌, ==_iff, if◌then◌else◌,
  Bool-cases, Option-cases,
}
use tusd.Base.Dict.{Dict, lookup, insert, erase, lookup-insert, lookup-erase}

-- `lockEntry`: the channel `lockReleased`, by a number, and the request whose `requestRelease` it has.
pub record Entry : Type 0 where
  pub channel : ℕ
  pub owner : ℕ

-- Where a request is in `Lock` and `Unlock`: before its first look at the map; with an entry in hand that it asks to be
-- released; in the `select` on a channel; before it takes the mutex; with the lock; refused, as its context is done;
-- between the deletion of the entry and the closing of its channel; and behind `Unlock`.
pub data Phase : Type 0 where
  looking : Phase
  asking : Entry → Phase
  waiting : ℕ → Phase
  taking : Phase
  holding : ℕ → Phase
  refused : Phase
  closing : ℕ → Phase
  unlocked : Phase

-- The map, the channels that are closed, the number of the next channel, the requests that were asked to release their
-- lock, and where each request is.
pub record Locker : Type 0 where
  pub locks : Dict Entry
  pub closed : ℕ → Bool
  pub next_channel : ℕ
  pub asked : ℕ → Bool
  pub phase : ℕ → Phase

abbrev pub updated : {A : Type 0} → ℕ → A → (ℕ → A) → ℕ → A
updated p a f q = if p == q then a else f q

abbrev pub moves : ℕ → Phase → Locker → Locker
moves p phase s = record s { phase = updated p phase s.phase }

-- What a request does next where the map has an entry for its ID, or none.
unfoldable pub look : Option Entry → Phase
look (some entry) = asking entry
look none = taking

-- The channel that a request waits for, or is about to.
unfoldable pub awaits : Phase → Option ℕ
awaits (asking entry) = some entry.channel
awaits (waiting c) = some c
awaits phase = none

-- A request without a lock, and without a channel to close.
unfoldable pub is_quiet : Phase → Bool
is_quiet (holding c) = false
is_quiet (closing c) = false
is_quiet phase = true

-- The channel of the entry is closed, or will be: a request has the lock, or is about to close the channel.
unfoldable pub Ends : Locker → Bytes → ℕ → Type 0
Ends s id c =
    (s.closed c ≡ true)
    ⊎ (((q : ℕ) × (lookup id s.locks ≡ some (record { channel = c; owner = q })))
        ⊎ ((q : ℕ) × (s.phase q ≡ closing c)))

-- `name` is the ID that a request wants to lock. A step holds the mutex from its lock to its unlock.
module _ (name : ℕ → Bytes) where
  pub data Step : Locker → Locker → Type 0 where
    looks :
        {s : Locker} (p : ℕ)
        → s.phase p ≡ looking
        → Step s (moves p (look (lookup (name p) s.locks)) s)
    asks :
        {s : Locker} (p : ℕ) (entry : Entry)
        → s.phase p ≡ asking entry
        → Step s (
            moves p (waiting entry.channel) (record s { asked = updated entry.owner true s.asked }))
    gives_up : {s : Locker} (p c : ℕ) → s.phase p ≡ waiting c → Step s (moves p refused s)
    wakes :
        {s : Locker} (p c : ℕ)
        → s.phase p ≡ waiting c
        → s.closed c ≡ true
        → Step s (moves p taking s)
    misses :
        {s : Locker} (p : ℕ) (entry : Entry)
        → s.phase p ≡ taking
        → lookup (name p) s.locks ≡ some entry
        → Step s (moves p (asking entry) s)
    takes :
        {s : Locker} (p : ℕ)
        → s.phase p ≡ taking
        → lookup (name p) s.locks ≡ none
        → Step s (
            moves p (holding s.next_channel) (record s {
              locks = insert (name p) (record { channel = s.next_channel; owner = p }) s.locks;
              next_channel = suc s.next_channel;
            }))
    deletes :
        {s : Locker} (p c : ℕ) (entry : Entry)
        → s.phase p ≡ holding c
        → lookup (name p) s.locks ≡ some entry
        → Step s (moves p (closing entry.channel) (record s { locks = erase (name p) s.locks }))
    closes :
        {s : Locker} (p c : ℕ)
        → s.phase p ≡ closing c
        → Step s (moves p unlocked (record s { closed = updated c true s.closed }))

  pub data Steps : Locker → Locker → Type 0 where
    stay : {s : Locker} → Steps s s
    step_then : {s t u : Locker} → Step s t → Steps t u → Steps s u
