-- ===== src/MemoryLocker/Waiting/Progress.antt =====
-- No two requests hold the lock of one ID, and none that waits is stuck.
use tusd.Base.{[], ℕ, ◌≡◌, ◌≢◌, refl, true, none, Bytes, ap, sym, ◌∙◌, inl, inr, Option-cases}
use tusd.Base.Dict.{lookup}
use tusd.MemoryLocker.Waiting.{
  Phase, looking, waiting, taking, holding, closing, unlocked, Locker, awaits, is_quiet, Ends, Step,
  wakes, takes, deletes, closes, Steps, stay, step_then,
}
use tusd.MemoryLocker.Waiting.Facts.{
  updated_same, updated_other, not_holding, none_ne_some, holding_ne_taking, holding_ne_waiting,
  closing_ne_waiting, erased,
}
use tusd.MemoryLocker.Waiting.Sound.{IsSound, holding-exclusive}
use tusd.MemoryLocker.Waiting.Sound.Steps.{Step-IsSound}

module _ (name : ℕ → Bytes) where
  pub Steps-IsSound : {s t : Locker} → Steps name s t → IsSound name s → IsSound name t
  Steps-IsSound stay sound = sound
  Steps-IsSound (step_then step steps) sound = Steps-IsSound steps (Step-IsSound name step sound)

  -- All requests are about to look, and nothing is locked.
  pub start-IsSound : (s : Locker) → s.locks ≡ [] → ((p : ℕ) → s.phase p ≡ looking) → IsSound name s
  unfolding awaits is_quiet lookup
  start-IsSound s none_locked all_look = record {
    held = λ r e h. absurd (not_holding looking refl (sym (all_look r) ∙ h));
    owned = λ id entry h. absurd (none_ne_some (ap (lookup id) (sym none_locked) ∙ h));
    ends = λ r e h. absurd (none_ne_some (ap awaits (sym (all_look r)) ∙ h));
  }

  -- Whatever steps lead from a state in which all requests are about to look, and nothing is locked: two requests never
  -- hold the lock of the same ID.
  pub Steps-exclusive :
      (s t : Locker) (p q c d : ℕ)
      → s.locks ≡ []
      → ((r : ℕ) → s.phase r ≡ looking)
      → Steps name s t
      → t.phase p ≡ holding c
      → t.phase q ≡ holding d
      → name p ≡ name q
      → p ≡ q
  Steps-exclusive s t p q c d none_locked all_look steps =
      holding-exclusive name t p q c d (Steps-IsSound steps (start-IsSound s none_locked all_look))

  -- The request can come to hold its lock.
  pub CanHold : Locker → ℕ → Type 0
  CanHold s p = (t : Locker) × Steps name s t × ((c : ℕ) × (t.phase p ≡ holding c))

  Step-CanHold : {s t : Locker} (p : ℕ) → Step name s t → CanHold t p → CanHold s p
  unfolding CanHold
  Step-CanHold p step (u, steps, held) = (u, step_then step steps, held)

  apart : (s : Locker) (p q : ℕ) {a b : Phase} → s.phase p ≡ a → s.phase q ≡ b → a ≢ b → p ≢ q
  apart s p q at_p at_q other same = other (sym at_p ∙ ap s.phase same ∙ at_q)

  free-CanHold :
      (s : Locker) (p : ℕ) → s.phase p ≡ taking → lookup (name p) s.locks ≡ none → CanHold s p
  unfolding CanHold
  free-CanHold s p at free = (
    _,
    step_then (takes p at free) stay,
    (s.next_channel, updated_same p (holding s.next_channel) s.phase),
  )

  taking-CanHold : (s : Locker) (p : ℕ) → IsSound name s → s.phase p ≡ taking → CanHold s p
  taking-CanHold s p sound at = elim (Option-cases (lookup (name p) s.locks)) [
    | inl free ↦ free-CanHold s p at free
    | inr (entry, found) ↦
        let (holds, named) = sound.owned (name p) entry found in
        Step-CanHold p
          (deletes entry.owner entry.channel entry holds
            (ap (λ id. lookup id s.locks) named ∙ found))
          (free-CanHold _ p
            (updated_other entry.owner p (closing entry.channel) s.phase
                (apart s entry.owner p holds at holding_ne_taking)
              ∙ at)
            (erased (name entry.owner) (name p) s.locks named))
  ]

  closed-CanHold :
      (s : Locker) (p c : ℕ)
      → IsSound name s
      → s.phase p ≡ waiting c
      → s.closed c ≡ true
      → CanHold s p
  closed-CanHold s p c sound at closed = Step-CanHold p (wakes p c at closed) (
      taking-CanHold _ p (Step-IsSound name (wakes p c at closed) sound)
        (updated_same p taking s.phase))

  -- A request that is about to close the channel does so.
  closing-CanHold :
      (s : Locker) (p q c : ℕ)
      → IsSound name s
      → s.phase p ≡ waiting c
      → s.phase q ≡ closing c
      → CanHold s p
  closing-CanHold s p q c sound at end = Step-CanHold p (closes q c end) (
      closed-CanHold _ p c (Step-IsSound name (closes q c end) sound)
        (updated_other q p unlocked s.phase (apart s q p end at closing_ne_waiting) ∙ at)
        (updated_same c true s.closed))

  -- No request is stuck behind a lock: in a state whose entries are those of the requests with a lock, and in which
  -- nobody waits for a channel that nobody closes, steps lead from a wait to the lock.
  pub waiting-CanHold :
      (s : Locker) (p c : ℕ) → IsSound name s → s.phase p ≡ waiting c → CanHold s p
  unfolding Ends awaits
  waiting-CanHold s p c sound at = elim (sound.ends p c (ap awaits at)) [
    | inl closed ↦ closed-CanHold s p c sound at closed
    | inr (inl (q, found)) ↦
        let (holds, named) = sound.owned (name p) (record { channel = c; owner = q }) found in
        let step =
          deletes q c (record { channel = c; owner = q }) holds
            (ap (λ id. lookup id s.locks) named ∙ found) in
        Step-CanHold p step (
          closing-CanHold _ p q c (Step-IsSound name step sound)
            (updated_other q p (closing c) s.phase (apart s q p holds at holding_ne_waiting) ∙ at)
            (updated_same q (closing c) s.phase))
    | inr (inr (q, end)) ↦ closing-CanHold s p q c sound at end
  ]
