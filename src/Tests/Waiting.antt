-- ===== src/Tests/Waiting.antt =====
-- Two requests for the lock of one upload.
use tusd.Base.{ℕ, ◌≡◌, refl, true, false, [], ◌∷◌, Bytes, text_eq}
use tusd.Base.Dict.{lookup, insert}
use tusd.MemoryLocker.Waiting.{
  Entry, looking, asking, waiting, taking, holding, Locker, updated, moves, look, looks, asks,
  takes, Steps, stay, step_then,
}
use tusd.MemoryLocker.Waiting.Sound.{IsSound}
use tusd.MemoryLocker.Waiting.Progress.{
  CanHold, Steps-IsSound, start-IsSound, Steps-exclusive, waiting-CanHold,
}

abbrev one_upload : ℕ → Bytes
one_upload p = 97 ∷ []

abbrev start : Locker
start = record {
  locks = [];
  closed = λ c. false;
  next_channel = 0;
  asked = λ p. false;
  phase = λ p. looking;
}

abbrev first_entry : Entry
first_entry = record { channel = 0; owner = 0 }

abbrev locked : Locker
locked =
    moves 0 (holding 0)
      (record (moves 0 taking start) { locks = (97 ∷ [], first_entry) ∷ []; next_channel = 1 })

abbrev contended : Locker
contended =
    moves 1 (waiting 0)
      (record (moves 1 (asking first_entry) locked) { asked = updated 0 true (λ p. false) })

start_locked : Steps one_upload start locked
unfolding look lookup insert
start_locked = step_then (looks 0 refl) (step_then (takes 0 refl refl) stay)

start_contended : Steps one_upload locked contended
unfolding look lookup text_eq
start_contended = step_then (looks 1 refl) (step_then (asks 1 first_entry refl) stay)

abbrev owner : ℕ
owner = 0

Steps-exclusive_example : owner ≡ owner
Steps-exclusive_example =
    Steps-exclusive one_upload start locked 0 0 0 0 refl (λ r. refl) start_locked refl refl refl

contended-IsSound : IsSound one_upload contended
contended-IsSound =
    Steps-IsSound one_upload start_contended
      (Steps-IsSound one_upload start_locked (start-IsSound one_upload start refl (λ p. refl)))

waiting-CanHold_example : CanHold one_upload contended 1
waiting-CanHold_example = waiting-CanHold one_upload contended 1 0 contended-IsSound refl
