-- ===== src/MemoryLocker/Waiting/Sound/Steps.antt =====
-- Every step of the memory locker keeps the entries as those of the requests with a lock.
use tusd.Base.{ℕ, ◌≡◌, refl, true, Option, none, some, Bytes, ap, sym, ◌∙◌, inl, inr}
use tusd.Base.Dict.{lookup, erase}
use tusd.MemoryLocker.Waiting.{
  Entry, Phase, asking, waiting, taking, holding, refused, closing, unlocked, Locker, updated,
  moves, look, awaits, is_quiet, Ends, Step, looks, asks, gives_up, wakes, misses, takes, deletes,
  closes,
}
use tusd.MemoryLocker.Waiting.Facts.{
  updated_same, updated-cases, not_holding, lookup-erase_cases, none_ne_some, some_inj, closing_inj,
  closing_ne_holding,
}
use tusd.MemoryLocker.Waiting.Sound.{IsSound, holding-exclusive, moves-IsSound}
use tusd.MemoryLocker.Waiting.Sound.Takes.{entry_of, after_taking, takes-IsSound}

module _ (name : ℕ → Bytes) where
  -- A request that deletes its entry.
  module _ (s : Locker) (p c : ℕ) (entry : Entry) (sound : IsSound name s)
      (at : s.phase p ≡ holding c) (found : lookup (name p) s.locks ≡ some entry) where
    after_deleting : Locker
    after_deleting = moves p (closing entry.channel) (record s { locks = erase (name p) s.locks })

    Ends-deletes : (id : Bytes) (d : ℕ) → Ends s id d → Ends after_deleting id d
    unfolding Ends after_deleting
    Ends-deletes id d (inl closed) = inl closed
    Ends-deletes id d (inr (inl (r, there))) = elim (lookup-erase_cases (name p) id s.locks) [
      | inl (same, l) ↦ inr (
          inr (
            p,
            updated_same p (closing entry.channel) s.phase
                ∙ ap (λ x. closing x.channel)
                    (some_inj (sym found ∙ ap (λ i. lookup i s.locks) same ∙ there)),
          ))
      | inr (other, l) ↦ inr (inl (r, l ∙ there))
    ]
    Ends-deletes id d (inr (inr (r, end))) =
        elim (updated-cases p r (closing entry.channel) s.phase) [
          | inl (same, e) ↦ absurd (closing_ne_holding (sym end ∙ ap s.phase (sym same) ∙ at))
          | inr (other, e) ↦ inr (inr (r, e ∙ end))
        ]

    deletes-IsSound : IsSound name after_deleting
    unfolding after_deleting awaits
    deletes-IsSound = record {
      held = λ q d h. elim (updated-cases p q (closing entry.channel) s.phase) [
        | inl (same, e) ↦ absurd (closing_ne_holding (sym e ∙ h))
        | inr (other, e) ↦ elim (lookup-erase_cases (name p) (name q) s.locks) [
          | inl (same, l) ↦
              absurd (other (holding-exclusive name s p q c d sound at (sym e ∙ h) same))
          | inr (apart, l) ↦ l ∙ sound.held q d (sym e ∙ h)
        ]
      ];
      owned = λ id x h. elim (lookup-erase_cases (name p) id s.locks) [
        | inl (same, l) ↦ absurd (none_ne_some (sym l ∙ h))
        | inr (other, l) ↦
            let (at_owner, named) = sound.owned id x (sym l ∙ h) in
            elim (updated-cases p x.owner (closing entry.channel) s.phase) [
              | inl (same, e) ↦ absurd (other (ap name same ∙ named))
              | inr (apart, e) ↦ (e ∙ at_owner, named)
            ]
      ];
      ends = λ q d h. elim (updated-cases p q (closing entry.channel) s.phase) [
        | inl (same, e) ↦ absurd (none_ne_some (ap awaits (sym e) ∙ h))
        | inr (other, e) ↦ Ends-deletes (name q) d (sound.ends q d (ap awaits (sym e) ∙ h))
      ];
    }

  -- A request that closes its channel.
  module _ (s : Locker) (p c : ℕ) (sound : IsSound name s) (at : s.phase p ≡ closing c) where
    after_closing : Locker
    after_closing = moves p unlocked (record s { closed = updated c true s.closed })

    Ends-closes : (id : Bytes) (d : ℕ) → Ends s id d → Ends after_closing id d
    unfolding Ends after_closing
    Ends-closes id d (inl closed) = elim (updated-cases c d true s.closed) [
      | inl (same, e) ↦ inl e
      | inr (other, e) ↦ inl (e ∙ closed)
    ]
    Ends-closes id d (inr (inl there)) = inr (inl there)
    Ends-closes id d (inr (inr (r, end))) = elim (updated-cases p r unlocked s.phase) [
      | inl (same, e) ↦ inl (
          ap (updated c true s.closed) (closing_inj (sym end ∙ ap s.phase (sym same) ∙ at))
          ∙ updated_same c true s.closed)
      | inr (other, e) ↦ inr (inr (r, e ∙ end))
    ]

    closes-IsSound : IsSound name after_closing
    unfolding after_closing awaits is_quiet
    closes-IsSound = record {
      held = λ q d h. elim (updated-cases p q unlocked s.phase) [
        | inl (same, e) ↦ absurd (not_holding unlocked refl (sym e ∙ h))
        | inr (other, e) ↦ sound.held q d (sym e ∙ h)
      ];
      owned = λ id x h.
          let (at_owner, named) = sound.owned id x h in
          elim (updated-cases p x.owner unlocked s.phase) [
            | inl (same, e) ↦ absurd (closing_ne_holding (sym at ∙ ap s.phase same ∙ at_owner))
            | inr (apart, e) ↦ (e ∙ at_owner, named)
          ];
      ends = λ q d h. elim (updated-cases p q unlocked s.phase) [
        | inl (same, e) ↦ absurd (none_ne_some (ap awaits (sym e) ∙ h))
        | inr (other, e) ↦ Ends-closes (name q) d (sound.ends q d (ap awaits (sym e) ∙ h))
      ];
    }

  pub quiet_at :
      (s : Locker) (p : ℕ) {phase : Phase}
      → s.phase p ≡ phase
      → is_quiet phase ≡ true
      → is_quiet (s.phase p) ≡ true
  quiet_at s p e h = ap is_quiet e ∙ h

  Ends-found :
      (s : Locker) (id : Bytes) (entry : Entry) (c : ℕ)
      → lookup id s.locks ≡ some entry
      → awaits (asking entry) ≡ some c
      → Ends s id c
  unfolding Ends awaits
  Ends-found s id entry c found h = inr (
      inl (
        entry.owner,
        found ∙ ap (λ n. some (record { channel = n; owner = entry.owner })) (some_inj h),
      ))

  look-quiet : (o : Option Entry) → is_quiet (look o) ≡ true
  unfolding look is_quiet
  look-quiet none = refl
  look-quiet (some entry) = refl

  look-Ends :
      (s : Locker) (id : Bytes) (o : Option Entry) (c : ℕ)
      → lookup id s.locks ≡ o
      → awaits (look o) ≡ some c
      → Ends s id c
  unfolding look awaits
  look-Ends s id none c e h = absurd (none_ne_some h)
  look-Ends s id (some entry) c e h = Ends-found s id entry c e h

  -- Every step keeps the entries of the map to those of the requests with a lock, and keeps it so that a request only
  -- waits for a channel that is closed, or that a request with the lock will close.
  pub Step-IsSound : {s t : Locker} → Step name s t → IsSound name s → IsSound name t
  unfolding is_quiet awaits Ends after_taking entry_of after_deleting after_closing
  Step-IsSound (looks {s} p at) sound =
      moves-IsSound name s p (look (lookup (name p) s.locks)) sound (quiet_at s p at refl)
        (look-quiet (lookup (name p) s.locks))
        (λ c h. look-Ends s (name p) (lookup (name p) s.locks) c refl h)
  Step-IsSound (asks {s} p entry at) sound =
      moves-IsSound name (record s { asked = updated entry.owner true s.asked }) p
        (waiting entry.channel)
        (record { held = sound.held; owned = sound.owned; ends = sound.ends })
        (quiet_at s p at refl) refl (λ c h. sound.ends p c (ap awaits at ∙ h))
  Step-IsSound (gives_up {s} p c at) sound =
      moves-IsSound name s p refused sound (quiet_at s p at refl) refl
        (λ c h. absurd (none_ne_some h))
  Step-IsSound (wakes {s} p c at closed) sound =
      moves-IsSound name s p taking sound (quiet_at s p at refl) refl
        (λ c h. absurd (none_ne_some h))
  Step-IsSound (misses {s} p entry at found) sound =
      moves-IsSound name s p (asking entry) sound (quiet_at s p at refl) refl
        (λ c h. Ends-found s (name p) entry c found h)
  Step-IsSound (takes {s} p at free) sound = takes-IsSound name s p sound at free
  Step-IsSound (deletes {s} p c entry at found) sound = deletes-IsSound s p c entry sound at found
  Step-IsSound (closes {s} p c at) sound = closes-IsSound s p c sound at
