-- ===== src/MemoryLocker/Waiting/Sound/Takes.antt =====
-- A request that takes the lock keeps the entries as those of the requests with a lock.
use tusd.Base.{ℕ, suc, ◌≡◌, refl, none, some, Bytes, ap, sym, ◌∙◌, subst, inl, inr}
use tusd.Base.Dict.{lookup, insert}
use tusd.MemoryLocker.Waiting.{
  Entry, taking, holding, Locker, updated, moves, awaits, is_quiet, Ends,
}
use tusd.MemoryLocker.Waiting.Facts.{
  updated_same, updated-cases, not_closing, lookup-insert_cases, none_ne_some, some_inj,
  holding_inj,
}
use tusd.MemoryLocker.Waiting.Sound.{IsSound}

module _ (name : ℕ → Bytes) where
  -- A request that takes the lock.
  module _ (s : Locker) (p : ℕ) (sound : IsSound name s) (at : s.phase p ≡ taking)
      (free : lookup (name p) s.locks ≡ none) where
    unfoldable pub entry_of : Entry
    entry_of = record { channel = s.next_channel; owner = p }

    unfoldable pub after_taking : Locker
    after_taking =
        moves p (holding s.next_channel)
          (record s { locks = insert (name p) entry_of s.locks; next_channel = suc s.next_channel })

    Ends-takes : (id : Bytes) (c : ℕ) → Ends s id c → Ends after_taking id c
    unfolding Ends after_taking is_quiet
    Ends-takes id c (inl closed) = inl closed
    Ends-takes id c (inr (inl (r, found))) =
        elim (lookup-insert_cases (name p) id entry_of s.locks) [
          | inl (same, l) ↦
              absurd (none_ne_some (sym free ∙ ap (λ i. lookup i s.locks) same ∙ found))
          | inr (other, l) ↦ inr (inl (r, l ∙ found))
        ]
    Ends-takes id c (inr (inr (r, end))) =
        elim (updated-cases p r (holding s.next_channel) s.phase) [
          | inl (same, e) ↦ absurd (not_closing taking refl (sym at ∙ ap s.phase same ∙ end))
          | inr (other, e) ↦ inr (inr (r, e ∙ end))
        ]

    pub takes-IsSound : IsSound name after_taking
    unfolding after_taking entry_of awaits
    takes-IsSound = record {
      held = λ q c h. elim (updated-cases p q (holding s.next_channel) s.phase) [
        | inl (same, e) ↦
            subst
              (λ r.
                lookup (name r) (insert (name p) entry_of s.locks)
                ≡ some (record { channel = c; owner = r }))
              same
              (elim (lookup-insert_cases (name p) (name p) entry_of s.locks) [
                | inl (same, l) ↦
                    l ∙ ap (λ n. some (record { channel = n; owner = p })) (holding_inj (sym e ∙ h))
                | inr (other, l) ↦ absurd (other refl)
              ])
        | inr (other, e) ↦
            let found = sound.held q c (sym e ∙ h) in
            elim (lookup-insert_cases (name p) (name q) entry_of s.locks) [
              | inl (same, l) ↦
                  absurd (none_ne_some (sym free ∙ ap (λ i. lookup i s.locks) same ∙ found))
              | inr (other, l) ↦ l ∙ found
            ]
      ];
      owned = λ id entry h. elim (lookup-insert_cases (name p) id entry_of s.locks) [
        | inl (same, l) ↦
            subst
              (λ x.
                (updated p (holding s.next_channel) s.phase x.owner ≡ holding x.channel)
                × (name x.owner ≡ id))
              (some_inj (sym l ∙ h)) (updated_same p (holding s.next_channel) s.phase, same)
        | inr (other, l) ↦
            let (at_owner, named) = sound.owned id entry (sym l ∙ h) in
            elim (updated-cases p entry.owner (holding s.next_channel) s.phase) [
              | inl (same, e) ↦ absurd (other (ap name same ∙ named))
              | inr (apart, e) ↦ (e ∙ at_owner, named)
            ]
      ];
      ends = λ q c h. elim (updated-cases p q (holding s.next_channel) s.phase) [
        | inl (same, e) ↦ absurd (none_ne_some (ap awaits (sym e) ∙ h))
        | inr (other, e) ↦ Ends-takes (name q) c (sound.ends q c (ap awaits (sym e) ∙ h))
      ];
    }
