-- ===== src/MemoryLocker/Waiting/Sound.antt =====
-- What every step of the memory locker keeps: the entries are those of the requests with a lock.
pub mod Takes
pub mod Steps
use tusd.Base.{ℕ, suc, ◌≡◌, refl, true, Option, none, some, Bytes, ap, sym, ◌∙◌, subst, inl, inr}
use tusd.Base.Dict.{lookup, insert, erase}
use tusd.MemoryLocker.Waiting.{
  Entry, Phase, asking, waiting, taking, holding, refused, closing, unlocked, Locker, updated,
  moves, look, awaits, is_quiet, Ends, Step, looks, asks, gives_up, wakes, misses, takes, deletes,
  closes,
}
use tusd.MemoryLocker.Waiting.Facts.{
  updated_same, updated-cases, not_holding, not_closing, lookup-insert_cases, lookup-erase_cases,
  none_ne_some, some_inj, closing_inj, closing_ne_holding, holding_inj,
}

module _ (name : ℕ → Bytes) where
  -- The entries of the map are those of the requests with a lock, and nobody waits for a channel that nobody closes.
  pub record IsSound (s : Locker) : Type 0 where
    pub held :
        (p c : ℕ)
        → s.phase p ≡ holding c
        → lookup (name p) s.locks ≡ some (record { channel = c; owner = p })
    pub owned :
        (id : Bytes) (entry : Entry)
        → lookup id s.locks ≡ some entry
        → (s.phase entry.owner ≡ holding entry.channel) × (name entry.owner ≡ id)
    pub ends : (p c : ℕ) → awaits (s.phase p) ≡ some c → Ends s (name p) c

  -- Of two requests that hold a lock of the same ID, both are the same.
  pub holding-exclusive :
      (s : Locker) (p q c d : ℕ)
      → IsSound s
      → s.phase p ≡ holding c
      → s.phase q ≡ holding d
      → name p ≡ name q
      → p ≡ q
  holding-exclusive s p q c d sound hp hq same =
      owner_inj (sym (sound.held p c hp) ∙ ap (λ id. lookup id s.locks) same ∙ sound.held q d hq)
    where
      owner_inj : {e f : Entry} → some e ≡ some f → e.owner ≡ f.owner
      owner_inj h = cc

  pub Ends-moves :
      (s : Locker) (p : ℕ) (phase : Phase) (id : Bytes) (c : ℕ)
      → is_quiet (s.phase p) ≡ true
      → Ends s id c
      → Ends (moves p phase s) id c
  unfolding Ends
  Ends-moves s p phase id c quiet (inl closed) = inl closed
  Ends-moves s p phase id c quiet (inr (inl entry)) = inr (inl entry)
  Ends-moves s p phase id c quiet (inr (inr (q, e))) = elim (updated-cases p q phase s.phase) [
    | inl (same, h) ↦ absurd (not_closing (s.phase p) quiet (ap s.phase same ∙ e))
    | inr (other, h) ↦ inr (inr (q, h ∙ e))
  ]

  -- A request that has no lock moves on, and waits for a channel that ends, if it does.
  pub moves-IsSound :
      (s : Locker) (p : ℕ) (phase : Phase)
      → IsSound s
      → is_quiet (s.phase p) ≡ true
      → is_quiet phase ≡ true
      → ((c : ℕ) → awaits phase ≡ some c → Ends s (name p) c)
      → IsSound (moves p phase s)
  moves-IsSound s p phase sound quiet quiet' waits = record {
    held = λ q c h. elim (updated-cases p q phase s.phase) [
      | inl (same, e) ↦ absurd (not_holding phase quiet' (sym e ∙ h))
      | inr (other, e) ↦ sound.held q c (sym e ∙ h)
    ];
    owned = λ id entry h. elim (updated-cases p entry.owner phase s.phase) [
      | inl (same, e) ↦
          absurd (not_holding (s.phase p) quiet (ap s.phase same ∙ (sound.owned id entry h).0))
      | inr (other, e) ↦ (e ∙ (sound.owned id entry h).0, (sound.owned id entry h).1)
    ];
    ends = λ q c h. Ends-moves s p phase (name q) c quiet (elim (updated-cases p q phase s.phase) [
      | inl (same, e) ↦ subst (λ r. Ends s (name r) c) same (waits c (ap awaits (sym e) ∙ h))
      | inr (other, e) ↦ sound.ends q c (ap awaits (sym e) ∙ h)
    ]);
  }
