-- ===== src/Ids/Trim.antt =====
-- Trimming: the result has nothing to trim at either end, and text that has nothing is unchanged.
use tusd.Base.{
  ℕ, Bool, true, false, ◌&&◌, [], ◌∷◌, ◌≡◌, refl, ◌∙◌, ap, Bytes, arith, is_empty, Bool-cases, inl,
  inr,
}
use tusd.Ids.{trim, trim_left, trim_right}

-- The first byte, if there is one, fails the test.
abbrev pub CleanStart : (ℕ → Bool) → Bytes → Type 0
CleanStart p [] = Unit
CleanStart p (c ∷ s) = p c ≡ false

-- The last byte, if there is one, fails the test.
abbrev pub CleanEnd : (ℕ → Bool) → Bytes → Type 0
CleanEnd p [] = Unit
CleanEnd p (c ∷ []) = p c ≡ false
CleanEnd p (c ∷ (d ∷ s)) = CleanEnd p (d ∷ s)

module _ (p : ℕ → Bool) where
  pub trim_left_clean : (s : Bytes) → CleanStart p s → trim_left p s ≡ s
  unfolding trim_left
  trim_left_clean [] h = refl
  trim_left_clean (c ∷ s) h = rw h

  pub trim_right_clean : (s : Bytes) → CleanEnd p s → trim_right p s ≡ s
  unfolding trim_right is_empty
  trim_right_clean [] h = refl
  trim_right_clean (c ∷ []) h = rw h
  trim_right_clean (c ∷ (d ∷ s)) h = rw (trim_right_clean (d ∷ s) h) (ground arith)

  pub trim_clean : (s : Bytes) → CleanStart p s → CleanEnd p s → trim p s ≡ s
  trim_clean s h k = ap (trim_right p) (trim_left_clean s h) ∙ trim_right_clean s k

  pub CleanStart-trim_left : (s : Bytes) → CleanStart p (trim_left p s)
  unfolding trim_left
  CleanStart-trim_left [] = tt
  CleanStart-trim_left (c ∷ s) = elim (Bool-cases (p c)) [
    | inl e ↦ rw e (CleanStart-trim_left s)
    | inr e ↦ rw e e
  ]

  CleanEnd-cons :
      (c : ℕ) (s : Bytes) → CleanEnd p s → (is_empty s ≡ true → p c ≡ false) → CleanEnd p (c ∷ s)
  unfolding is_empty
  CleanEnd-cons c [] h k = k refl
  CleanEnd-cons c (d ∷ s) h k = h

  pub CleanEnd-trim_right : (s : Bytes) → CleanEnd p (trim_right p s)
  unfolding trim_right
  CleanEnd-trim_right [] = tt
  CleanEnd-trim_right (c ∷ s) = elim (Bool-cases (p c && is_empty (trim_right p s))) [
    | inl e ↦ rw e tt
    | inr e ↦ rw e (CleanEnd-cons c (trim_right p s) (CleanEnd-trim_right s) (λ k. ground arith))
  ]

  CleanStart-trim_right : (s : Bytes) → CleanStart p s → CleanStart p (trim_right p s)
  unfolding trim_right
  CleanStart-trim_right [] h = tt
  CleanStart-trim_right (c ∷ s) h = rw h h

  pub CleanStart-trim : (s : Bytes) → CleanStart p (trim p s)
  CleanStart-trim s = CleanStart-trim_right (trim_left p s) (CleanStart-trim_left s)

  -- Trimming twice is trimming once.
  pub trim_idem : (s : Bytes) → trim p (trim p s) ≡ trim p s
  trim_idem s = trim_clean (trim p s) (CleanStart-trim s) (CleanEnd-trim_right (trim_left p s))
