-- ===== src/Action.antt =====
-- Fallible calls over a state that they change: Go functions that return a value and an error.
use tusd.Base.{◌≡◌, refl}
use tusd.Http.{Failure, Result, ok, err}

abbrev pub M : Type 0 → Type 0 → Type 0
M St A = St → Result A × St

module _ {St : Type 0} where
  abbrev pub and_then : {A B : Type 0} → Result A × St → (A → M St B) → Result B × St
  and_then (ok a, s) f = f a s
  and_then (err e, s) f = (err e, s)

  infixl 5 ◌>>=◌ ◌>>◌
  abbrev pub ◌>>=◌ : {A B : Type 0} → M St A → (A → M St B) → M St B
  ◌>>=◌ m f s = and_then (m s) f

  abbrev pub ◌>>◌ : {B : Type 0} → M St (Unit {0}) → M St B → M St B
  ◌>>◌ m k = m >>= λ _. k

  abbrev pub pure : {A : Type 0} → A → M St A
  pure a s = (ok a, s)

  abbrev pub raise : {A : Type 0} → Failure → M St A
  raise e s = (err e, s)

  -- A call whose result does not stop the caller.
  abbrev pub returning : {A : Type 0} → (St → A × St) → M St A
  returning m s = let (a, s') = m s in (ok a, s')

  -- A chain that ends well has gone well at each of its calls.
  pub and_then-ok :
      {A B : Type 0} (p : Result A × St) (f : A → M St B) {b : B}
      → (and_then p f).0 ≡ ok b
      → (a : A) × (p.0 ≡ ok a) × (and_then p f ≡ f a p.1)
  and_then-ok (ok a, s) f h = (a, refl, refl)
  and_then-ok (err e, s) f h = cc

  pub and_then-pure :
      {A B : Type 0} (p : Result A × St) (f : A → B) → (and_then p (λ a. pure (f a))).1 ≡ p.1
  and_then-pure (ok a, s) f = refl
  and_then-pure (err e, s) f = refl
