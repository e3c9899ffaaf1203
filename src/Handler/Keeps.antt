-- ===== src/Handler/Keeps.antt =====
-- Invariants of handlers: one rule for each way to build an action.
use tusd.Base.{◌≡◌, refl, ◌&&◌, arith, Bool, true, false, if◌then◌else◌}
use tusd.Http.{Failure, Result, ok, err}
use tusd.DataStore.{StoreComposer}
use tusd.Handler.Monad.{World, H, ◌>>=◌, ◌>>◌, pure, fail, lift, attempt}
use tusd.Handler.Post.{require}

-- `m` keeps `P`, whether it returns or fails.
pub record Keeps {S : StoreComposer} {A : Type 0} (P : World S → Type 0) (m : H S A) : Type 0 where
  pub at : (w : World S) → P w → P (m w).1

module _ {S : StoreComposer} {A : Type 0} {P : World S → Type 0} where
  pub Keeps-pure : (a : A) → Keeps P (pure a)
  unfolding pure
  Keeps-pure a = record { at = λ w h. h }

  pub Keeps-fail : (e : Failure) → Keeps P (fail {A = A} e)
  unfolding fail
  Keeps-fail e = record { at = λ w h. h }

  pub Keeps-lift : (r : Result A) → Keeps P (lift r)
  unfolding lift
  Keeps-lift r = record { at = λ w h. h }

  pub Keeps-if : (b : Bool) (m n : H S A) → Keeps P m → Keeps P n → Keeps P (if b then m else n)
  Keeps-if true m n km kn = km
  Keeps-if false m n km kn = kn

  pub Keeps-attempt : (m : H S A) → Keeps P m → Keeps P (attempt m)
  unfolding attempt
  Keeps-attempt m km = record { at = λ w h. km.at w h }

module _ {S : StoreComposer} {P : World S → Type 0} where
  pub Keeps-require : (b : Bool) (e : Failure) → Keeps P (require b e)
  unfolding require
  Keeps-require b e = Keeps-if b _ _ (Keeps-pure tt) (Keeps-fail e)

module _ {S : StoreComposer} {A B : Type 0} {P : World S → Type 0} where
  pub Keeps-and_then :
      (r : Result A) (w : World S) (f : A → H S B)
      → ((a : A) → Keeps P (f a))
      → P w
      → P (tusd.Handler.Monad.and_then (r, w) f).1
  Keeps-and_then (ok a) w f kf h = (kf a).at w h
  Keeps-and_then (err e) w f kf h = h

  pub Keeps-bind :
      (m : H S A) (f : A → H S B) → Keeps P m → ((a : A) → Keeps P (f a)) → Keeps P (m >>= f)
  unfolding ◌>>=◌
  Keeps-bind m f km kf = record { at = λ w h. Keeps-and_then (m w).0 (m w).1 f kf (km.at w h) }

module _ {S : StoreComposer} {B : Type 0} {P : World S → Type 0} where
  pub Keeps-then : (m : H S (Unit {0})) (k : H S B) → Keeps P m → Keeps P k → Keeps P (m >> k)
  unfolding ◌>>◌
  Keeps-then m k km kk = Keeps-bind m (λ _. k) km (λ _. kk)

pub require-passed :
    {T : StoreComposer} (b : Bool) (e : Failure) → b ≡ true → require {S = T} b e ≡ pure tt
unfolding require
require-passed b e h = rw (h) refl

pub Keeps-if_and :
    {T : StoreComposer} {A : Type 0} {P : World T → Type 0} (b c : Bool) (m n : H T A)
    → c ≡ false
    → Keeps P n
    → Keeps P (if b && c then m else n)
Keeps-if_and true false m n h k = k
Keeps-if_and true true m n h k = absurd (grind arith)
Keeps-if_and false c m n h k = k

pub ruleset keeps_rules = (
  Keeps-pure, Keeps-fail, Keeps-lift, Keeps-if, Keeps-attempt, Keeps-require, Keeps-bind,
  Keeps-then,
)
