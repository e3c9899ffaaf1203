-- ===== src/S3/Write/Cut.antt =====
-- The files that the part producer makes of a source.
use tusd.Base.{
  ℕ, zero, suc, ◌≤◌, ◌<◌, ◌≡◌, refl, List, [], ◌∷◌, ◌++◌, Option, none, some, Bytes, arith, ap, sym,
  ◌∙◌, subst, length, take, drop, take-append-drop, length-take, length-drop, length-append,
}
use tusd.Http.{Failure}
use tusd.BodyReader.{flatten}
use tusd.S3.Producer.{later_faults, Produced, add_file, produce, produce_rounds}

-- All but the last of the files have `size` bytes, and the last has 1 to `size`.
unfoldable pub IsCut : ℕ → List Bytes → Type 0
IsCut size [] = Unit {0}
IsCut size (file ∷ []) = (0 < length file) × (length file ≤ size)
IsCut size (file ∷ next ∷ files) = (length file ≡ size) × IsCut size (next ∷ files)

-- A round without a fault takes one file off the source.
produce_rounds-file :
    (rounds size b : ℕ) (source : Bytes) (disk : List (Option Failure))
    → (produce_rounds (suc rounds) (suc size) (b ∷ source) disk).error ≡ none
    → produce_rounds (suc rounds) (suc size) (b ∷ source) disk
      ≡ add_file
          (b ∷ take size source)
          (produce_rounds rounds (suc size) (drop size source) (later_faults disk))
unfolding produce_rounds
produce_rounds-file rounds size b source [] e = refl
produce_rounds-file rounds size b source (none ∷ disk) e = refl
produce_rounds-file rounds size b source (some f ∷ disk) e = cc

produce_rounds-end :
    (rounds size : ℕ) (disk : List (Option Failure))
    → (produce_rounds (suc rounds) (suc size) [] disk).files ≡ []
unfolding produce_rounds
produce_rounds-end rounds size [] = refl
produce_rounds-end rounds size (none ∷ disk) = refl
produce_rounds-end rounds size (some f ∷ disk) = refl

first_nonempty :
    (size : ℕ) (file : Bytes) (files : List Bytes)
    → IsCut (suc size) (file ∷ files)
    → 0 < length file
unfolding IsCut
first_nonempty size file [] c = c.0
first_nonempty size file (next ∷ files) c = omega (arith, c.0)

add_IsCut :
    (size b : ℕ) (source : Bytes) (files : List Bytes)
    → IsCut (suc size) files
    → flatten files ≡ drop size source
    → IsCut (suc size) ((b ∷ take size source) ∷ files)
unfolding IsCut flatten
add_IsCut size b source [] c e = (omega arith, omega (arith, length-take size source))
add_IsCut size b source (file ∷ files) c e =
    (omega (arith, length-take size source, rest, length-drop size source), c)
  where
    rest : 0 < length (drop size source)
    rest =
        omega
          (arith, ap length e, length-append file (flatten files), first_nonempty size file files c)

-- All of the source is in the files, which are cut.
unfoldable pub HasCut : ℕ → Bytes → Produced → Type 0
HasCut size source p = (flatten p.files ≡ source) × IsCut size p.files

add_HasCut :
    (size b : ℕ) (source : Bytes) (p q : Produced)
    → q ≡ add_file (b ∷ take size source) p
    → HasCut (suc size) (drop size source) p
    → HasCut (suc size) (b ∷ source) q
unfolding HasCut flatten
add_HasCut size b source p q e (whole, cut) = subst (HasCut (suc size) (b ∷ source)) (sym e) (
  ap (λ r. b ∷ (take size source ++ r)) whole ∙ ap (λ r. b ∷ r) (take-append-drop size source),
  add_IsCut size b source p.files cut whole,
)

produce_rounds-HasCut :
    (rounds size : ℕ) (source : Bytes) (disk : List (Option Failure))
    → length source < rounds
    → (produce_rounds rounds (suc size) source disk).error ≡ none
    → HasCut (suc size) source (produce_rounds rounds (suc size) source disk)
unfolding HasCut flatten IsCut
produce_rounds-HasCut zero size source disk l e = absurd (omega arith)
produce_rounds-HasCut (suc rounds) size [] disk l e =
    rw (produce_rounds-end rounds size disk) (refl, tt)
produce_rounds-HasCut (suc rounds) size (b ∷ source) disk l e =
    let step = produce_rounds-file rounds size b source disk e in
    add_HasCut size b source _ _ step (
      produce_rounds-HasCut rounds size (drop size source) (later_faults disk)
        (omega (arith, length-drop size source)) (sym (ap (λ p. p.error) step) ∙ e))

-- A producer that ends without an error has cut all of the source.
pub produce-HasCut :
    (size : ℕ) (source : Bytes) (disk : List (Option Failure))
    → 0 < size
    → (produce size source disk).error ≡ none
    → HasCut size source (produce size source disk)
unfolding produce
produce-HasCut zero source disk h e = absurd (omega arith)
produce-HasCut (suc size) source disk h e =
    produce_rounds-HasCut (suc (length source)) size source disk (omega arith) e

-- With no faults it ends without one.
produce_rounds-error :
    (rounds size : ℕ) (source : Bytes) → (produce_rounds rounds size source []).error ≡ none
unfolding produce_rounds
produce_rounds-error zero size source = refl
produce_rounds-error (suc rounds) zero source = refl
produce_rounds-error (suc rounds) (suc size) [] = refl
produce_rounds-error (suc rounds) (suc size) (b ∷ source) =
    produce_rounds-error rounds (suc size) (drop size source)

pub produce-error : (size : ℕ) (source : Bytes) → (produce size source []).error ≡ none
unfolding produce
produce-error size source = produce_rounds-error (suc (length source)) size source
