-- ===== src/S3/Write/Room.antt =====
-- How many files the part producer makes of a source, and how large they are.
use tusd.Base.{ℕ, ◌+◌, ◌*◌, ◌≤◌, ◌<◌, ◌≡◌, List, [], ◌∷◌, Bytes, arith, ap, length, length-append}
use tusd.Base.Int.{ℤ}
use tusd.Http.{ok}
use tusd.BodyReader.{flatten}
use tusd.S3.PartSize.{calc_optimal_part_size, lt_of_mul_lt}
use tusd.S3.Producer.{Produced}
use tusd.S3.Upload.{S3Store}
use tusd.S3.Write.{part_size}
use tusd.S3.Write.Cut.{IsCut, HasCut}

-- No file is larger than a part may be.
unfoldable pub AllShort : ℕ → List Bytes → Type 0
AllShort max [] = Unit {0}
AllShort max (file ∷ files) = (length file ≤ max) × AllShort max files

pub IsCut-AllShort :
    (size max : ℕ) (files : List Bytes) → IsCut size files → size ≤ max → AllShort max files
unfolding IsCut AllShort
IsCut-AllShort size max [] c l = tt
IsCut-AllShort size max (file ∷ []) c l = (omega (arith, c.1), tt)
IsCut-AllShort size max (file ∷ next ∷ files) c l =
    (omega (arith, c.0), IsCut-AllShort size max (next ∷ files) c.1 l)

-- All files but the last are full.
IsCut-few :
    (size : ℕ) (files : List Bytes)
    → IsCut size files
    → 0 < size
    → length files * size < length (flatten files) + size
unfolding IsCut flatten
IsCut-few size [] c l = omega arith
IsCut-few size (file ∷ []) c l = omega (arith, c.0, length-append file [])
IsCut-few size (file ∷ next ∷ files) c l =
    omega
      (arith, c.0, length-append file (flatten (next ∷ files)), IsCut-few size (next ∷ files) c.1 l)

-- Where as many parts of the size as there are leave room for a source, its files have permitted numbers.
pub files_fit :
    (count max size : ℕ) (source : Bytes) (p : Produced)
    → 0 < size
    → HasCut size source p
    → count * size + length source ≤ max * size
    → count + length p.files ≤ max
unfolding HasCut
files_fit count max size source p l (whole, cut) room =
    let few = IsCut-few size p.files cut l in
    omega (
      arith,
      lt_of_mul_lt (count + length p.files) (max + 1) size
          (omega (arith, few, room, ap length whole)),
    )

pub part_size-le :
    (store : S3Store) (total : ℤ) {size : ℕ}
    → part_size store total ≡ ok size
    → size ≤ store.limits.max_part_size
unfolding part_size calc_optimal_part_size
part_size-le store total h = ground arith

pub HasCut-IsCut :
    (size : ℕ) (source : Bytes) (p : Produced) → HasCut size source p → IsCut size p.files
unfolding HasCut
HasCut-IsCut size source p h = h.1
