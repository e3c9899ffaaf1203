-- ===== src/S3/PartSize.antt =====
-- `calcOptimalPartSize` of pkg/s3store/s3store.go. All sizes are non-negative `int64` values.
use tusd.Base.{
  ℕ, ◌+◌, ◌-◌, ◌*◌, ◌/◌, ◌%◌, ◌≤◌, ◌<◌, ◌≡◌, ◌↔◌, Bool, Option, none, some, arith, leb, ltb, ◌==◌,
  if◌then◌else◌,
}
use native.Mathlib.Nat.{mul-le-mul_right}
use tusd.Base.Int.{half_range}

-- The limits of an `S3Store`.
pub record PartLimits : Type 0 where
  pub max_part_size : ℕ
  pub min_part_size : ℕ
  pub preferred_part_size : ℕ
  pub max_multipart_parts : ℕ
  pub max_object_size : ℕ

-- `New`
abbrev pub default_limits : PartLimits
default_limits = record {
  max_part_size = 5 * 1024 * 1024 * 1024;
  min_part_size = 5 * 1024 * 1024;
  preferred_part_size = 50 * 1024 * 1024;
  max_multipart_parts = 10000;
  max_object_size = 5 * 1024 * 1024 * 1024 * 1024;
}

pub record PartSize : Type 0 where
  pub size : ℕ
  pub too_large : Bool

-- The product wraps like `int64`; a wrapped product that is negative exceeds no size.
unfoldable pub wrapped_product : ℕ → ℕ → Option ℕ
wrapped_product a b =
    let p = (a * b) % (2 * half_range) in if ltb p half_range then some p else none

unfoldable pub at_most : ℕ → Option ℕ → Bool
at_most size none = Bool.false
at_most size (some limit) = leb size limit

-- The cases of the `switch`.
unfoldable pub choose_part_size : PartLimits → ℕ → ℕ
choose_part_size store size =
    if leb size store.preferred_part_size
    then store.preferred_part_size
    else if at_most size (wrapped_product store.preferred_part_size store.max_multipart_parts)
    then store.preferred_part_size
    else if size % store.max_multipart_parts == 0
    then size / store.max_multipart_parts
    else size / store.max_multipart_parts + 1

-- The optimal part size, and whether it comes with an error.
unfoldable pub calc_optimal_part_size : PartLimits → ℕ → PartSize
calc_optimal_part_size store size =
    let optimal = choose_part_size store size in
    record { size = optimal; too_large = ltb store.max_part_size optimal }

choose_part_size-fits :
    (store : PartLimits) (size : ℕ)
    → 0 < store.max_multipart_parts
    → store.preferred_part_size * store.max_multipart_parts < half_range
    → size ≤ choose_part_size store size * store.max_multipart_parts
unfolding choose_part_size at_most wrapped_product
choose_part_size-fits store size h k = grind arith

pub choose_part_size-preferred :
    (store : PartLimits) (size : ℕ)
    → 0 < store.max_multipart_parts
    → store.preferred_part_size * store.max_multipart_parts < half_range
    → store.preferred_part_size ≤ choose_part_size store size
unfolding choose_part_size at_most wrapped_product
choose_part_size-preferred store size h k = grind arith

mul_le_mono : (a d m : ℕ) → a * m ≤ (a + d) * m
mul_le_mono a d m = omega arith

pub lt_of_mul_lt : (a b m : ℕ) → a * m < b * m → a < b
lt_of_mul_lt a b m h = grind (arith, mul_le_mono b (a - b) m)

div_le : (n k m : ℕ) → 0 < m → n ≤ k * m → n / m ≤ k
div_le n k m h l = omega (arith, lt_of_mul_lt (n / m) (k + 1) m (omega arith))

div_lt : (n k m : ℕ) → 0 < n % m → n ≤ k * m → n / m < k
div_lt n k m r l = lt_of_mul_lt (n / m) k m (omega arith)

choose_part_size-least :
    (store : PartLimits) (size part : ℕ)
    → 0 < store.max_multipart_parts
    → store.preferred_part_size * store.max_multipart_parts < half_range
    → store.preferred_part_size ≤ part
    → size ≤ part * store.max_multipart_parts
    → choose_part_size store size ≤ part
unfolding choose_part_size at_most wrapped_product
choose_part_size-least store size part h k p f = grind (
  arith,
  div_le size part store.max_multipart_parts h f,
  div_lt size part store.max_multipart_parts,
)

-- With at least one part allowed, and a product of preferred size and number of parts that is an `int64`:
-- the whole upload fits into the permitted number of parts of the chosen size, the chosen size is not below
-- the preferred one, and an error comes with it exactly when no size up to the maximum would do, where the
-- preferred size is not above the maximum.
pub calc_optimal_part_size-optimal :
    (store : PartLimits) (size : ℕ)
    → 0 < store.max_multipart_parts
    → store.preferred_part_size * store.max_multipart_parts < half_range
    → store.preferred_part_size ≤ store.max_part_size
    → (size ≤ (calc_optimal_part_size store size).size * store.max_multipart_parts)
      × (store.preferred_part_size ≤ (calc_optimal_part_size store size).size)
      × (((calc_optimal_part_size store size).too_large ≡ Bool.false)
          ↔ (size ≤ store.max_part_size * store.max_multipart_parts))
unfolding calc_optimal_part_size
calc_optimal_part_size-optimal store size h k m = (
  choose_part_size-fits store size h k,
  choose_part_size-preferred store size h k,
  (
    (λ fits. grind (
      arith,
      choose_part_size-fits store size h k,
      mul-le-mul_right {m = choose_part_size store size} {n = store.max_part_size}
          store.max_multipart_parts,
    )),
    (λ fits. grind (arith, choose_part_size-least store size store.max_part_size h k m fits)),
  ),
)
