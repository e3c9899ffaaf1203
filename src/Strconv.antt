-- ===== src/Strconv.antt =====
-- The parts of Go's `strconv` that the handlers use: `FormatInt(n, 10)` and `ParseInt(s, 10, 64)`.
pub mod RoundTrip
use tusd.Base.{
  ℕ, zero, suc, ◌+◌, ◌-◌, ◌*◌, ◌/◌, ◌%◌, Bool, ◌||◌, ◌&&◌, List, [], ◌∷◌, Option, none, some, Bytes,
  codes, ltb, leb, ◌==◌, if◌then◌else◌,
}
use tusd.Base.Int.{ℤ, pos, negsuc, half_range}

-- The decimal digits of `n` in front of `out`; twenty rounds are enough for 64 bits.
unfoldable pub digits : ℕ → ℕ → Bytes → Bytes
digits zero n out = out
digits (suc f) n out =
    let rest = digits f (n / 10) ((b'0' + n % 10) ∷ out) in if n == 0 then out else rest

abbrev pub max_digits : ℕ
max_digits = 20

unfoldable pub format_nat : ℕ → Bytes
format_nat n = if n == 0 then b'0' ∷ [] else digits max_digits n []

unfoldable pub format_int : ℤ → Bytes
format_int (pos n) = format_nat n
format_int (negsuc n) = b'-' ∷ format_nat (suc n)

-- A run of decimal digits, read behind the value `n`.
unfoldable pub scan : Bytes → ℕ → Option ℕ
scan [] n = some n
scan (c ∷ s) n =
    let rest = scan s (n * 10 + (c - b'0')) in if leb b'0' c && leb c b'9' then rest else none

unfoldable pub scan_number : Bytes → Option ℕ
scan_number [] = none
scan_number (c ∷ s) = scan (c ∷ s) 0

-- A value out of the range of `int64` is an error.
unfoldable pub in_range_pos : Option ℕ → Option ℤ
in_range_pos none = none
in_range_pos (some n) = if ltb n half_range then some (pos n) else none

unfoldable pub in_range_neg : Option ℕ → Option ℤ
in_range_neg none = none
in_range_neg (some zero) = some (pos 0)
in_range_neg (some (suc n)) = if ltb n half_range then some (negsuc n) else none

-- `none` stands for an error.
unfoldable pub parse_int : Bytes → Option ℤ
parse_int [] = none
parse_int (c ∷ s) =
    if c == b'-'
    then in_range_neg (scan_number s)
    else if c == b'+'
    then in_range_pos (scan_number s)
    else in_range_pos (scan_number (c ∷ s))
