-- ===== src/Strconv/RoundTrip.antt =====
-- What `FormatInt` prints, `ParseInt` reads back.
use native.Mathlib.Nat.{pow-suc}
use tusd.Base.{
  ℕ, zero, suc, ◌+◌, ◌*◌, ◌/◌, ◌%◌, ◌^◌, ◌<◌, ◌≤◌, ◌≡◌, refl, ◌∙◌, [], ◌∷◌, some, Bytes, arith,
  ◌==◌, ap, Bool-cases, inl, inr, false,
}
use tusd.Base.Int.{ℤ, pos, negsuc, IsInt64}
use tusd.Strconv.{
  digits, max_digits, format_nat, format_int, scan, scan_number, in_range_pos, in_range_neg,
  parse_int,
}

scan_digit : (n : ℕ) (out : Bytes) → scan ((b'0' + n % 10) ∷ out) (n / 10) ≡ scan out n
unfolding scan
scan_digit n out = ground arith

tenth : (f n : ℕ) → n < 10 ^ suc f → n / 10 < 10 ^ f
tenth f n h = let h' : n < 10 ^ f * 10 = (let e = pow-suc 10 f in ground arith) in omega arith

scan-digits : (f n : ℕ) (out : Bytes) → n < 10 ^ f → scan (digits f n out) 0 ≡ scan out n
unfolding digits
scan-digits zero n out h = ground arith
scan-digits (suc f) n out h =
    ground (arith, scan_digit n out, scan-digits f (n / 10) ((b'0' + n % 10) ∷ out) (tenth f n h))

-- The first byte is a digit.
abbrev IsNumeral : Bytes → Type 0
IsNumeral [] = ⊥
IsNumeral (c ∷ s) = (b'0' ≤ c) × (c ≤ b'9')

digits-IsNumeral : (f n : ℕ) (out : Bytes) → IsNumeral out → IsNumeral (digits f n out)
unfolding digits
digits-IsNumeral zero n out h = h
digits-IsNumeral (suc f) n out h = elim (Bool-cases (n == 0)) [
  | inl e ↦ rw e h
  | inr e ↦ rw e (digits-IsNumeral f (n / 10) ((b'0' + n % 10) ∷ out) (omega arith))
]

digits-IsNumeral-suc : (f n : ℕ) (out : Bytes) → 0 < n → IsNumeral (digits (suc f) n out)
unfolding digits
digits-IsNumeral-suc f n out h =
    let e : (n == 0) ≡ false = ground arith in
    rw e (digits-IsNumeral f (n / 10) ((b'0' + n % 10) ∷ out) (omega arith))

format_nat-IsNumeral : (n : ℕ) → IsNumeral (format_nat n)
unfolding format_nat
format_nat-IsNumeral n = elim (Bool-cases (n == 0)) [
  | inl e ↦ rw e (omega arith)
  | inr e ↦ rw e (digits-IsNumeral-suc 19 n [] (ground arith))
]

scan_of_numeral : (s : Bytes) → IsNumeral s → scan_number s ≡ scan s 0
unfolding scan_number
scan_of_numeral [] h = absurd h
scan_of_numeral (c ∷ s) h = refl

scan-format_nat : (n : ℕ) → n < 10 ^ max_digits → scan (format_nat n) 0 ≡ some n
unfolding format_nat
scan-format_nat n h = elim (Bool-cases (n == 0)) [
  | inl e ↦ rw e (unfold scan in ground arith)
  | inr e ↦ rw e (scan-digits max_digits n [] h ∙ (unfold scan in refl))
]

scan_number-format_nat : (n : ℕ) → n < 10 ^ max_digits → scan_number (format_nat n) ≡ some n
scan_number-format_nat n h =
    scan_of_numeral (format_nat n) (format_nat-IsNumeral n) ∙ scan-format_nat n h

parse_of_numeral : (s : Bytes) → IsNumeral s → parse_int s ≡ in_range_pos (scan_number s)
unfolding parse_int
parse_of_numeral [] h = absurd h
parse_of_numeral (c ∷ s) h = ground arith

-- Every `int64` survives being printed and parsed.
pub parse_int-format_int : (z : ℤ) → IsInt64 z → parse_int (format_int z) ≡ some z
unfolding format_int
parse_int-format_int (pos n) h =
    parse_of_numeral (format_nat n) (format_nat-IsNumeral n)
    ∙ ap in_range_pos (scan_number-format_nat n (omega arith))
    ∙ (unfold in_range_pos in ground arith)
parse_int-format_int (negsuc n) h =
    unfold parse_int in
    ap in_range_neg (scan_number-format_nat (suc n) (omega arith))
    ∙ (unfold in_range_neg in ground arith)
