-- ===== src/Metadata/Base64.antt =====
-- `base64.StdEncoding`: groups of four characters for three bytes, with padding.
use tusd.Base.{
  ℕ, ◌+◌, ◌-◌, ◌*◌, ◌/◌, ◌%◌, ◌&&◌, ◌||◌, [], ◌∷◌, ◌++◌, Option, none, some, Bytes, ltb, leb, ◌==◌,
  if◌then◌else◌,
}

abbrev pub padding : ℕ
padding = b'='

unfoldable pub encode_sextet : ℕ → ℕ
encode_sextet v =
    if ltb v 26
    then v + b'A'
    else if ltb v 52
    then v + 71
    else if ltb v 62
    then v - 4
    else if v == 62
    then b'+'
    else b'/'

unfoldable pub decode_sextet : ℕ → Option ℕ
decode_sextet c =
    if leb b'A' c && leb c b'Z'
    then some (c - b'A')
    else if leb b'a' c && leb c b'z'
    then some (c - 71)
    else if leb b'0' c && leb c b'9'
    then some (c + 4)
    else if c == b'+'
    then some 62
    else if c == b'/'
    then some 63
    else none

unfoldable pub encode : Bytes → Bytes
encode [] = []
encode (a ∷ []) = encode_sextet (a / 4) ∷ (encode_sextet (a % 4 * 16) ∷ (padding ∷ (padding ∷ [])))
encode (a ∷ (b ∷ [])) =
    encode_sextet (a / 4)
    ∷ (encode_sextet (a % 4 * 16 + b / 16) ∷ (encode_sextet (b % 16 * 4) ∷ (padding ∷ [])))
encode (a ∷ (b ∷ (c ∷ s))) =
    encode_sextet (a / 4)
    ∷ (encode_sextet (a % 4 * 16 + b / 16)
        ∷ (encode_sextet (b % 16 * 4 + c / 64) ∷ (encode_sextet (c % 64) ∷ encode s)))

-- Line breaks are skipped.
unfoldable pub without_breaks : Bytes → Bytes
without_breaks [] = []
without_breaks (c ∷ s) =
    let rest = without_breaks s in if c == 10 || c == 13 then rest else c ∷ rest

abbrev pub join : Option ℕ → Option ℕ → Option (ℕ × ℕ)
join (some v) (some w) = some (v, w)
join _ _ = none

-- The last group: one byte, two bytes or three.
unfoldable pub decode_last : ℕ → ℕ → ℕ → ℕ → Option Bytes
decode_last a b c d =
    if c == padding && d == padding
    then elim (join (decode_sextet a) (decode_sextet b)) [
      | none ↦ none
      | some (v, w) ↦ some ((v * 4 + w / 16) ∷ [])
    ]
    else elim (join (decode_sextet a) (decode_sextet b)) [
      | none ↦ none
      | some (v, w) ↦ elim (decode_sextet c) [
        | none ↦ none
        | some x ↦
            if d == padding
            then some ((v * 4 + w / 16) ∷ ((w % 16 * 16 + x / 4) ∷ []))
            else elim (decode_sextet d) [
              | none ↦ none
              | some y ↦ some ((v * 4 + w / 16) ∷ ((w % 16 * 16 + x / 4) ∷ ((x % 4 * 64 + y) ∷ [])))
            ]
      ]
    ]

-- A group with another one behind it has no padding.
unfoldable pub decode_group : ℕ → ℕ → ℕ → ℕ → Option Bytes
decode_group a b c d = if c == padding || d == padding then none else decode_last a b c d

abbrev pub append_both : Option Bytes → Option Bytes → Option Bytes
append_both (some s) (some t) = some (s ++ t)
append_both _ _ = none

unfoldable pub decode_groups : Bytes → Option Bytes
decode_groups [] = some []
decode_groups (a ∷ (b ∷ (c ∷ (d ∷ [])))) = decode_last a b c d
decode_groups (a ∷ (b ∷ (c ∷ (d ∷ (e ∷ s))))) =
    append_both (decode_group a b c d) (decode_groups (e ∷ s))
decode_groups _ = none

unfoldable pub decode : Bytes → Option Bytes
decode s = decode_groups (without_breaks s)
