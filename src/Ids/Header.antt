-- ===== src/Ids/Header.antt =====
-- The `Upload-Concat` header that HEAD sends for a final upload, read back by `parseConcat`.
use tusd.Base.{
  ℕ, ◌<◌, true, false, List, [], ◌∷◌, ◌++◌, ◌≡◌, refl, ◌∙◌, ap, Bytes, arith, codes, is_empty,
  text_eq, has_prefix, none, length, map, append_assoc, append-nil,
}
use tusd.Ids.{
  trim, is_space, prepend, split, without_last, spaced, concat_header, all_bytes, is_valid_id_byte,
  extract_ids, final_result, parse_concat,
}
use tusd.Ids.Trim.{CleanStart, CleanEnd, trim_clean}
use tusd.Ids.Laws.{IsPlainId, NotBefore, extract_id_from_url-behind}

-- A text with no white space in it, and something else.
abbrev pub IsWord : Bytes → Type 0
IsWord [] = ⊥
IsWord (c ∷ []) = is_space c ≡ false
IsWord (c ∷ (d ∷ s)) = (is_space c ≡ false) × IsWord (d ∷ s)

split_word : (u s : Bytes) → IsWord u → split 32 (u ++ (32 ∷ s)) ≡ u ∷ split 32 s
unfolding split prepend
split_word [] s w = absurd w
split_word (c ∷ []) s w = ground arith
split_word (c ∷ (d ∷ u)) s w = rw (split_word (d ∷ u) s w.1) (ground arith)

split_last : (u : Bytes) → IsWord u → split 32 u ≡ u ∷ []
unfolding split prepend
split_last [] w = absurd w
split_last (c ∷ []) w = ground arith
split_last (c ∷ (d ∷ u)) w = rw (split_last (d ∷ u) w.1) (ground arith)

without_last-append :
    (s : Bytes) (c : ℕ) (t : Bytes) → without_last (s ++ (c ∷ t)) ≡ s ++ without_last (c ∷ t)
unfolding without_last
without_last-append [] c t = refl
without_last-append (a ∷ []) c t = refl
without_last-append (a ∷ (b ∷ s)) c t = ap (λ r. a ∷ r) (without_last-append (b ∷ s) c t)

without_last_cons :
    (c : ℕ) (u t : Bytes) → IsWord u → without_last (c ∷ (u ++ t)) ≡ c ∷ without_last (u ++ t)
unfolding without_last
without_last_cons c [] t w = absurd w
without_last_cons c (d ∷ u) t w = refl

-- Every URL is a word.
abbrev pub AllWords : List Bytes → Type 0
AllWords [] = Unit
AllWords (u ∷ us) = IsWord u × AllWords us

without_last_space : (u : Bytes) → without_last (u ++ (32 ∷ [])) ≡ u
without_last_space u = without_last-append u 32 [] ∙ (unfold without_last in append-nil u)

split-spaced :
    (u : Bytes) (us : List Bytes)
    → IsWord u
    → AllWords us
    → split 32 (without_last (spaced (u ∷ us))) ≡ u ∷ us
unfolding spaced
split-spaced u [] w ws = ap (split 32) (without_last_space u) ∙ split_last u w
split-spaced u (v ∷ us) w ws =
    ap (split 32) (
      without_last-append u 32 (v ++ (32 ∷ spaced us))
      ∙ ap (λ r. u ++ r) (without_last_cons 32 v (32 ∷ spaced us) ws.0))
    ∙ split_word u _ w
    ∙ ap (λ r. u ∷ r) (split-spaced v us ws.0 ws.1)

IsWord-CleanStart : (u : Bytes) → IsWord u → CleanStart is_space u
IsWord-CleanStart [] w = absurd w
IsWord-CleanStart (c ∷ []) w = w
IsWord-CleanStart (c ∷ (d ∷ u)) w = w.0

IsWord-CleanEnd : (u : Bytes) → IsWord u → CleanEnd is_space u
IsWord-CleanEnd [] w = absurd w
IsWord-CleanEnd (c ∷ []) w = w
IsWord-CleanEnd (c ∷ (d ∷ u)) w = IsWord-CleanEnd (d ∷ u) w.1

trim_word : (u : Bytes) → IsWord u → trim is_space u ≡ u
trim_word u w = trim_clean is_space u (IsWord-CleanStart u w) (IsWord-CleanEnd u w)

IsWord-ne-empty : (u : Bytes) → IsWord u → is_empty u ≡ false
unfolding is_empty
IsWord-ne-empty [] w = absurd w
IsWord-ne-empty (c ∷ u) w = refl

valid_byte_not_space : (c : ℕ) → is_valid_id_byte c ≡ true → is_space c ≡ false
unfolding is_valid_id_byte
valid_byte_not_space c h = ground arith

IsWord-of_bytes : (c : ℕ) (s : Bytes) → all_bytes is_valid_id_byte (c ∷ s) ≡ true → IsWord (c ∷ s)
unfolding all_bytes
IsWord-of_bytes c [] h = valid_byte_not_space c (ground arith)
IsWord-of_bytes c (d ∷ s) h =
    (valid_byte_not_space c (ground arith), IsWord-of_bytes d s (ground arith))

IsWord-append : (u v : Bytes) → IsWord u → IsWord v → IsWord (u ++ v)
IsWord-append [] v w w' = absurd w
IsWord-append (c ∷ []) [] w w' = absurd w'
IsWord-append (c ∷ []) (d ∷ v) w w' = (w, w')
IsWord-append (c ∷ (d ∷ u)) v w w' = (w.0, IsWord-append (d ∷ u) v w.1 w')

-- IDs that a store may hand out: not empty, and acceptable from a hook.
abbrev pub AllPlainIds : List Bytes → Type 0
AllPlainIds [] = Unit
AllPlainIds (id ∷ ids) = (is_empty id ≡ false) × IsPlainId id × AllPlainIds ids

IsPlainId-IsWord : (id : Bytes) → is_empty id ≡ false → IsPlainId id → IsWord id
unfolding is_empty
IsPlainId-IsWord [] h v = cc
IsPlainId-IsWord (c ∷ id) h v = IsWord-of_bytes c id v.bytes

module _ (origin path : Bytes) (before : NotBefore path origin)
    (base_word : IsWord (origin ++ path)) where
  abbrev base : Bytes
  base = origin ++ path

  abbrev urls : List Bytes → List Bytes
  urls = map (λ id. base ++ id)

  url-IsWord : (id : Bytes) → is_empty id ≡ false → IsPlainId id → IsWord (base ++ id)
  url-IsWord id h v = IsWord-append base id base_word (IsPlainId-IsWord id h v)

  urls_words : (ids : List Bytes) → AllPlainIds ids → AllWords (urls ids)
  urls_words [] h = tt
  urls_words (id ∷ ids) h = (url-IsWord id h.0 h.1, urls_words ids h.2)

  extract_ids-urls :
      (ids found : List Bytes)
      → AllPlainIds ids
      → extract_ids (urls ids) path found ≡ (found ++ ids, none)
  unfolding extract_ids
  extract_ids-urls [] found h = rw append-nil
  extract_ids-urls (id ∷ ids) found h =
      rw
        (
          trim_word (base ++ id) w,
          IsWord-ne-empty (base ++ id) w,
          extract_id_from_url-behind origin path id before h.1,
        )
        (extract_ids-urls ids (found ++ (id ∷ [])) h.2 ∙ rw append_assoc)
    where
      w : IsWord (base ++ id)
      w = url-IsWord id h.0 h.1

without_last-append_word :
    (s u t : Bytes) → IsWord u → without_last (s ++ (u ++ t)) ≡ s ++ without_last (u ++ t)
without_last-append_word s [] t w = absurd w
without_last-append_word s (c ∷ u) t w = without_last-append s c (u ++ t)

length-without_last_pos : (u s : Bytes) → IsWord u → 0 < length (without_last (u ++ (32 ∷ s)))
unfolding without_last
length-without_last_pos [] s w = absurd w
length-without_last_pos (c ∷ []) s w = omega arith
length-without_last_pos (c ∷ (d ∷ u)) s w = omega arith

parse_concat_final :
    (list base : Bytes)
    → 0 < length list
    → parse_concat (codes "final;" ++ list) base
      ≡ final_result (extract_ids (split 32 list) base [])
unfolding parse_concat codes is_empty text_eq has_prefix
parse_concat_final list base h = ground arith

-- `parseConcat` reads back the IDs that HEAD sends in `Upload-Concat` for a final upload of one or more partial uploads,
-- in their order, where the URL of an upload is an origin, the base path that `parseConcat` is given, and the ID; the
-- origin may be empty, and no occurrence of the base path begins in it; origin and base path
-- have no white space, and are not both empty; the IDs are valid and not empty.
pub parse_concat-concat_header :
    (origin base id : Bytes) (ids : List Bytes)
    → NotBefore base origin
    → IsWord (origin ++ base)
    → AllPlainIds (id ∷ ids)
    → parse_concat (concat_header (map (λ i. (origin ++ base) ++ i) (id ∷ ids))) base
      ≡ record { is_partial = false; is_final = true; partial_uploads = id ∷ ids; error = none }
unfolding concat_header spaced
parse_concat-concat_header origin base id ids before b h =
    ap (λ v. parse_concat v base) (without_last-append_word (codes "final;") (root ++ id) _ w)
    ∙ parse_concat_final list base (length-without_last_pos (root ++ id) _ w)
    ∙ ap (λ parts. final_result (extract_ids parts base []))
        (split-spaced (root ++ id) (urls origin base before b ids) w
          (urls_words origin base before b ids h.2))
    ∙ ap final_result (extract_ids-urls origin base before b (id ∷ ids) [] h)
    ∙ (unfold final_result in refl)
  where
    root : Bytes
    root = origin ++ base

    w : IsWord (root ++ id)
    w = url-IsWord origin base before b id h.0 h.1

    list : Bytes
    list = without_last (spaced ((root ++ id) ∷ urls origin base before b ids))
