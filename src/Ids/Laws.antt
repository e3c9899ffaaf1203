-- ===== src/Ids/Laws.antt =====
-- Which IDs a client can address: those that a hook may set are found again in paths and URLs.
use tusd.Base.{
  true, false, [], ◌∷◌, ◌++◌, ◌≡◌, refl, ◌∙◌, ap, Bytes, arith, codes, is_empty, has_prefix,
  has_prefix-append, none, some, length, drop, ◌≤◌, ◌&&◌, ◌==◌, sym, append_assoc, length-append,
}
use tusd.Http.{ok}
use tusd.Ids.{
  is_slash, extract_id_from_path, extract_id_from_url, after_base, cut_after, validate_upload_id,
  has_slash_suffix, all_bytes, is_valid_id_byte,
}
use tusd.Ids.Trim.{CleanStart, CleanEnd, trim_clean}

CleanStart-of_prefix : (s : Bytes) → has_prefix s (codes "/") ≡ false → CleanStart is_slash s
unfolding has_prefix codes
CleanStart-of_prefix [] h = tt
CleanStart-of_prefix (c ∷ s) h = ground arith

CleanEnd-of_suffix : (s : Bytes) → has_slash_suffix s ≡ false → CleanEnd is_slash s
unfolding has_slash_suffix
CleanEnd-of_suffix [] h = tt
CleanEnd-of_suffix (c ∷ []) h = h
CleanEnd-of_suffix (c ∷ (d ∷ s)) h = CleanEnd-of_suffix (d ∷ s) h

-- What an accepted ID looks like.
pub record IsPlainId (id : Bytes) : Type 0 where
  pub start : CleanStart is_slash id
  pub end : CleanEnd is_slash id
  pub bytes : all_bytes is_valid_id_byte id ≡ true

pub validate_upload_id-IsPlainId : (id : Bytes) → validate_upload_id id ≡ none → IsPlainId id
unfolding validate_upload_id
validate_upload_id-IsPlainId [] h = record {
  start = tt;
  end = tt;
  bytes = unfold all_bytes in refl;
}
validate_upload_id-IsPlainId (c ∷ s) h = record {
  start = CleanStart-of_prefix (c ∷ s) (unfold is_empty in ground arith);
  end = CleanEnd-of_suffix (c ∷ s) (unfold is_empty in ground arith);
  bytes = unfold is_empty in ground arith;
}

-- An ID that `validateUploadId` accepts is the ID that the handlers read off the request path.
pub extract_id_from_path-validate_upload_id :
    (id : Bytes) → validate_upload_id id ≡ none → extract_id_from_path id ≡ ok id
unfolding extract_id_from_path
extract_id_from_path-validate_upload_id id h = ap ok (trim_clean is_slash id v.start v.end)
  where
    v : IsPlainId id
    v = validate_upload_id-IsPlainId id h

drop-append : (p s : Bytes) → drop (length p) (p ++ s) ≡ s
drop-append [] s = refl
drop-append (c ∷ p) s = drop-append p s

cut_after-append : (base s : Bytes) → cut_after (base ++ s) base ≡ some s
unfolding cut_after has_prefix
cut_after-append [] [] = refl
cut_after-append [] (c ∷ s) = refl
cut_after-append (b ∷ base) s = ground (arith, has_prefix-append base s, drop-append base s)

-- Where the URL of an upload is the base path and a valid ID behind it, it leads back to the ID.
pub extract_id_from_url-append :
    (base id : Bytes) → IsPlainId id → extract_id_from_url (base ++ id) base ≡ ok id
unfolding extract_id_from_url extract_id_from_path
extract_id_from_url-append base id v =
    ap after_base (cut_after-append base id) ∙ ap ok (trim_clean is_slash id v.start v.end)

-- The base path does not begin in what the URL has before it.
unfoldable pub NotBefore : Bytes → Bytes → Type 0
NotBefore base [] = Unit {0}
NotBefore base (c ∷ origin) =
    (has_prefix (c ∷ (origin ++ base)) base ≡ false) × NotBefore base origin

-- What is behind a text that is long enough does not count.
has_prefix-longer : (s t p : Bytes) → length p ≤ length s → has_prefix (s ++ t) p ≡ has_prefix s p
unfolding has_prefix
has_prefix-longer s t [] l = refl
has_prefix-longer [] t (b ∷ p) l = absurd (omega arith)
has_prefix-longer (a ∷ s) t (b ∷ p) l =
    ap (λ r. a == b && r) (has_prefix-longer s t p (omega arith))

cut_after-behind :
    (base origin id : Bytes)
    → NotBefore base origin
    → cut_after (origin ++ (base ++ id)) base ≡ some id
unfolding cut_after NotBefore
cut_after-behind base [] id h = cut_after-append base id
cut_after-behind base (c ∷ origin) id (other, h) =
    rw
      (ap (λ s. has_prefix (c ∷ s) base) (sym (append_assoc origin base id))
        ∙ has_prefix-longer (c ∷ (origin ++ base)) id base
            (omega (arith, length-append origin base))
        ∙ other)
      (cut_after-behind base origin id h)

-- A scheme and a host before the base path are cut off with it.
pub extract_id_from_url-behind :
    (origin base id : Bytes)
    → NotBefore base origin
    → IsPlainId id
    → extract_id_from_url ((origin ++ base) ++ id) base ≡ ok id
unfolding extract_id_from_url extract_id_from_path
extract_id_from_url-behind origin base id h v =
    ap (λ url. after_base (cut_after url base)) (append_assoc origin base id)
    ∙ ap after_base (cut_after-behind base origin id h)
    ∙ ap ok (trim_clean is_slash id v.start v.end)
