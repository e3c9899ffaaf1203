-- ===== src/Ids.antt =====
-- Upload IDs in paths, URLs and hook responses: `extractIDFromPath`, `extractIDFromURL`,
-- `validateUploadId` and `parseConcat` of pkg/handler/unrouted_handler.go.
pub mod Trim
pub mod Laws
pub mod Header
use tusd.Base.{
  ℕ, Bool, true, false, not, ◌&&◌, ◌||◌, List, [], ◌∷◌, ◌++◌, Option, none, some, Bytes, codes,
  text_eq, is_empty, has_prefix, leb, ltb, ◌==◌, if◌then◌else◌, length, drop, append_assoc,
}
use tusd.Http.{Failure, detailed, other, Result, ok, err}
use tusd.Http.Errors.{err_not_found, err_invalid_concat}

-- `strings.TrimLeft` and `strings.TrimRight` with a test for the bytes to remove
unfoldable pub trim_left : (ℕ → Bool) → Bytes → Bytes
trim_left p [] = []
trim_left p (c ∷ s) = let rest = trim_left p s in if p c then rest else c ∷ s

unfoldable pub trim_right : (ℕ → Bool) → Bytes → Bytes
trim_right p [] = []
trim_right p (c ∷ s) = let rest = trim_right p s in if p c && is_empty rest then [] else c ∷ rest

abbrev pub trim : (ℕ → Bool) → Bytes → Bytes
trim p s = trim_right p (trim_left p s)

abbrev pub is_slash : ℕ → Bool
is_slash c = c == b'/'

-- the ASCII white space of `strings.TrimSpace`
abbrev pub is_space : ℕ → Bool
is_space c = c == 32 || (leb 9 c && leb c 13)

unfoldable pub prepend : ℕ → List Bytes → List Bytes
prepend c [] = (c ∷ []) ∷ []
prepend c (part ∷ parts) = (c ∷ part) ∷ parts

-- `strings.Split(s, sep)` for a separator of one byte: never an empty list
unfoldable pub split : ℕ → Bytes → List Bytes
split sep [] = [] ∷ []
split sep (c ∷ s) = let parts = split sep s in if c == sep then [] ∷ parts else prepend c parts

-- `v[:len(v)-1]`, for a text that is not empty
unfoldable pub without_last : Bytes → Bytes
without_last [] = []
without_last (c ∷ []) = []
without_last (c ∷ (d ∷ s)) = c ∷ without_last (d ∷ s)

-- Each URL with a space behind it, as `HeadFile` appends them.
unfoldable pub spaced : List Bytes → Bytes
spaced [] = []
spaced (url ∷ urls) = url ++ (32 ∷ spaced urls)

-- The `Upload-Concat` header of a final upload, in `HeadFile`.
unfoldable pub concat_header : List Bytes → Bytes
concat_header urls = without_last (codes "final;" ++ spaced urls)

-- `_, after, found := strings.Cut(s, sep)`
unfoldable pub cut_after : Bytes → Bytes → Option Bytes
cut_after [] sep = if has_prefix [] sep then some (drop (length sep) []) else none
cut_after (c ∷ s) sep =
    let rest = cut_after s sep in
    if has_prefix (c ∷ s) sep then some (drop (length sep) (c ∷ s)) else rest

unfoldable pub extract_id_from_path : Bytes → Result Bytes
extract_id_from_path path = ok (trim is_slash path)

after_base : Option Bytes → Result Bytes
after_base none = err (detailed err_not_found)
after_base (some id) = extract_id_from_path id

unfoldable pub extract_id_from_url : Bytes → Bytes → Result Bytes
unfolding after_base
extract_id_from_url url base_path = after_base (cut_after url base_path)

-- `[A-Za-z0-9\-._~%!$'()*+,;=/:@]`
unfoldable pub is_valid_id_byte : ℕ → Bool
is_valid_id_byte c =
    (leb b'A' c && leb c b'Z')
    || ((leb b'a' c && leb c b'z')
        || (leb 39 c && leb c 59
            || (c == 33
                || (c == 36 || (c == 37 || (c == 61 || (c == 64 || (c == 95 || c == 126))))))))

unfoldable pub all_bytes : (ℕ → Bool) → Bytes → Bool
all_bytes p [] = true
all_bytes p (c ∷ s) = p c && all_bytes p s

unfoldable pub has_slash_suffix : Bytes → Bool
has_slash_suffix [] = false
has_slash_suffix (c ∷ []) = c == b'/'
has_slash_suffix (c ∷ (d ∷ s)) = has_slash_suffix (d ∷ s)

-- `none` is a nil error; the texts of the two errors are shortened.
unfoldable pub validate_upload_id : Bytes → Option Failure
validate_upload_id new_id =
    if is_empty new_id
    then none
    else if has_prefix new_id (codes "/") || has_slash_suffix new_id
    then some (other (codes "ID must not begin or end with a forward slash"))
    else if not (all_bytes is_valid_id_byte new_id)
    then some (other (codes "ID must contain only URL-safe character"))
    else none

-- The results of `parseConcat`, its error included.
pub record Concat : Type 0 where
  pub is_partial : Bool
  pub is_final : Bool
  pub partial_uploads : List Bytes
  pub error : Option Failure

-- The loop over the URLs, with the IDs found so far.
unfoldable pub extract_ids : List Bytes → Bytes → List Bytes → List Bytes × Option Failure
extract_ids [] base_path found = (found, none)
extract_ids (part ∷ parts) base_path found =
    let value = trim is_space part in
    let skip = extract_ids parts base_path found in
    if is_empty value then skip else elim (extract_id_from_url value base_path) [
      | err e ↦ (found, some e)
      | ok id ↦ extract_ids parts base_path (found ++ (id ∷ []))
    ]

-- The early return in the loop, and the check that follows the loop.
unfoldable pub final_result : List Bytes × Option Failure → Concat
final_result (found, some e) = record {
  is_partial = false;
  is_final = true;
  partial_uploads = found;
  error = some e;
}
final_result ([], none) = record {
  is_partial = false;
  is_final = false;
  partial_uploads = [];
  error = some (detailed err_invalid_concat);
}
final_result (id ∷ ids, none) = record {
  is_partial = false;
  is_final = true;
  partial_uploads = id ∷ ids;
  error = none;
}

unfoldable pub parse_concat : Bytes → Bytes → Concat
parse_concat header base_path =
    if is_empty header
    then record { is_partial = false; is_final = false; partial_uploads = []; error = none }
    else if text_eq header (codes "partial")
    then record { is_partial = true; is_final = false; partial_uploads = []; error = none }
    else if has_prefix header (codes "final;") && ltb 6 (length header)
    then final_result (extract_ids (split 32 (drop 6 header)) base_path [])
    else final_result ([], none)
