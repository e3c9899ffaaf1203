-- ===== src/S3/Keys.antt =====
-- The names of objects in pkg/s3store/s3store.go: `splitIds` and the key prefixes.
use tusd.Base.{
  ℕ, Bool, true, false, not, ◌&&◌, [], ◌∷◌, ◌++◌, Option, none, some, ◌≡◌, refl, Bytes, codes,
  is_empty, ◌==◌, if◌then◌else◌, arith,
}
use tusd.Ids.{has_slash_suffix}

-- The parts before and after the last `+`; `strings.LastIndex` finds none where there is no `+`.
unfoldable pub split_at_last_plus : Bytes → Option (Bytes × Bytes)
split_at_last_plus [] = none
split_at_last_plus (c ∷ id) = after_rest c id (split_at_last_plus id)
  where
    after_rest : ℕ → Bytes → Option (Bytes × Bytes) → Option (Bytes × Bytes)
    after_rest c id (some (object_id, multipart_id)) = some (c ∷ object_id, multipart_id)
    after_rest c id none = if c == b'+' then some ([], id) else none

abbrev or_empty : Option (Bytes × Bytes) → Bytes × Bytes
or_empty none = ([], [])
or_empty (some ids) = ids

-- The object ID and the multipart ID; both are empty where there is no `+`.
unfoldable pub split_ids : Bytes → Bytes × Bytes
split_ids id = or_empty (split_at_last_plus id)

unfoldable pub with_prefix : Bytes → Bytes → Bytes
with_prefix prefix key =
    if not (is_empty prefix) && not (has_slash_suffix prefix)
    then (prefix ++ codes "/") ++ key
    else prefix ++ key

-- `ObjectPrefix` and `MetadataObjectPrefix`
pub record Prefixes : Type 0 where
  pub object_prefix : Bytes
  pub metadata_object_prefix : Bytes

unfoldable pub key_with_prefix : Prefixes → Bytes → Bytes
key_with_prefix store key = with_prefix store.object_prefix key

unfoldable pub metadata_key_with_prefix : Prefixes → Bytes → Bytes
metadata_key_with_prefix store key =
    with_prefix
      (if is_empty store.metadata_object_prefix
        then store.object_prefix
        else store.metadata_object_prefix)
      key

-- No byte is a `+`.
unfoldable pub has_plus : Bytes → Bool
has_plus [] = false
has_plus (c ∷ s) = let rest = has_plus s in if c == b'+' then true else rest

split_at_last_plus-none : (s : Bytes) → has_plus s ≡ false → split_at_last_plus s ≡ none
unfolding split_at_last_plus has_plus
split_at_last_plus-none [] h = refl
split_at_last_plus-none (c ∷ s) h = grind (arith, split_at_last_plus-none s)

split_at_last_plus-joined :
    (object_id multipart_id : Bytes)
    → has_plus multipart_id ≡ false
    → split_at_last_plus (object_id ++ (b'+' ∷ multipart_id)) ≡ some (object_id, multipart_id)
unfolding split_at_last_plus
split_at_last_plus-joined [] multipart_id h = grind (arith, split_at_last_plus-none multipart_id)
split_at_last_plus-joined (c ∷ object_id) multipart_id h =
    rw (split_at_last_plus-joined object_id multipart_id h) refl

-- The two IDs are found again in the upload ID that `NewUpload` makes of them with a `+`, for a multipart
-- ID without a `+`; the object ID may have some.
pub split_ids-joined :
    (object_id multipart_id : Bytes)
    → has_plus multipart_id ≡ false
    → split_ids (object_id ++ (b'+' ∷ multipart_id)) ≡ (object_id, multipart_id)
unfolding split_ids
split_ids-joined object_id multipart_id h =
    rw (split_at_last_plus-joined object_id multipart_id h) refl
