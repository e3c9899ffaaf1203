-- ===== src/S3/Laws.antt =====
-- What the store relies on in the S3 service, as far as it is documented: which objects there are, and which parts
-- a multipart upload has.
use tusd.Base.{
  ℕ, suc, ◌<◌, ◌≡◌, refl, List, [], ◌∷◌, ◌++◌, Option, none, some, Bytes, append_assoc, ap, sym,
  ◌∙◌, arith, length, map, true, ltb, if◌then◌else◌,
}
use tusd.Base.Int.{ℤ, pos}
use tusd.S3.Service.{done, failed, AwsError, Part, Page, S3Api, says_missing}

-- The part numbers are below `n`.
unfoldable pub AllBelow : ℕ → List (ℕ × Bytes) → Type 0
AllBelow n [] = Unit {0}
AllBelow n (part ∷ parts) = (part.0 < n) × AllBelow n parts

unfoldable pub part_data : List (ℕ × Bytes) → Bytes
part_data [] = []
part_data (part ∷ parts) = part.1 ++ part_data parts

abbrev pub bytes_or_empty : Option Bytes → Bytes
bytes_or_empty none = []
bytes_or_empty (some bytes) = bytes

-- The parts whose numbers are above a marker.
unfoldable pub above : Option ℕ → List (ℕ × Bytes) → List (ℕ × Bytes)
above none parts = parts
above (some marker) [] = []
above (some marker) (part ∷ parts) =
    let rest = above (some marker) parts in if ltb marker part.0 then part ∷ rest else rest

-- A part as it is listed: its number and its size.
abbrev pub listed_part : ℕ × Bytes → ℕ × ℤ
listed_part part = (part.0, pos (length part.1))

abbrev pub part_entry : Part → ℕ × ℤ
part_entry part = (part.number, part.size)

-- The page holds the first of the parts to list, and says whether there are more. There are none but behind one.
pub record IsPageOf (parts : List (ℕ × Bytes)) (marker : Option ℕ) (page : Page) : Type 0 where
  pub lists :
      map listed_part (above marker parts)
      ≡ map part_entry page.parts
        ++ (if page.is_truncated then map listed_part (above page.next_marker parts) else [])
  pub proceeds : page.is_truncated ≡ true → 0 < length page.parts

-- `object` is what an object holds; `pending` is the parts of a multipart upload by their numbers. A call that
-- succeeds does what it says. One that fails may have done it or not, but it changes nothing of the other kind.
pub record S3Laws (api : S3Api) : Type 0 where
  pub object : api.State → Bytes → Option Bytes
  pub pending : api.State → Bytes → Bytes → List (ℕ × Bytes)
  pub get_object-sound :
      (key : Bytes) (s : api.State) {bytes : Bytes}
      → (api.get_object key s).0 ≡ done bytes
      → object s key ≡ some bytes
  pub get_object-object : (key : Bytes) (s : api.State) → object (api.get_object key s).1 ≡ object s
  pub get_object-pending :
      (key : Bytes) (s : api.State) → pending (api.get_object key s).1 ≡ pending s
  pub put_object-sets :
      (key bytes : Bytes) (s : api.State) {u : Unit {0}}
      → (api.put_object key bytes s).0 ≡ done u
      → object (api.put_object key bytes s).1 key ≡ some bytes
  pub put_object-pending :
      (key bytes : Bytes) (s : api.State) → pending (api.put_object key bytes s).1 ≡ pending s
  pub delete_object-removes :
      (key : Bytes) (s : api.State) {u : Unit {0}}
      → (api.delete_object key s).0 ≡ done u
      → object (api.delete_object key s).1 key ≡ none
  pub delete_object-pending :
      (key : Bytes) (s : api.State) → pending (api.delete_object key s).1 ≡ pending s
  pub upload_part-adds :
      (key id : Bytes) (number : ℕ) (bytes : Bytes) (s : api.State) {etag : Bytes}
      → (api.upload_part key id number bytes s).0 ≡ done etag
      → AllBelow number (pending s key id)
      → pending (api.upload_part key id number bytes s).1 key id
        ≡ pending s key id ++ ((number, bytes) ∷ [])
  pub upload_part-object :
      (key id : Bytes) (number : ℕ) (bytes : Bytes) (s : api.State)
      → object (api.upload_part key id number bytes s).1 ≡ object s
  pub list_parts-page :
      (key id : Bytes) (marker : Option ℕ) (s : api.State) {page : Page}
      → (api.list_parts key id marker s).0 ≡ done page
      → IsPageOf (pending s key id) marker page
  pub list_parts-object :
      (key id : Bytes) (marker : Option ℕ) (s : api.State)
      → object (api.list_parts key id marker s).1 ≡ object s
  pub list_parts-pending :
      (key id : Bytes) (marker : Option ℕ) (s : api.State)
      → pending (api.list_parts key id marker s).1 ≡ pending s
  pub head_object-size :
      (key : Bytes) (s : api.State) {n : ℕ}
      → (api.head_object key s).0 ≡ done n
      → n ≡ length (bytes_or_empty (object s key))
  pub head_object-missing :
      (key : Bytes) (s : api.State) {e : AwsError}
      → (api.head_object key s).0 ≡ failed e
      → says_missing e ≡ true
      → object s key ≡ none
  pub head_object-object :
      (key : Bytes) (s : api.State) → object (api.head_object key s).1 ≡ object s
  pub head_object-pending :
      (key : Bytes) (s : api.State) → pending (api.head_object key s).1 ≡ pending s
  pub complete_multipart_upload-joins :
      (key id : Bytes) (listed : List (Bytes × ℕ)) (s : api.State) {u : Unit {0}}
      → (api.complete_multipart_upload key id listed s).0 ≡ done u
      → map (λ part. part.1) listed ≡ map (λ part. part.0) (pending s key id)
      → object (api.complete_multipart_upload key id listed s).1 key
        ≡ some (part_data (pending s key id))

-- All that an upload has received: its parts, and the incomplete part behind them.
unfoldable pub received : {api : S3Api} → S3Laws api → Bytes → Bytes → Bytes → api.State → Bytes
received L object_key multipart_id part_key s =
    part_data (L.pending s object_key multipart_id) ++ bytes_or_empty (L.object s part_key)

pub part_data-append :
    (ps qs : List (ℕ × Bytes)) → part_data (ps ++ qs) ≡ part_data ps ++ part_data qs
unfolding part_data
part_data-append [] qs = refl
part_data-append (p ∷ ps) qs =
    ap (λ r. p.1 ++ r) (part_data-append ps qs)
    ∙ sym (append_assoc p.1 (part_data ps) (part_data qs))

pub AllBelow-later : (n m : ℕ) (ps : List (ℕ × Bytes)) → AllBelow n ps → n < m → AllBelow m ps
unfolding AllBelow
AllBelow-later n m [] h l = tt
AllBelow-later n m (p ∷ ps) (h, hs) l = (omega arith, AllBelow-later n m ps hs l)

pub AllBelow-append :
    (n : ℕ) (bytes : Bytes) (ps : List (ℕ × Bytes))
    → AllBelow n ps
    → AllBelow (suc n) (ps ++ ((n, bytes) ∷ []))
unfolding AllBelow
AllBelow-append n bytes [] h = (omega arith, tt)
AllBelow-append n bytes (p ∷ ps) (h, hs) = (omega arith, AllBelow-append n bytes ps hs)
