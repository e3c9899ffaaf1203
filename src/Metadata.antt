-- ===== src/Metadata.antt =====
-- `ParseMetadataHeader` and `SerializeMetadataHeader` of pkg/handler/unrouted_handler.go, over the
-- standard base64 encoding.
pub mod Base64
use tusd.Base.{
  ℕ, Bool, true, false, List, [], ◌∷◌, ◌++◌, Option, none, some, Bytes, is_empty, if◌then◌else◌,
}
use tusd.Base.Dict.{Dict, insert}
use tusd.Ids.{trim, is_space, split, without_last}
use tusd.DataStore.{MetaData}
use Base64.{encode, decode}

-- What one element of the header adds: its parts are a key and perhaps a value.
unfoldable pub add_element : List Bytes → MetaData → MetaData
add_element [] meta = meta
add_element (key ∷ []) meta = if is_empty key then meta else insert key [] meta
add_element (key ∷ (value ∷ [])) meta =
    if is_empty key
    then meta
    else elim (decode value) [ none ↦ meta | some text ↦ insert key text meta ]
add_element (key ∷ (value ∷ (more ∷ parts))) meta = meta

unfoldable pub add_elements : List Bytes → MetaData → MetaData
add_elements [] meta = meta
add_elements (element ∷ elements) meta =
    add_elements elements (add_element (split 32 (trim is_space element)) meta)

unfoldable pub parse_metadata_header : Bytes → MetaData
parse_metadata_header header = add_elements (split b',' header) []

unfoldable pub serialize_entries : MetaData → Bytes
serialize_entries [] = []
serialize_entries ((key, value) ∷ meta) =
    (key ++ (32 ∷ (encode value ++ (b',' ∷ [])))) ++ serialize_entries meta

-- The entries in the order in which the map is walked, without the last comma.
unfoldable pub serialize_metadata_header : MetaData → Bytes
serialize_metadata_header meta = without_last (serialize_entries meta)
