-- ===== src/Handler/Read/ContentType.antt =====
-- `filterContentType` of pkg/handler/unrouted_handler.go: which types a browser may show inline.
use tusd.Base.{
  Bool, false, ◌||◌, List, [], ◌∷◌, ◌++◌, none, some, Bytes, codes, text_eq, if◌then◌else◌,
}
use tusd.Base.Dict.{Dict, lookup, insert}
use tusd.Http.{HttpHeader, Result, ok, err}
use tusd.DataStore.{FileInfo, MetaData}

-- `mime.ParseMediaType` and `strconv.Quote`.
pub record Mime : Type 0 where
  pub parse_media_type : Bytes → Result (Bytes × Dict Bytes)
  pub quote : Bytes → Bytes

abbrev pub mime_inline_browser_whitelist : List Bytes
mime_inline_browser_whitelist =
    codes "text/plain"
    ∷ (codes "image/png"
        ∷ (codes "image/jpeg"
            ∷ (codes "image/gif"
                ∷ (codes "image/bmp"
                    ∷ (codes "image/webp"
                        ∷ (codes "audio/wave"
                            ∷ (codes "audio/wav"
                                ∷ (codes "audio/x-wav"
                                    ∷ (codes "audio/x-pn-wav"
                                        ∷ (codes "audio/webm"
                                            ∷ (codes "audio/ogg"
                                                ∷ (codes "video/mp4"
                                                    ∷ (codes "video/webm"
                                                        ∷ (codes "video/ogg"
                                                            ∷ (codes "application/ogg"
                                                            ∷ [])))))))))))))))

unfoldable pub contains : List Bytes → Bytes → Bool
contains [] s = false
contains (t ∷ ts) s = text_eq t s || contains ts s

pub record ContentType : Type 0 where
  pub content_type : Bytes
  pub content_disposition : Bytes

unfoldable pub get_meta : MetaData → Bytes → Bytes
get_meta meta key = elim (lookup key meta) [ none ↦ [] | some value ↦ value ]

-- The two headers before a file name is added.
unfoldable pub type_and_disposition : Mime → Bytes → ContentType
type_and_disposition mime filetype = elim (mime.parse_media_type filetype) [
  | err e ↦ record {
    content_type = codes "application/octet-stream";
    content_disposition = codes "attachment";
  }
  | ok (ft, params) ↦ record {
    content_type = filetype;
    content_disposition =
        if contains mime_inline_browser_whitelist ft then codes "inline" else codes "attachment";
  }
]

unfoldable pub filter_content_type : Mime → FileInfo → ContentType
filter_content_type mime info =
    let c = type_and_disposition mime (get_meta info.meta_data (codes "filetype")) in
    elim (lookup (codes "filename") info.meta_data) [
      | none ↦ c
      | some filename ↦ record c {
        content_disposition = c.content_disposition ++ (codes ";filename=" ++ mime.quote filename);
      }
    ]

unfoldable pub content_headers : ContentType → HttpHeader
content_headers c =
    insert (codes "Content-Disposition") c.content_disposition
      (insert (codes "Content-Type") c.content_type [])
