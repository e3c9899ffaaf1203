-- ===== src/Tests/Resumed.antt =====
-- Runs of the S3 store that find an upload again, and serve it.
use tusd.Base.{◌≡◌, refl, [], ◌∷◌, ◌⊎◌, some, codes, text_eq, is_empty, arith, length}
use tusd.Base.Int.{pos, ◌+ℤ◌}
use tusd.Http.{ok}
use tusd.S3.Service.{Env}
use tusd.S3.Keys.{metadata_key_with_prefix, with_prefix}
use tusd.S3.Write.Complete.{IsListed}
use tusd.S3.Upload.{
  get_internal_info, list_all_parts, list_pages, after_page, behind_page, head_incomplete_part,
  read_info, read_size, fetched, part_sizes, info_key, object_key, S3Upload, Fetched, part_key,
  fetch_info, new_handle,
}
use tusd.S3.Laws.{above, received, part_data}
use tusd.S3.Write.Sent.{IsCurrent}
use tusd.S3.Handle.{get_internal_info-IsCurrent}
use tusd.S3.Resumed.{Resumed, IsDenied, IsGone, fetch_info-Resumed}
use tusd.S3.Serve.{serve_content, responded}
use tusd.S3.Serve.Laws.{IsErrorAnswer, serve_content-IsErrorAnswer}
use tusd.Tests.Bucket.{bucket_api, bucket_laws, etag}
use tusd.Tests.Samples.{
  sample_info, sample_os, sample_store, sample_bucket, sample_env, sample-AllBelow,
}

abbrev sample_fetched : Fetched
sample_fetched = record {
  info = record sample_info { offset = pos 1 +ℤ pos (length (codes "abcd")) };
  parts = record { number = 1; size = pos (length (codes "abcd")); etag = etag } ∷ [];
  incomplete_part_size = length (codes "e");
}

sample_received :
    length (
      received bucket_laws
        (object_key sample_store (codes "video"))
        (codes "multipart")
        (part_key sample_store (codes "video"))
        sample_bucket)
    ≡ 5
unfolding received part_data part_key metadata_key_with_prefix with_prefix is_empty codes text_eq
sample_received = refl

sample_fetch :
    (fetch_info bucket_api sample_os sample_store
      (new_handle (codes "video") (codes "multipart"))
      sample_env).0
    ≡ ok sample_fetched
unfolding fetch_info list_all_parts list_pages after_page behind_page head_incomplete_part read_info
    read_size fetched part_sizes new_handle info_key part_key metadata_key_with_prefix with_prefix
    is_empty codes text_eq above
sample_fetch = refl

fetch_info-Resumed_example :
    Resumed bucket_api sample_os sample_store bucket_laws
      (new_handle (codes "video") (codes "multipart"))
      sample_env
      sample_fetched
    ⊎ (IsDenied bucket_api sample_os sample_store bucket_laws
          (new_handle (codes "video") (codes "multipart"))
          sample_env
          sample_fetched
        ⊎ IsGone bucket_api sample_os sample_store bucket_laws
            (new_handle (codes "video") (codes "multipart"))
            sample_env
            sample_fetched)
unfolding new_handle
fetch_info-Resumed_example =
    fetch_info-Resumed bucket_api sample_os sample_store bucket_laws
      (new_handle (codes "video") (codes "multipart")) sample_env (omega arith)
      (omega (arith, sample_received)) sample_fetch

abbrev resumed_handle : S3Upload
resumed_handle = record {
  object_id = codes "video";
  multipart_id = codes "multipart";
  info = some sample_fetched.info;
  parts = sample_fetched.parts;
  incomplete_part_size = sample_fetched.incomplete_part_size;
}

sample_internal :
    (get_internal_info bucket_api sample_os sample_store
      (new_handle (codes "video") (codes "multipart"))
      sample_env).0
    ≡ ok (sample_fetched, resumed_handle)
unfolding get_internal_info fetch_info list_all_parts list_pages after_page behind_page
    head_incomplete_part read_info read_size fetched part_sizes new_handle info_key part_key
    metadata_key_with_prefix with_prefix is_empty codes text_eq above
sample_internal = refl

abbrev sample_resumed : S3Upload × Env bucket_api
sample_resumed = (
  resumed_handle,
  (get_internal_info bucket_api sample_os sample_store
      (new_handle (codes "video") (codes "multipart")) sample_env).1,
)

get_internal_info-IsCurrent_example :
    (IsCurrent bucket_api sample_os sample_store bucket_laws sample_resumed.0
        sample_resumed.1.service
      × IsListed sample_store bucket_laws sample_resumed.0 sample_resumed.1.service
      × (sample_fetched.info.offset
          ≡ pos (
              length (
                received bucket_laws
                  (object_key sample_store (codes "video"))
                  (codes "multipart")
                  (part_key sample_store (codes "video"))
                  sample_bucket))))
    ⊎ (IsDenied bucket_api sample_os sample_store bucket_laws
          (new_handle (codes "video") (codes "multipart"))
          sample_env
          sample_fetched
        ⊎ IsGone bucket_api sample_os sample_store bucket_laws
            (new_handle (codes "video") (codes "multipart"))
            sample_env
            sample_fetched)
unfolding new_handle
get_internal_info-IsCurrent_example =
    get_internal_info-IsCurrent bucket_api sample_os sample_store bucket_laws
      (new_handle (codes "video") (codes "multipart")) sample_env refl (omega arith)
      (omega (arith, sample_received)) sample-AllBelow sample_internal

-- The client has the object already.
serve_content-IsErrorAnswer_example : IsErrorAnswer (
    serve_content
      (responded 304 ((codes "Etag", codes "x1") ∷ []) (codes "NotModified"))
      ((codes "Content-Type", codes "video/mp4") ∷ []))
serve_content-IsErrorAnswer_example =
    serve_content-IsErrorAnswer 304 ((codes "Etag", codes "x1") ∷ []) (codes "NotModified")
      ((codes "Content-Type", codes "video/mp4") ∷ [])
