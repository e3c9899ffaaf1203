-- ===== src/Tests/S3.antt =====
-- Runs of the S3 store on a service in memory.
use tusd.Base.{◌≡◌, refl, ap, List, [], ◌∷◌, ◌++◌, none, some, Bytes, codes, arith, length}
use tusd.Base.Int.{pos}
use tusd.Http.{ok}
use tusd.BodyReader.{flatten}
use tusd.DataStore.{WriteResult}
use tusd.S3.Service.{Env}
use tusd.S3.Write.Complete.{IsListed}
use tusd.S3.Upload.{object_key, S3Upload}
use tusd.S3.Write.{write_chunk}
use tusd.S3.Producer.{produce}
use tusd.S3.Write.Cut.{HasCut, produce-HasCut, produce-error}
use tusd.S3.Finish.{finish_upload}
use tusd.S3.Laws.{part_data}
use tusd.S3.Write.Sent.{IsUsable, IsCurrent}
use tusd.S3.Write.Append.{write_chunk-Wrote, write_chunk-appends}
use tusd.S3.Write.{part_size}
use tusd.S3.PartSize.{calc_optimal_part_size, choose_part_size, at_most, wrapped_product}
use tusd.S3.Write.Success.{write_chunk-succeeds}
use tusd.S3.Write.Content.{got}
use tusd.S3.Finished.{write_chunk-finish_upload, finish_upload-object}
use tusd.Tests.Bucket.{bucket_api, bucket_laws, bucket_healthy, bucket-finished, Any}
use tusd.Tests.Samples.{
  sample_info, sample_os, sample_store, sample_upload, sample_bucket, sample_env, sample_incomplete,
  sample-AllBelow,
}

sample-IsUsable : IsUsable sample_store.limits
sample-IsUsable = record {
  some_parts = omega arith;
  no_overflow = omega arith;
  some_bytes = omega arith;
  large_enough = omega arith;
}

abbrev sample_current :
    IsCurrent bucket_api sample_os sample_store bucket_laws sample_upload sample_bucket
sample_current = record {
  info = sample_info;
  known = refl;
  incomplete = sample_incomplete;
  below = sample-AllBelow;
}

sample-IsListed : IsListed sample_store bucket_laws sample_upload sample_bucket
unfolding IsListed
sample-IsListed = refl

abbrev last_chunk : List Bytes
last_chunk = codes "fg" ∷ codes "h" ∷ []

last_length : length (flatten last_chunk) ≡ 3
unfolding flatten codes
last_length = refl

sample_part_size : part_size sample_store (pos 8) ≡ ok 4
unfolding part_size calc_optimal_part_size choose_part_size at_most wrapped_product
sample_part_size = refl

sample_written :
    (write_chunk bucket_api sample_os sample_store sample_upload
      (pos 5)
      last_chunk
      sample_env).0.error
    ≡ none
sample_written =
    write_chunk-succeeds bucket_api sample_os sample_store bucket_laws sample_upload Any
      (bucket_healthy sample_store sample_upload) (pos 5) last_chunk sample_env sample-IsUsable
      sample_current sample_part_size (omega (arith, last_length)) tt refl

write_chunk-succeeds_example :
    (write_chunk bucket_api sample_os sample_store sample_upload
      (pos 5)
      last_chunk
      sample_env).0.error
    ≡ none
write_chunk-succeeds_example =
    write_chunk-succeeds bucket_api sample_os sample_store bucket_laws sample_upload Any
      (bucket_healthy sample_store sample_upload) (pos 5) last_chunk sample_env sample-IsUsable
      sample_current sample_part_size (omega (arith, last_length)) tt refl

write_chunk-appends_example :
    (got sample_store bucket_laws sample_upload
        (write_chunk bucket_api sample_os sample_store sample_upload
          (pos 5)
          last_chunk
          sample_env).1.service
      ≡ got sample_store bucket_laws sample_upload sample_bucket ++ flatten last_chunk)
    × ((write_chunk bucket_api sample_os sample_store sample_upload
          (pos 5)
          last_chunk
          sample_env).0.bytes_written
        ≡ pos (length (flatten last_chunk)))
write_chunk-appends_example =
    write_chunk-appends bucket_api sample_os sample_store bucket_laws sample_upload (pos 5)
      last_chunk sample_env sample-IsUsable sample_current (omega (arith, last_length))
      sample_written

finish_upload-object_example :
    (finish_upload bucket_api sample_os sample_store sample_upload sample_env).1.service.objects
      (object_key sample_store (codes "video"))
    ≡ some (
        part_data
          (sample_bucket.parts (object_key sample_store (codes "video")) (codes "multipart")))
finish_upload-object_example =
    finish_upload-object bucket_api sample_os sample_store bucket_laws sample_upload sample_env refl
      sample-IsListed (bucket-finished sample_os sample_store sample_upload sample_env refl)

abbrev sample_result : WriteResult S3Upload × Env bucket_api
sample_result =
    write_chunk bucket_api sample_os sample_store sample_upload (pos 5) last_chunk sample_env

sample_finished :
    (finish_upload bucket_api sample_os sample_store sample_result.0.upload sample_result.1).0
    ≡ ok sample_result.0.upload
sample_finished =
    bucket-finished sample_os sample_store sample_result.0.upload sample_result.1
      (write_chunk-Wrote bucket_api sample_os sample_store bucket_laws sample_upload (pos 5)
        last_chunk sample_env sample-IsUsable sample_current (omega (arith, last_length))
        sample_written).known.1

write_chunk-finish_upload_example :
    (finish_upload bucket_api sample_os sample_store sample_result.0.upload
        sample_result.1).1.service.objects
      (object_key sample_store (codes "video"))
    ≡ some (got sample_store bucket_laws sample_upload sample_bucket ++ flatten last_chunk)
write_chunk-finish_upload_example =
    write_chunk-finish_upload bucket_api sample_os sample_store bucket_laws sample_upload 5
      last_chunk sample_env sample-IsUsable sample_current sample-IsListed (omega arith) refl
      (ap pos (omega (arith, last_length))) (omega (arith, last_length)) sample_written
      sample_finished

produce-HasCut_example : HasCut 4 (codes "abcdefghi") (produce 4 (codes "abcdefghi") [])
produce-HasCut_example =
    produce-HasCut 4 (codes "abcdefghi") [] (omega arith) (produce-error 4 (codes "abcdefghi"))
