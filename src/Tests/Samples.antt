-- ===== src/Tests/Samples.antt =====
-- An upload to the S3 store that is under way, on a service in memory.
use tusd.Base.{
  ◌≡◌, refl, false, [], ◌∷◌, none, some, codes, text_eq, is_empty, arith, length, if◌then◌else◌,
}
use tusd.Base.Int.{pos}
use tusd.Http.{ok}
use tusd.DataStore.{FileInfo}
use tusd.S3.Service.{Env}
use tusd.S3.Keys.{metadata_key_with_prefix, with_prefix}
use tusd.S3.Upload.{object_key, Platform, S3Store, S3Upload, part_key}
use tusd.S3.Laws.{AllBelow, bytes_or_empty}
use tusd.Tests.Bucket.{Bucket, bucket_api, etag}

abbrev pub sample_info : FileInfo
sample_info = record {
  id = codes "video+multipart";
  size = pos 8;
  size_is_deferred = false;
  offset = pos 5;
  meta_data = [];
  is_partial = false;
  is_final = false;
  partial_uploads = [];
  storage = none;
}

abbrev pub sample_os : Platform
sample_os = record {
  marshal = λ info. codes "{}";
  unmarshal = λ text. ok sample_info;
  replace_all = λ pattern text by. text;
  uid = λ n. codes "fresh";
}

-- Parts of 3 to 4 bytes.
abbrev pub sample_store : S3Store
sample_store = record {
  limits = record {
    max_part_size = 100;
    min_part_size = 3;
    preferred_part_size = 4;
    max_multipart_parts = 10;
    max_object_size = 1000;
  };
  prefixes = record { object_prefix = []; metadata_object_prefix = [] };
  bucket = codes "bucket";
}

abbrev pub sample_upload : S3Upload
sample_upload = record {
  object_id = codes "video";
  multipart_id = codes "multipart";
  info = some sample_info;
  parts = record { number = 1; size = pos 4; etag = etag } ∷ [];
  incomplete_part_size = 1;
}

-- One part, and an incomplete part of one byte.
abbrev pub sample_bucket : Bucket
sample_bucket = record {
  objects = λ key.
      if text_eq key (codes "video.part")
      then some (codes "e")
      else if text_eq key (codes "video.info")
      then some (codes "{}")
      else none;
  parts = λ key id. (1, codes "abcd") ∷ [];
}

abbrev pub sample_env : Env bucket_api
sample_env = record { service = sample_bucket; disk = []; uids = 0 }

pub sample_incomplete :
    1 ≡ length (bytes_or_empty (sample_bucket.objects (part_key sample_store (codes "video"))))
unfolding part_key metadata_key_with_prefix with_prefix is_empty codes text_eq
sample_incomplete = refl

pub sample-AllBelow :
    AllBelow 2 (sample_bucket.parts (object_key sample_store (codes "video")) (codes "multipart"))
unfolding AllBelow
sample-AllBelow = (omega arith, tt)
