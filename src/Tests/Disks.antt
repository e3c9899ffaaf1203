-- ===== src/Tests/Disks.antt =====
-- Runs of the file store and of the handlers over it.
use tusd.Base.{
  ℕ, ◌+◌, ◌<◌, false, List, [], ◌∷◌, ◌++◌, none, some, ◌≡◌, refl, Bytes, codes, arith, length,
  is_empty, text_eq, take,
}
use tusd.Base.Int.{pos, half_range}
use tusd.Base.Dict.{lookup}
use tusd.Http.{ok, err, detailed}
use tusd.Http.Errors.{err_not_found}
use tusd.BodyReader.{flatten}
use tusd.DataStore.{FileInfo}
use tusd.FileStore.{
  Platform, storage_key_path, storage_key_info_path, storage_path, info_path, stored_bin_path,
  default_bin_path, new_bin_path, make_upload, new_upload, get_upload, write_chunk, terminate,
}
use tusd.FileStore.Os.{Fs}
use tusd.FileStore.Append.{Appends, write_chunk-Appends}
use tusd.FileStore.Stored.{calm, IsStored, handle_of, get_upload-write_chunk}
use tusd.FileStore.Lifecycle.{
  SurvivesJson, identified, HasPaths, new_upload_fs, new_upload-IsStored, get_upload-terminate,
}
use tusd.Handler.Post.{new_info}
use tusd.FileStore.{stored_bin_path}

-- The directory `d`, and the upload `a` of 5 bytes in it.
abbrev pub disk_path : Bytes
disk_path = 100 ∷ []

abbrev pub disk_id : Bytes
disk_id = 97 ∷ []

abbrev pub disk_bin : Bytes
disk_bin = 100 ∷ (47 ∷ (97 ∷ []))

abbrev pub disk_info : Bytes
disk_info = disk_bin ++ codes ".info"

abbrev pub old_bytes : Bytes
old_bytes = 1 ∷ (2 ∷ [])

abbrev pub stored_info : FileInfo
stored_info = record new_info {
  id = disk_id;
  size = pos 5;
  storage = some (
      (codes "Type", codes "filestore")
      ∷ ((storage_key_path, disk_bin) ∷ ((storage_key_info_path, disk_info) ∷ [])));
}

-- One info is stored at most, and no path is absolute.
abbrev pub sample_os : Platform
sample_os = record {
  marshal = λ info. codes "{}";
  unmarshal = λ text. ok stored_info;
  join = λ a b. a ++ (47 ∷ b);
  dir = λ file. disk_path;
  is_abs = λ file. false;
  uid = λ n. n ∷ [];
}

-- Two bytes of the upload are there; the disk fails when one more byte is written.
abbrev pub sample_fs : Fs
sample_fs = record {
  files = (disk_info, codes "{}") ∷ ((disk_bin, old_bytes) ∷ []);
  dirs = disk_path ∷ [];
  faults = none ∷ (some (record { written = 1; error = detailed err_not_found }) ∷ []);
  uids = 0;
}

sample_path : stored_bin_path sample_os disk_path stored_info ≡ disk_bin
unfolding stored_bin_path storage_path is_empty lookup text_eq codes
sample_path = refl

pub sample-IsStored : IsStored sample_os disk_path disk_id stored_info old_bytes sample_fs
unfolding stored_bin_path storage_path is_empty lookup text_eq codes info_path
sample-IsStored = record {
  text = codes "{}";
  info_file = refl;
  parsed = refl;
  bin_file = refl;
  apart = λ e. grind (arith, e);
}

-- Three more bytes, in two reads.
abbrev pub chunk : List Bytes
chunk = (3 ∷ []) ∷ ((4 ∷ (5 ∷ [])) ∷ [])

chunk_small : length old_bytes + length (flatten chunk) < half_range
unfolding flatten
chunk_small = omega arith

write_chunk-Appends_example :
    Appends
      (handle_of sample_os disk_path disk_id stored_info old_bytes)
      (flatten chunk)
      old_bytes
      sample_fs
      (write_chunk
        (handle_of sample_os disk_path disk_id stored_info old_bytes)
        (pos 2)
        chunk
        sample_fs).0
      (write_chunk
        (handle_of sample_os disk_path disk_id stored_info old_bytes)
        (pos 2)
        chunk
        sample_fs).1
write_chunk-Appends_example =
    write_chunk-Appends (handle_of sample_os disk_path disk_id stored_info old_bytes) (pos 2) chunk
      sample_fs old_bytes sample-IsStored.bin_file refl chunk_small

get_upload-write_chunk_example :
    let (r, fs') =
      write_chunk
        (handle_of sample_os disk_path disk_id stored_info old_bytes)
        (pos 2)
        chunk
        sample_fs in
    (n : ℕ) × (r.bytes_written ≡ pos n)
    × (get_upload sample_os disk_path disk_id (calm fs') ≡ (
      ok (handle_of sample_os disk_path disk_id stored_info (old_bytes ++ take n (flatten chunk))),
      calm fs',
    ))
    × (r.error ≡ none → n ≡ length (flatten chunk))
get_upload-write_chunk_example =
    get_upload-write_chunk sample_os disk_path disk_id stored_info old_bytes sample_fs (pos 2) chunk
      sample-IsStored chunk_small

get_upload-terminate_example :
    let (r, fs') =
      terminate (handle_of sample_os disk_path disk_id stored_info old_bytes) (calm sample_fs) in
    (r ≡ ok tt) × (get_upload sample_os disk_path disk_id fs' ≡ (err (detailed err_not_found), fs'))
get_upload-terminate_example =
    get_upload-terminate sample_os disk_path disk_id stored_info old_bytes sample_fs sample-IsStored

abbrev pub asked_info : FileInfo
asked_info = record new_info { id = disk_id; size = pos 5 }

asked-HasPaths : HasPaths sample_os disk_path (identified sample_os disk_path asked_info sample_fs)
unfolding is_empty new_bin_path default_bin_path storage_path info_path codes
asked-HasPaths = record { apart = λ e. grind (arith, e); named = refl }

asked-SurvivesJson :
    SurvivesJson sample_os
      (make_upload sample_os disk_path (identified sample_os disk_path asked_info sample_fs)).info
unfolding is_empty make_upload new_bin_path default_bin_path storage_path info_path codes
asked-SurvivesJson = refl

new_upload-IsStored_example :
    let upload =
      make_upload sample_os disk_path (identified sample_os disk_path asked_info sample_fs) in
    (new_upload sample_os disk_path asked_info (calm sample_fs)
      ≡ (ok upload, new_upload_fs sample_os disk_path asked_info sample_fs))
    × IsStored sample_os disk_path
        (identified sample_os disk_path asked_info sample_fs).id
        upload.info
        []
        (new_upload_fs sample_os disk_path asked_info sample_fs)
new_upload-IsStored_example =
    new_upload-IsStored sample_os disk_path asked_info sample_fs asked-HasPaths asked-SurvivesJson
