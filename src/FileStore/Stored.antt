-- ===== src/FileStore/Stored.antt =====
-- What `GetUpload` of the file store finds, and how uploads and their chunks stay apart.
use tusd.Base.{
  ℕ, ◌+◌, ◌<◌, List, [], ◌++◌, ◌≡◌, ◌≢◌, refl, none, some, Bytes, arith, length, take, ◌∙◌,
}
use tusd.Base.Int.{ℤ, pos, half_range}
use tusd.Base.Dict.{lookup}
use tusd.BodyReader.{flatten}
use tusd.Http.{ok}
use tusd.DataStore.{FileInfo, WriteResult}
use tusd.FileStore.{
  Platform, FileUpload, info_path, stored_bin_path, get_upload, write_chunk, or_not_found,
}
use tusd.FileStore.Os.{Fs, read_file, stat_size}
use tusd.FileStore.Append.{Appends, write_chunk-Appends}

-- No call of the file system fails from here on.
abbrev pub calm : Fs → Fs
calm fs = record fs { faults = [] }

module _ (os : Platform) (path : Bytes) where
  -- The upload `id` is on disk, with this info and this data.
  pub record IsStored (id : Bytes) (info : FileInfo) (content : Bytes) (fs : Fs) : Type 0 where
    pub text : Bytes
    pub info_file : lookup (info_path os path id) fs.files ≡ some text
    pub parsed : os.unmarshal text ≡ ok info
    pub bin_file : lookup (stored_bin_path os path info) fs.files ≡ some content
    pub apart : stored_bin_path os path info ≢ info_path os path id

  -- The handle that `GetUpload` makes of a stored upload.
  abbrev pub handle_of : Bytes → FileInfo → Bytes → FileUpload
  handle_of id info content = record {
    info = record info { offset = pos (length content) };
    info_path = info_path os path id;
    bin_path = stored_bin_path os path info;
  }

  read_file_found :
      (file : Bytes) (fs : Fs) {content : Bytes}
      → lookup file fs.files ≡ some content
      → read_file file (calm fs) ≡ (ok content, calm fs)
  unfolding read_file
  read_file_found file fs h = ground arith

  stat_size_found :
      (file : Bytes) (fs : Fs) {content : Bytes}
      → lookup file fs.files ≡ some content
      → stat_size file (calm fs) ≡ (ok (length content), calm fs)
  unfolding stat_size
  stat_size_found file fs h = ground arith

  -- `GetUpload` gives the size of the data file as the offset, whatever the info file says.
  pub get_upload-IsStored :
      (id : Bytes) (info : FileInfo) (content : Bytes) (fs : Fs)
      → IsStored id info content fs
      → get_upload os path id (calm fs) ≡ (ok (handle_of id info content), calm fs)
  unfolding get_upload or_not_found
  get_upload-IsStored id info content fs s = rw (
    read_file_found (info_path os path id) fs s.info_file,
    s.parsed,
    stat_size_found (stored_bin_path os path info) fs s.bin_file,
  )

  -- A chunk that is written through the handle of an upload, with any failures on the way.
  module _ (id : Bytes) (info : FileInfo) (content : Bytes) (fs : Fs) (offset : ℤ)
      (src : List Bytes) (stored : IsStored id info content fs)
      (small : length content + length (flatten src) < half_range) where
    handle : FileUpload
    handle = handle_of id info content

    result : WriteResult FileUpload
    result = (write_chunk handle offset src fs).0

    fs_after : Fs
    fs_after = (write_chunk handle offset src fs).1

    appends : Appends handle (flatten src) content fs result fs_after
    unfolding handle result fs_after
    appends =
        write_chunk-Appends (handle_of id info content) offset src fs content stored.bin_file refl
          small

    kept-IsStored : IsStored id info (content ++ take appends.count (flatten src)) fs_after
    unfolding handle result fs_after
    kept-IsStored = record {
      text = stored.text;
      info_file = appends.others (info_path os path id) stored.apart ∙ stored.info_file;
      parsed = stored.parsed;
      bin_file = appends.grown;
      apart = stored.apart;
    }

  -- Resuming after a failure: whatever failed while a chunk was written, the next `GetUpload` finds an
  -- upload whose data is the old data with the reported number of bytes of the chunk behind it, and
  -- whose offset is its size; the info is unchanged. The upload was on disk, calls succeed again, and
  -- its data with the chunk is below 2^63 bytes. Without an error the whole chunk is there.
  pub get_upload-write_chunk :
      (id : Bytes) (info : FileInfo) (content : Bytes) (fs : Fs) (offset : ℤ) (src : List Bytes)
      → IsStored id info content fs
      → length content + length (flatten src) < half_range
      → let (r, fs') = write_chunk (handle_of id info content) offset src fs in
        (n : ℕ) × (r.bytes_written ≡ pos n)
        × (get_upload os path id (calm fs')
            ≡ (ok (handle_of id info (content ++ take n (flatten src))), calm fs'))
        × (r.error ≡ none → n ≡ length (flatten src))
  unfolding handle result fs_after
  get_upload-write_chunk id info content fs offset src stored small = (
    a.count,
    a.counted,
    get_upload-IsStored id info _ _ (kept-IsStored id info content fs offset src stored small),
    a.whole,
  )
    where
      a :
          Appends
            (handle_of id info content)
            (flatten src)
            content
            fs
            (write_chunk (handle_of id info content) offset src fs).0
            (write_chunk (handle_of id info content) offset src fs).1
      a = appends id info content fs offset src stored small
