-- ===== src/FileStore/Append.antt =====
-- `WriteChunk` of the file store: whatever fails, the data file has grown by exactly what is reported.
use tusd.Base.{
  ℕ, ◌+◌, ◌≤◌, ◌<◌, List, ◌++◌, ◌≡◌, ◌≢◌, refl, sym, Option, none, some, Bytes, arith, length,
  append-nil, take, ◌∙◌, ap,
}
use tusd.Base.Int.{ℤ, pos, ◌+ℤ◌, add_pos, half_range}
use tusd.Base.Dict.{lookup}
use tusd.BodyReader.{flatten}
use tusd.Http.{Failure, Result, ok, err}
use tusd.DataStore.{WriteResult}
use tusd.FileStore.{FileUpload, write_chunk, wrote, after_open, after_close, after_copy, no_write}
use tusd.FileStore.Os.{Fs, Written, open_for_append, write_end, close_file}
use tusd.FileStore.Calls.{
  files-close_file, files-open_for_append, lookup-append_to_self, lookup-append_to_ne, WritesEnd,
  write_end-WritesEnd,
}

-- What a write of `src` has done to the files: the count is a number of bytes of `src`; the data file
-- has grown by these; no other file has changed; and without an error all of `src` is written.
pub record Appends (upload : FileUpload) (src content : Bytes) (fs : Fs)
    (r : WriteResult FileUpload) (fs' : Fs) : Type 0 where
  pub count : ℕ
  pub counted : r.bytes_written ≡ pos count
  pub offset : r.upload.info.offset ≡ pos (length content + count)
  pub bounded : count ≤ length src
  pub grown : lookup upload.bin_path fs'.files ≡ some (content ++ take count src)
  pub others :
      (path : Bytes) → upload.bin_path ≢ path → lookup path fs'.files ≡ lookup path fs.files
  pub whole : r.error ≡ none → count ≡ length src

-- The result reports `n` bytes, and the files are as they were.
record Reports (upload : FileUpload) (n : ℕ) (error : Option Failure) (fs : Fs)
    (r : WriteResult FileUpload) (fs' : Fs) : Type 0 where
  counted : r.bytes_written ≡ pos n
  offset : r.upload.info.offset ≡ upload.info.offset +ℤ pos n
  kept : fs'.files ≡ fs.files
  failed : r.error ≡ none → error ≡ none

after_close-Reports :
    (upload : FileUpload) (n reads : ℕ) (closed : Result (Unit {0}) × Fs) (fs : Fs)
    → closed.1.files ≡ fs.files
    → Reports upload n none fs
        (after_close upload n reads closed).0
        (after_close upload n reads closed).1
unfolding after_close wrote
after_close-Reports upload n reads (ok u, fs') fs h = record {
  counted = refl;
  offset = refl;
  kept = h;
  failed = λ e. refl;
}
after_close-Reports upload n reads (err f, fs') fs h = record {
  counted = refl;
  offset = refl;
  kept = h;
  failed = λ e. refl;
}

after_copy-Reports :
    (upload : FileUpload) (n reads : ℕ) (error : Option Failure) (fs : Fs)
    → Reports upload n error fs
        (after_copy upload n reads error fs).0
        (after_copy upload n reads error fs).1
unfolding after_copy wrote
after_copy-Reports upload n reads none fs =
    after_close-Reports upload n reads (close_file fs) fs (files-close_file fs)
after_copy-Reports upload n reads (some f) fs = record {
  counted = refl;
  offset = refl;
  kept = files-close_file fs;
  failed = λ e. e;
}

after_open-Appends :
    (upload : FileUpload) (src : List Bytes) (opened : Result (Unit {0}) × Fs) (fs : Fs)
    (content : Bytes)
    → opened.1.files ≡ fs.files
    → lookup upload.bin_path fs.files ≡ some content
    → upload.info.offset ≡ pos (length content)
    → length content + length (flatten src) < half_range
    → Appends upload
        (flatten src)
        content
        fs
        (after_open upload src opened).0
        (after_open upload src opened).1
unfolding after_open no_write
after_open-Appends upload src (err f, fs') fs content h found at small = record {
  count = 0;
  counted = refl;
  offset = at ∙ ap pos (omega arith);
  bounded = omega arith;
  grown = rw h (found ∙ ap some (sym (append-nil content)));
  others = λ path ne. rw h;
  whole = λ e. cc;
}
after_open-Appends upload src (ok u, fs') fs content h found at small = record {
  count = w.count;
  counted = r.counted;
  offset =
      r.offset
      ∙ ap (λ o. o +ℤ pos w.count) at
      ∙ add_pos (length content) w.count (omega (arith, e.bounded));
  bounded = e.bounded;
  grown =
      ap (lookup upload.bin_path) (r.kept ∙ e.files)
      ∙ lookup-append_to_self upload.bin_path _ fs'.files (ap (lookup upload.bin_path) h ∙ found);
  others = λ path ne.
      ap (lookup path) (r.kept ∙ e.files)
      ∙ lookup-append_to_ne upload.bin_path path _ fs'.files ne
      ∙ ap (lookup path) h;
  whole = λ none. e.whole (r.failed none);
}
  where
    w : Written
    w = (write_end upload.bin_path (flatten src) fs').0

    e :
        WritesEnd upload.bin_path
          (flatten src)
          fs'
          w
          (write_end upload.bin_path (flatten src) fs').1
    e = write_end-WritesEnd upload.bin_path (flatten src) fs'

    r :
        Reports upload w.count w.error
          (write_end upload.bin_path (flatten src) fs').1
          (after_copy upload w.count
            (length src)
            w.error
            (write_end upload.bin_path (flatten src) fs').1).0
          (after_copy upload w.count
            (length src)
            w.error
            (write_end upload.bin_path (flatten src) fs').1).1
    r = after_copy-Reports upload w.count (length src) w.error _

-- A chunk written at the end of an upload whose offset is the size of its data file, below 2^63
-- bytes: whatever call of the file system fails, the reported count of bytes has reached the data
-- file and no more, no other file has changed, and without an error the whole chunk is stored.
pub write_chunk-Appends :
    (upload : FileUpload) (offset : ℤ) (src : List Bytes) (fs : Fs) (content : Bytes)
    → lookup upload.bin_path fs.files ≡ some content
    → upload.info.offset ≡ pos (length content)
    → length content + length (flatten src) < half_range
    → Appends upload
        (flatten src)
        content
        fs
        (write_chunk upload offset src fs).0
        (write_chunk upload offset src fs).1
unfolding write_chunk
write_chunk-Appends upload offset src fs content found at small =
    after_open-Appends upload src (open_for_append upload.bin_path fs) fs content
      (files-open_for_append upload.bin_path fs) found at small
