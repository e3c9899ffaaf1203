-- ===== src/FileStore/Calm.antt =====
-- Writing of a chunk while no call of the file system fails.
use tusd.Base.{List, none, some, ◌≡◌, refl, Bytes, arith, length}
use tusd.Base.Int.{ℤ}
use tusd.Base.Dict.{lookup}
use tusd.Http.{ok}
use tusd.BodyReader.{flatten}
use tusd.FileStore.{FileUpload, write_chunk, wrote, after_open, after_copy, after_close}
use tusd.FileStore.Os.{Fs, open_for_append, write_end, write_until, close_file, append_to}
use tusd.FileStore.Stored.{calm}

open_for_append-calm :
    (file : Bytes) (fs : Fs) {content : Bytes}
    → lookup file fs.files ≡ some content
    → open_for_append file (calm fs) ≡ (ok tt, calm fs)
unfolding open_for_append
open_for_append-calm file fs h = ground arith

pub write_chunk-calm :
    (u : FileUpload) (offset : ℤ) (src : List Bytes) (fs : Fs) {content : Bytes}
    → lookup u.bin_path fs.files ≡ some content
    → write_chunk u offset src (calm fs) ≡ (
      wrote u (length (flatten src)) none (length src),
      record (calm fs) { files = append_to u.bin_path (flatten src) fs.files },
    )
unfolding write_chunk after_open write_end write_until after_copy after_close close_file
write_chunk-calm u offset src fs h = rw (open_for_append-calm u.bin_path fs h) refl
