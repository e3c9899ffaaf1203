-- ===== src/FileStore/Calls.antt =====
-- What each call of the file system leaves alone, and what it writes.
use tusd.Base.{
  ℕ, zero, suc, ◌≤◌, [], ◌∷◌, ◌++◌, ◌≡◌, ◌≢◌, refl, sym, Option, none, some, Bytes, arith, length,
  take, text_eq_iff, length-take, take_all, Option-cases, inl, inr, ◌∙◌, ap,
}
use tusd.Base.Dict.{Dict, lookup, lookup-insert}
use tusd.FileStore.Os.{
  Fault, Fs, open_for_append, mkdir_all, append_to, Written, write_until, write_end, next_fault,
  later_faults, close_file, read_file, stat_size,
}

pub files-close_file : (fs : Fs) → (close_file fs).1.files ≡ fs.files
unfolding close_file
files-close_file fs = ground arith

pub files-open_for_append : (path : Bytes) (fs : Fs) → (open_for_append path fs).1.files ≡ fs.files
unfolding open_for_append
files-open_for_append path fs = ground arith

pub files-mkdir_all : (dir : Bytes) (fs : Fs) → (mkdir_all dir fs).1.files ≡ fs.files
unfolding mkdir_all
files-mkdir_all dir fs = ground arith

pub files-read_file : (path : Bytes) (fs : Fs) → (read_file path fs).1.files ≡ fs.files
unfolding read_file
files-read_file path fs = ground arith

pub files-stat_size : (path : Bytes) (fs : Fs) → (stat_size path fs).1.files ≡ fs.files
unfolding stat_size
files-stat_size path fs = ground arith

pub lookup-append_to_ne :
    (path k part : Bytes) (files : Dict Bytes)
    → path ≢ k
    → lookup k (append_to path part files) ≡ lookup k files
unfolding append_to
lookup-append_to_ne path k part files h = elim (Option-cases (lookup path files)) [
  | inl e ↦ rw (e, append_to)
  | inr (content, e) ↦
      rw (e, append_to)
        (lookup-insert path k (content ++ part) files ∙ ground (arith, text_eq_iff path k))
]

pub lookup-append_to_self :
    (path part : Bytes) (files : Dict Bytes) {content : Bytes}
    → lookup path files ≡ some content
    → lookup path (append_to path part files) ≡ some (content ++ part)
unfolding append_to
lookup-append_to_self path part files {content} h =
    rw (h, append_to)
      (lookup-insert path path (content ++ part) files ∙ ground (arith, text_eq_iff path path))

-- A write to the end of a file appends the bytes that it counts, and all where it reports no error.
pub record WritesEnd (path bytes : Bytes) (fs : Fs) (w : Written) (fs' : Fs) : Type 0 where
  pub files : fs'.files ≡ append_to path (take w.count bytes) fs.files
  pub bounded : w.count ≤ length bytes
  pub whole : w.error ≡ none → w.count ≡ length bytes

take_length_take : (n : ℕ) (bytes : Bytes) → take (length (take n bytes)) bytes ≡ take n bytes
take_length_take zero bytes = refl
take_length_take (suc n) [] = refl
take_length_take (suc n) (c ∷ bytes) = ap (λ r. c ∷ r) (take_length_take n bytes)

write_until-WritesEnd :
    (fault : Option Fault) (path bytes : Bytes) (fs : Fs)
    → WritesEnd path bytes fs
        (write_until fault path bytes fs).0
        (write_until fault path bytes fs).1
unfolding write_until
write_until-WritesEnd none path bytes fs = record {
  files =
      ap (λ part. append_to path part fs.files) (sym (take_all (length bytes) bytes (omega arith)));
  bounded = omega arith;
  whole = λ e. refl;
}
write_until-WritesEnd (some f) path bytes fs = record {
  files = ap (λ part. append_to path part fs.files) (sym (take_length_take f.written bytes));
  bounded = omega (arith, length-take f.written bytes);
  whole = λ e. cc;
}

pub write_end-WritesEnd :
    (path bytes : Bytes) (fs : Fs)
    → WritesEnd path bytes fs (write_end path bytes fs).0 (write_end path bytes fs).1
unfolding write_end
write_end-WritesEnd path bytes fs =
    let w =
      write_until-WritesEnd (next_fault fs.faults) path bytes
        (record fs { faults = later_faults fs.faults }) in
    record { files = w.files; bounded = w.bounded; whole = w.whole }
