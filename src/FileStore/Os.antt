-- ===== src/FileStore/Os.antt =====
-- The file system that the file store works on: the calls of Go's `os` package that it makes. Every call
-- can fail; the failures to come are a part of the state.
use tusd.Base.{
  ℕ, Bool, false, ◌||◌, List, [], ◌∷◌, ◌++◌, Option, none, some, Bytes, codes, text_eq, length,
  take, if◌then◌else◌,
}
use tusd.Base.Dict.{Dict, lookup, insert, erase}
use tusd.Http.{Failure, other, Result, ok, err}

-- A call that fails, and for a write the number of bytes that reach the disk before.
pub record Fault : Type 0 where
  pub written : ℕ
  pub error : Failure

-- Each call takes one entry of `faults`; where the list is at its end, all goes well.
pub record Fs : Type 0 where
  pub files : Dict Bytes
  pub dirs : List Bytes
  pub faults : List (Option Fault)
  pub uids : ℕ

abbrev pub M : Type 0 → Type 0
M A = Fs → Result A × Fs

abbrev pub and_then : {A B : Type 0} → Result A × Fs → (A → M B) → Result B × Fs
and_then (ok a, fs) f = f a fs
and_then (err e, fs) f = (err e, fs)

infixl 5 ◌>>=◌ ◌>>◌
abbrev pub ◌>>=◌ : {A B : Type 0} → M A → (A → M B) → M B
◌>>=◌ m f fs = and_then (m fs) f

abbrev pub ◌>>◌ : {B : Type 0} → M (Unit {0}) → M B → M B
◌>>◌ m k = m >>= λ _. k

abbrev pub pure : {A : Type 0} → A → M A
pure a fs = (ok a, fs)

abbrev pub raise : {A : Type 0} → Failure → M A
raise e fs = (err e, fs)

abbrev pub attempt : {A : Type 0} → M A → M (Result A)
attempt m fs = let (r, fs') = m fs in (ok r, fs')

-- `os.ErrNotExist`
unfoldable pub err_not_exist : Failure
err_not_exist = other (codes "file does not exist")

unfoldable pub is_not_exist : Failure → Bool
is_not_exist (other text) = text_eq text (codes "file does not exist")
is_not_exist _ = false

abbrev pub contains : List Bytes → Bytes → Bool
contains [] d = false
contains (e ∷ dirs) d = text_eq e d || contains dirs d

abbrev pub next_fault : List (Option Fault) → Option Fault
next_fault [] = none
next_fault (f ∷ faults) = f

abbrev pub later_faults : List (Option Fault) → List (Option Fault)
later_faults [] = []
later_faults (f ∷ faults) = faults

-- A call: it fails by the next fault, or does what it should.
abbrev pub syscall : {A : Type 0} → (Fault → M A) → M A → M A
syscall failed done fs =
    let fs' = record fs { faults = later_faults fs.faults } in
    elim (next_fault fs.faults) [ none ↦ done fs' | some f ↦ failed f fs' ]

abbrev pub fails : {A : Type 0} → Fault → M A
fails f = raise f.error

-- `os.OpenFile(path, os.O_CREATE|os.O_WRONLY|os.O_TRUNC, perm)`, in the directory `dir`
unfoldable pub open_truncated : Bytes → Bytes → M (Unit {0})
open_truncated dir path = syscall fails (λ fs.
    if contains fs.dirs dir
    then (ok tt, record fs { files = insert path [] fs.files })
    else (err err_not_exist, fs))

-- `os.OpenFile(path, os.O_WRONLY|os.O_APPEND, perm)`
unfoldable pub open_for_append : Bytes → M (Unit {0})
open_for_append path = syscall fails (λ fs. elim (lookup path fs.files) [
  | none ↦ (err err_not_exist, fs)
  | some content ↦ (ok tt, fs)
])

-- `os.MkdirAll(dir, perm)`
unfoldable pub mkdir_all : Bytes → M (Unit {0})
mkdir_all dir = syscall fails (λ fs. (ok tt, record fs { dirs = dir ∷ fs.dirs }))

unfoldable pub append_to : Bytes → Bytes → Dict Bytes → Dict Bytes
append_to path bytes files = elim (lookup path files) [
  | none ↦ files
  | some content ↦ insert path (content ++ bytes) files
]

-- Bytes written, and the error that stopped the writing.
pub record Written : Type 0 where
  pub count : ℕ
  pub error : Option Failure

-- `file.Write` and `io.Copy` to the end of an open file: a fault may leave a part of the bytes.
unfoldable pub write_until : Option Fault → Bytes → Bytes → Fs → Written × Fs
write_until none path bytes fs = (
  record { count = length bytes; error = none },
  record fs { files = append_to path bytes fs.files },
)
write_until (some f) path bytes fs = (
  record { count = length (take f.written bytes); error = some f.error },
  record fs { files = append_to path (take f.written bytes) fs.files },
)

unfoldable pub write_end : Bytes → Bytes → Fs → Written × Fs
write_end path bytes fs =
    write_until (next_fault fs.faults) path bytes (record fs { faults = later_faults fs.faults })

-- A call that reports its errors in another way.
abbrev pub returning : {A : Type 0} → (Fs → A × Fs) → M A
returning m fs = let (a, fs') = m fs in (ok a, fs')

-- `file.Close`
unfoldable pub close_file : M (Unit {0})
close_file = syscall fails (pure tt)

-- `os.ReadFile`, and `os.Open` with a copy to the end
unfoldable pub read_file : Bytes → M Bytes
read_file path = syscall fails (λ fs. elim (lookup path fs.files) [
  | none ↦ (err err_not_exist, fs)
  | some content ↦ (ok content, fs)
])

-- The size that `os.Stat` gives.
unfoldable pub stat_size : Bytes → M ℕ
stat_size path = syscall fails (λ fs. elim (lookup path fs.files) [
  | none ↦ (err err_not_exist, fs)
  | some content ↦ (ok (length content), fs)
])

-- `os.Remove`
unfoldable pub remove_file : Bytes → M (Unit {0})
remove_file path = syscall fails (λ fs. elim (lookup path fs.files) [
  | none ↦ (err err_not_exist, fs)
  | some content ↦ (ok tt, record fs { files = erase path fs.files })
])
