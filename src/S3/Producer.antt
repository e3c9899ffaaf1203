-- ===== src/S3/Producer.antt =====
-- `s3PartProducer` of pkg/s3store/s3store_part_producer.go: the source is cut into files of a part's size.
use tusd.Base.{ℕ, zero, suc, List, [], ◌∷◌, Option, none, some, Bytes, length, take, drop}
use tusd.Http.{Failure}

abbrev pub next_fault : List (Option Failure) → Option Failure
next_fault [] = none
next_fault (f ∷ disk) = f

abbrev pub later_faults : List (Option Failure) → List (Option Failure)
later_faults [] = []
later_faults (f ∷ disk) = disk

-- What is produced: the content of the files in their order, the error that ended it, and the faults left.
pub record Produced : Type 0 where
  pub files : List Bytes
  pub error : Option Failure
  pub disk : List (Option Failure)

abbrev pub add_file : Bytes → Produced → Produced
add_file file p = record p { files = file ∷ p.files }

-- `produce`, with `nextPart`: a fault of the temporary file ends it, and so does an empty read. Each
-- round takes one byte at least, so that a round for each byte and one more are enough.
unfoldable pub produce_rounds : ℕ → ℕ → Bytes → List (Option Failure) → Produced
produce_rounds zero size source disk = record { files = []; error = none; disk = disk }
produce_rounds (suc rounds) size source disk =
    let rest =
      add_file (take size source)
        (produce_rounds rounds size (drop size source) (later_faults disk)) in
    elim (next_fault disk) [
      | some e ↦ record { files = []; error = some e; disk = later_faults disk }
      | none ↦ elim (take size source) [
        | [] ↦ record { files = []; error = none; disk = later_faults disk }
        | b ∷ bytes ↦ rest
      ]
    ]

unfoldable pub produce : ℕ → Bytes → List (Option Failure) → Produced
unfolding produce_rounds
produce size source disk = produce_rounds (suc (length source)) size source disk
