-- ===== src/Tests.antt =====
-- Concrete runs of the code, at which the theorems with hypotheses apply.
mod Disks
mod Requests
mod Bucket
mod Samples
mod S3
mod Resumed
mod Hooks
mod FileLocker
mod Waiting
use tusd.Base.{
  ℕ, ◌+◌, ◌≤◌, ◌<◌, Bool, true, false, List, [], ◌∷◌, ◌++◌, Option, none, some, ◌≡◌, ◌≢◌, ◌↔◌, refl,
  Bytes, codes, arith, length, is_empty, map, has_prefix, text_eq, ◌*◌,
}
use tusd.Base.Int.{ℤ, pos, negsuc, ◌+ℤ◌}
use tusd.Base.Dict.{lookup}
use tusd.Strconv.{parse_int, format_int}
use tusd.Strconv.RoundTrip.{parse_int-format_int}
use tusd.Http.{HttpResponse, merge_with, Result, ok, err, detailed}
use tusd.Http.Errors.{err_modify_final, err_mismatch_offset}
use tusd.Http.Merge.{or_else, lookup-merge_with}
use tusd.Ids.{
  validate_upload_id, extract_id_from_path, extract_id_from_url, parse_concat, concat_header,
  has_slash_suffix, all_bytes, is_valid_id_byte,
}
use tusd.Ids.Laws.{
  IsPlainId, validate_upload_id-IsPlainId, extract_id_from_path-validate_upload_id,
  extract_id_from_url-append, NotBefore,
}
use tusd.Ids.Header.{IsWord, AllPlainIds, parse_concat-concat_header}
use tusd.BodyReader.{
  BodyEvent, read, eof, unexpected_eof, delivered, has_error, limited_read, drain, body_read,
  new_body_reader,
}
use tusd.BodyReader.Laws.{sent, length-delivered-le, delivered-sent}
use tusd.DataStore.{FileInfo}
use tusd.Handler.Chunk.{max_body_size, to_limit, exceeds_size}
use tusd.Handler.Chunk.Limit.{IsOpen, delivered-within_size, limit-overflow, delivered-over_max}
use tusd.Handler.Post.{new_info}
use tusd.S3.PartSize.{default_limits, calc_optimal_part_size, calc_optimal_part_size-optimal}
use tusd.S3.Keys.{split_ids, has_plus, split_ids-joined}

parse_int-format_int_example : parse_int (format_int (negsuc 41)) ≡ some (negsuc 41)
parse_int-format_int_example = parse_int-format_int (negsuc 41) (omega arith)

-- Two reads, and the end of the body.
abbrev two_reads : List BodyEvent
two_reads = read (1 ∷ (2 ∷ [])) none ∷ (read (3 ∷ []) (some eof) ∷ [])

length-delivered-le_example : length (delivered two_reads 2) ≤ 2
length-delivered-le_example = length-delivered-le two_reads 2

two_reads_whole : has_error two_reads (length two_reads) 10 ≡ none
unfolding has_error limited_read drain body_read new_body_reader
two_reads_whole = refl

delivered-sent_example : (delivered two_reads 10 ≡ sent two_reads) × (length (sent two_reads) ≤ 10)
delivered-sent_example = delivered-sent two_reads 10 two_reads_whole

-- An upload of 10 bytes that has 4 of them.
abbrev open_info : FileInfo
open_info = record new_info { size = pos 10; offset = pos 4 }

open_info-IsOpen : IsOpen open_info 4 10
open_info-IsOpen = record {
  known = refl;
  at = refl;
  of = refl;
  within = omega arith;
  in_range = omega arith;
}

open_info_fits : exceeds_size open_info (pos 3) ≡ false
unfolding exceeds_size ◌+ℤ◌
open_info_fits = refl

delivered-within_size_example :
    4 + length (delivered two_reads (to_limit (max_body_size (pos 0) open_info (pos 3)))) ≤ 10
delivered-within_size_example =
    delivered-within_size (pos 0) open_info 4 10 (pos 3) two_reads open_info-IsOpen (omega arith)
      open_info_fits

-- 4 more than the greatest `int64`, less 4: the sum with the offset leaves the range.
abbrev long : ℕ
long = 9223372036854775806

limit-overflow_example :
    (exceeds_size open_info (pos long) ≡ false)
    × (10 < 4 + to_limit (max_body_size (pos 0) open_info (pos long)))
limit-overflow_example =
    limit-overflow (pos 0) open_info 4 10 long open_info-IsOpen (omega arith) (omega arith)
      (omega arith)

abbrev deferred_info : FileInfo
deferred_info = record new_info { size_is_deferred = true }

three_sent : length (sent two_reads) ≡ 3
unfolding sent
three_sent = refl

three_whole : has_error two_reads (length two_reads) 3 ≡ none
unfolding has_error limited_read drain body_read new_body_reader
three_whole = refl

delivered-over_max_example :
    (exceeds_size deferred_info (pos 3) ≡ false)
    × (to_limit (max_body_size (pos 2) deferred_info (pos 3)) ≡ 3)
    × (delivered two_reads (to_limit (max_body_size (pos 2) deferred_info (pos 3)))
        ≡ sent two_reads)
    × (2 < length (delivered two_reads (to_limit (max_body_size (pos 2) deferred_info (pos 3)))))
delivered-over_max_example =
    delivered-over_max 2 3 deferred_info two_reads refl (omega arith) three_sent three_whole

-- `a/b`
abbrev nested_id : Bytes
nested_id = 97 ∷ (47 ∷ (98 ∷ []))

nested_id_valid : validate_upload_id nested_id ≡ none
unfolding validate_upload_id codes all_bytes is_valid_id_byte has_slash_suffix is_empty has_prefix
nested_id_valid = refl

extract_id_from_path-validate_upload_id_example : extract_id_from_path nested_id ≡ ok nested_id
extract_id_from_path-validate_upload_id_example =
    extract_id_from_path-validate_upload_id nested_id nested_id_valid

nested_id-IsPlainId : IsPlainId nested_id
nested_id-IsPlainId = validate_upload_id-IsPlainId nested_id nested_id_valid

-- `h/`
abbrev short_base : Bytes
short_base = 104 ∷ (47 ∷ [])

extract_id_from_url-append_example :
    extract_id_from_url (short_base ++ nested_id) short_base ≡ ok nested_id
extract_id_from_url-append_example =
    extract_id_from_url-append short_base nested_id nested_id-IsPlainId

calc_optimal_part_size-optimal_example :
    (3000000000000 ≤ (calc_optimal_part_size default_limits 3000000000000).size * 10000)
    × (default_limits.preferred_part_size
        ≤ (calc_optimal_part_size default_limits 3000000000000).size)
    × (((calc_optimal_part_size default_limits 3000000000000).too_large ≡ false)
        ↔ (3000000000000 ≤ default_limits.max_part_size * 10000))
calc_optimal_part_size-optimal_example =
    calc_optimal_part_size-optimal default_limits 3000000000000 (omega arith) (omega arith)
      (omega arith)

no_plus : has_plus (2 ∷ []) ≡ false
unfolding has_plus
no_plus = refl

split_ids-joined_example : split_ids ((1 ∷ (43 ∷ [])) ++ (43 ∷ (2 ∷ []))) ≡ (1 ∷ (43 ∷ []), 2 ∷ [])
split_ids-joined_example = split_ids-joined (1 ∷ (43 ∷ [])) (2 ∷ []) no_plus

abbrev first_response : HttpResponse
first_response = record { status_code = 200; body = []; header = ((1 ∷ []), (10 ∷ [])) ∷ [] }

abbrev second_response : HttpResponse
second_response = record { status_code = 0; body = []; header = ((1 ∷ []), (20 ∷ [])) ∷ [] }

no_key : lookup {V = Bytes} (1 ∷ []) [] ≡ none
unfolding lookup
no_key = refl

lookup-merge_with_example :
    lookup (1 ∷ []) (merge_with first_response second_response).header
    ≡ or_else (lookup (1 ∷ []) second_response.header) (lookup (1 ∷ []) first_response.header)
lookup-merge_with_example =
    lookup-merge_with (1 ∷ []) first_response second_response (no_key, tt) (no_key, tt)

-- The default base path, and what HEAD puts before it.
abbrev files_path : Bytes
files_path = codes "/files/"

abbrev local_origin : Bytes
local_origin = codes "http://host"

local_origin-NotBefore : NotBefore files_path local_origin
unfolding NotBefore has_prefix codes
local_origin-NotBefore =
    (refl, (refl, (refl, (refl, (refl, (refl, (refl, (refl, (refl, (refl, (refl, tt)))))))))))

local_url-IsWord : IsWord (local_origin ++ files_path)
unfolding codes
local_url-IsWord = (
  refl,
  (
    refl,
    (
      refl,
      (
        refl,
        (
          refl,
          (
            refl,
            (
              refl,
              (refl, (refl, (refl, (refl, (refl, (refl, (refl, (refl, (refl, (refl, refl)))))))))),
            ),
          ),
        ),
      ),
    ),
  ),
)

two_ids-AllPlainIds : AllPlainIds (nested_id ∷ (nested_id ∷ []))
unfolding is_empty
two_ids-AllPlainIds = (refl, nested_id-IsPlainId, (refl, nested_id-IsPlainId, tt))

parse_concat-concat_header_example :
    parse_concat
      (concat_header (map (λ i. (local_origin ++ files_path) ++ i) (nested_id ∷ (nested_id ∷ []))))
      files_path
    ≡ record {
      is_partial = false;
      is_final = true;
      partial_uploads = nested_id ∷ (nested_id ∷ []);
      error = none;
    }
parse_concat-concat_header_example =
    parse_concat-concat_header local_origin files_path nested_id (nested_id ∷ [])
      local_origin-NotBefore local_url-IsWord two_ids-AllPlainIds
