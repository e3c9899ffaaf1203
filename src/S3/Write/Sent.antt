-- ===== src/S3/Write/Sent.antt =====
-- What `uploadParts` does with a source.
use tusd.Base.{
  ℕ, suc, ◌+◌, ◌*◌, ◌≤◌, ◌<◌, ◌≡◌, refl, false, [], ◌++◌, Option, none, some, Bytes, arith, ap, sym,
  ◌∙◌, subst, length,
}
use tusd.Base.Int.{ℤ, pos, pos_part, half_range}
use tusd.Http.{Failure, Result, ok, err}
use tusd.DataStore.{FileInfo}
use tusd.S3.PartSize.{PartLimits, choose_part_size-preferred, calc_optimal_part_size}
use tusd.S3.Service.{S3Api, Env}
use tusd.S3.Producer.{Produced, produce}
use tusd.S3.Upload.{Platform, S3Store, S3Upload, Fetched, get_internal_info, object_key, part_key}
use tusd.S3.Write.{
  Progress, Uploaded, part_size, counted, start_of, upload_files, upload_produced, upload_sized,
  upload_with, upload_parts,
}
use tusd.S3.Laws.{S3Laws, AllBelow, bytes_or_empty}
use tusd.S3.Write.Cut.{HasCut, produce-HasCut}
use tusd.S3.Write.Steps.{Same, Same-upload_files, upload_files-uploaded}
use tusd.S3.Write.Content.{got, IsReady, upload_files-received}
use tusd.S3.Write.Complete.{IsListed, IsDone, upload_files-IsDone}

-- Limits like those of `New`: the preferred size is one that a part may have.
pub record IsUsable (limits : PartLimits) : Type 0 where
  pub some_parts : 0 < limits.max_multipart_parts
  pub no_overflow : limits.preferred_part_size * limits.max_multipart_parts < half_range
  pub some_bytes : 0 < limits.preferred_part_size
  pub large_enough : limits.min_part_size ≤ limits.preferred_part_size

pub part_size-ok :
    (store : S3Store) (total : ℤ) {size : ℕ}
    → IsUsable store.limits
    → part_size store total ≡ ok size
    → (store.limits.min_part_size ≤ size) × (0 < size)
unfolding part_size calc_optimal_part_size
part_size-ok store total usable h =
    let enough =
      choose_part_size-preferred store.limits (pos_part total) usable.some_parts
        usable.no_overflow in
    let large = usable.large_enough in let positive = usable.some_bytes in ground arith

counted-none :
    (p : Progress) (error : Option Failure)
    → (counted p error).1 ≡ none
    → (p.error ≡ none) × ((error ≡ none) × ((counted p error).0 ≡ p.uploaded))
unfolding counted
counted-none p error h = ground arith

module _ (api : S3Api) (os : Platform) (store : S3Store) where
  pub get_internal_info-cached :
      (upload : S3Upload) (env : Env api) {info : FileInfo}
      → upload.info ≡ some info
      → get_internal_info api os store upload env ≡ (
        ok (
          record {
            info = info;
            parts = upload.parts;
            incomplete_part_size = upload.incomplete_part_size;
          },
          upload,
        ),
        env,
      )
  unfolding get_internal_info
  get_internal_info-cached upload env e = rw e

  -- What `uploadParts` does with a source, where it has no error.
  pub record Sent (L : S3Laws api) (upload : S3Upload) (info : FileInfo) (offset : ℤ)
      (source : Bytes) (env : Env api) (u : Uploaded) (env' : Env api) : Type 0 where
    pub content : got store L upload env'.service ≡ got store L upload env.service ++ source
    pub count : u.bytes ≡ pos (length source)
    pub same : Same upload u.upload
    pub complete :
        (o : ℕ)
        → offset ≡ pos o
        → info.size_is_deferred ≡ false
        → info.size ≡ pos (o + length source)
        → o + length source < half_range
        → IsListed store L upload env.service
        → (bytes_or_empty (L.object env'.service (part_key store upload.object_id)) ≡ [])
          × IsListed store L u.upload env'.service

  upload_produced-Sent :
      (L : S3Laws api) (upload : S3Upload) (f : Fetched) (offset : ℤ) (source : Bytes) (size : ℕ)
      (produced : Produced) (env : Env api)
      → store.limits.min_part_size ≤ size
      → (produced.error ≡ none → HasCut size source produced)
      → length source < half_range
      → IsReady store L upload (suc (length f.parts)) env.service
      → (upload_produced api os store upload f offset produced env).0.error ≡ none
      → Sent L upload f.info offset source env
          (upload_produced api os store upload f offset produced env).0
          (upload_produced api os store upload f offset produced env).1
  unfolding upload_produced start_of HasCut IsDone IsListed
  upload_produced-Sent L upload f offset source size produced env m cuts small ready h =
      let (no_error, (no_fault, count)) = counted-none _ produced.error h in
      let (whole, cut) = cuts no_fault in
      record {
        content =
            upload_files-received store L f.info offset size produced.files
              (start_of upload f.parts) (record env { disk = produced.disk }) m cut
              (record { free = ready.free; below = ready.below }) no_error
            ∙ ap (λ s. got store L upload env.service ++ s) whole;
        count =
            count
            ∙ upload_files-uploaded store f.info offset produced.files (start_of upload f.parts)
                (record env { disk = produced.disk }) 0 refl (omega (arith, ap length whole))
            ∙ ap pos (omega (arith, ap length whole));
        same =
            Same-upload_files store f.info offset produced.files (start_of upload f.parts)
              (record env { disk = produced.disk });
        complete = λ o at d e l listed.
            let loop =
              upload_files api store f.info offset produced.files (start_of upload f.parts)
                (record env { disk = produced.disk }) in
            let lengths = ap length whole in
            let done =
              subst
                (λ n.
                  (upload_files api store f.info n produced.files (start_of upload f.parts)
                      (record env { disk = produced.disk })).0.error
                    ≡ none
                  → IsDone store L upload (
                      upload_files api store f.info n produced.files (start_of upload f.parts)
                        (record env { disk = produced.disk })))
                (sym at)
                (upload_files-IsDone store L f.info o 0 size produced.files
                  (start_of upload f.parts) (record env { disk = produced.disk }) d
                  (e ∙ ap pos (omega (arith, lengths))) (omega (arith, lengths)) refl m cut
                  (record { free = ready.free; below = ready.below }) listed) in
            done no_error;
      }

  upload_sized-Sent :
      (L : S3Laws api) (upload : S3Upload) (f : Fetched) (offset : ℤ) (source : Bytes)
      (r : Result ℕ) (env : Env api)
      → ((size : ℕ) → r ≡ ok size → (store.limits.min_part_size ≤ size) × (0 < size))
      → length source < half_range
      → IsReady store L upload (suc (length f.parts)) env.service
      → (upload_sized api os store upload f offset source r env).0.error ≡ none
      → Sent L upload f.info offset source env
          (upload_sized api os store upload f offset source r env).0
          (upload_sized api os store upload f offset source r env).1
  unfolding upload_sized
  upload_sized-Sent L upload f offset source (err e) env fits small ready h = cc
  upload_sized-Sent L upload f offset source (ok size) env fits small ready h =
      upload_produced-Sent L upload f offset source size (produce size source env.disk) env
        (fits size refl).0 (produce-HasCut size source env.disk (fits size refl).1) small ready h

  -- The handle knows the info, the size of the incomplete part and how many parts there are.
  pub record IsCurrent (L : S3Laws api) (upload : S3Upload) (s : api.State) : Type 0 where
    pub info : FileInfo
    pub known : upload.info ≡ some info
    pub incomplete :
        upload.incomplete_part_size
        ≡ length (bytes_or_empty (L.object s (part_key store upload.object_id)))
    pub below :
        AllBelow
          (suc (length upload.parts))
          (L.pending s (object_key store upload.object_id) upload.multipart_id)

  pub upload_parts-Sent :
      (L : S3Laws api) (upload : S3Upload) (offset : ℤ) (source : Bytes) (env : Env api)
      (info : FileInfo)
      → IsUsable store.limits
      → length source < half_range
      → upload.info ≡ some info
      → IsReady store L upload (suc (length upload.parts)) env.service
      → (upload_parts api os store upload offset source env).0.error ≡ none
      → Sent L upload info offset source env
          (upload_parts api os store upload offset source env).0
          (upload_parts api os store upload offset source env).1
  unfolding upload_parts upload_with
  upload_parts-Sent L upload offset source env info usable small known ready h =
      subst (λ q. Sent L upload info offset source env q.0 q.1) (sym same)
        (upload_sized-Sent L upload _ offset source _ env (λ size e. part_size-ok store _ usable e)
          small ready (sym (ap (λ q. q.0.error) same) ∙ h))
    where
      same :
          upload_parts api os store upload offset source env
          ≡ upload_with api os store upload offset source
              (ok (
                record {
                  info = info;
                  parts = upload.parts;
                  incomplete_part_size = upload.incomplete_part_size;
                },
                upload,
              ))
              env
      same =
          ap (λ q. upload_with api os store upload offset source q.0 q.1)
            (get_internal_info-cached upload env known)
