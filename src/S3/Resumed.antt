-- ===== src/S3/Resumed.antt =====
-- What a new handle finds out about an upload: the offset, the parts and the incomplete part.
use tusd.Base.{
  ℕ, suc, ◌+◌, ◌≤◌, ◌<◌, ◌≡◌, refl, Bool, true, false, List, [], ◌∷◌, ◌++◌, none, Bytes, arith, ap,
  sym, ◌∙◌, length, length-append, map, if◌then◌else◌, ◌⊎◌, inl, inr, Bool-cases,
}
use tusd.Base.Int.{pos, half_range, add_pos, ◌+ℤ◌}
use tusd.Http.{Failure, Result, ok, err}
use tusd.DataStore.{FileInfo}
use tusd.Action.{◌>>=◌, and_then-ok}
use tusd.S3.Service.{
  AwsError, Aws, done, failed, Part, S3Api, Env, is_part_missing, says_missing, is_upload_gone,
}
use tusd.S3.Upload.{
  Platform, S3Store, S3Upload, Fetched, part_sizes, read_info, read_size, fetched, list_pages,
  list_all_parts, head_incomplete_part, fetch_info, object_key, info_key, part_key,
}
use tusd.S3.Laws.{S3Laws, above, listed_part, part_entry, bytes_or_empty, part_data, received}
use tusd.S3.Listing.{ok_inj, ListsAll, IsSame, list_pages-ListsAll, list_pages-IsSame}

-- The sizes of listed parts add up to the bytes in them.
part_sizes-listed :
    (parts : List Part) (ps : List (ℕ × Bytes)) (n : ℕ)
    → map part_entry parts ≡ map listed_part ps
    → n + length (part_data ps) < half_range
    → part_sizes parts (pos n) ≡ pos (n + length (part_data ps))
unfolding part_sizes part_data
part_sizes-listed [] [] n e l = ap pos (omega arith)
part_sizes-listed [] (p ∷ ps) n e l = cc
part_sizes-listed (part ∷ parts) [] n e l = cc
part_sizes-listed (part ∷ parts) (p ∷ ps) n e l =
    ap (λ a. part_sizes parts a)
      (ap (λ a. pos n +ℤ a) first ∙ add_pos n (length p.1) (omega (arith, lengths)))
    ∙ part_sizes-listed parts ps (n + length p.1) rest (omega (arith, lengths))
    ∙ ap pos (omega (arith, lengths))
  where
    lengths : length (p.1 ++ part_data ps) ≡ length p.1 + length (part_data ps)
    lengths = length-append p.1 (part_data ps)

    first : part.size ≡ pos (length p.1)
    first = cc

    rest : map part_entry parts ≡ map listed_part ps
    rest = cc

if_ok :
    {A : Type 0} (b : Bool) (x : Failure) {g f : A}
    → (if b then ok g else err x) ≡ ok f
    → (b ≡ true) × (f ≡ g)
if_ok true x h = (refl, ok_inj (sym h))
if_ok false x h = cc

-- The cases of a fetch without an error: the upload is gone, or the offset is the sum of all sizes.
fetched-cases :
    (text : Result FileInfo) (parts : Aws (List Part)) (size : Result ℕ) {f : Fetched}
    → fetched text parts size ≡ ok f
    → ((e : AwsError) × (parts ≡ failed e)
        × (is_upload_gone e ≡ true)
        × (f.info.offset ≡ f.info.size))
      ⊎ ((ps : List Part) × (n : ℕ) × (parts ≡ done ps)
          × (size ≡ ok n)
          × (f.parts ≡ ps)
          × (f.incomplete_part_size ≡ n)
          × (f.info.offset ≡ part_sizes ps (pos n)))
unfolding fetched
fetched-cases (err e) parts size h = cc
fetched-cases (ok info) (failed e) size h =
    let (gone, same) = if_ok (is_upload_gone e) _ h in
    inl (e, refl, gone, ap (λ x. x.info.offset) same ∙ ap (λ x. x.info.size) (sym same))
fetched-cases (ok info) (done ps) (err e) h = cc
fetched-cases (ok info) (done ps) (ok n) h = inr (
  ps,
  n,
  refl,
  refl,
  ap (λ x. x.parts) (ok_inj (sym h)),
  ap (λ x. x.incomplete_part_size) (ok_inj (sym h)),
  ap (λ x. x.info.offset) (ok_inj (sym h)),
)

-- A size that was read is right, or access to the object was denied.
read_size-ok :
    (r : Aws ℕ) (m : ℕ) {n : ℕ}
    → ((k : ℕ) → r ≡ done k → k ≡ m)
    → ((e : AwsError) → r ≡ failed e → says_missing e ≡ true → 0 ≡ m)
    → read_size r ≡ ok n
    → (n ≡ m)
      ⊎ ((e : AwsError) × (r ≡ failed e)
          × (is_part_missing e ≡ true)
          × (says_missing e ≡ false)
          × (n ≡ 0))
unfolding read_size
read_size-ok (done k) m found missing h = inl (ok_inj (sym h) ∙ found k refl)
read_size-ok (failed e) m found missing h =
    let (gone, same) = if_ok (is_part_missing e) _ h in
    elim (Bool-cases (says_missing e)) [
      | inl said ↦ inl (same ∙ missing e refl said)
      | inr unsaid ↦ inr (e, refl, gone, unsaid, same)
    ]

module _ (api : S3Api) (os : Platform) (store : S3Store) (L : S3Laws api) where
  -- What the handle of a resumed upload has: the offset is the number of bytes that have been received, in parts and in
  -- the incomplete part.
  pub record Resumed (upload : S3Upload) (env : Env api) (f : Fetched) : Type 0 where
    pub offset :
        f.info.offset
        ≡ pos (
            length (
              received L
                (object_key store upload.object_id)
                upload.multipart_id
                (part_key store upload.object_id)
                env.service))
    pub parts :
        map part_entry f.parts
        ≡ map listed_part
            (L.pending env.service (object_key store upload.object_id) upload.multipart_id)
    pub incomplete :
        f.incomplete_part_size
        ≡ length (bytes_or_empty (L.object env.service (part_key store upload.object_id)))

  -- What it has where HEAD of the incomplete part is denied, in a state with the same objects: the store takes that for
  -- no incomplete part, and the offset is the number of bytes in parts.
  pub record IsDenied (upload : S3Upload) (env : Env api) (f : Fetched) : Type 0 where
    pub asked : api.State
    pub same : L.object asked ≡ L.object env.service
    pub answer : AwsError
    pub refused : (api.head_object (part_key store upload.object_id) asked).0 ≡ failed answer
    pub ignored : is_part_missing answer ≡ true
    pub unsaid : says_missing answer ≡ false
    pub offset :
        f.info.offset
        ≡ pos (
            length (
              part_data
                (L.pending env.service (object_key store upload.object_id) upload.multipart_id)))
    pub incomplete : f.incomplete_part_size ≡ 0

  -- The listing of the parts says that the upload is completed or aborted, and the offset is the size.
  pub record IsGone (upload : S3Upload) (env : Env api) (f : Fetched) : Type 0 where
    pub answer : AwsError
    pub listing :
        (list_all_parts api os store upload.object_id upload.multipart_id (record env {
          service = (api.get_object (info_key store upload.object_id) env.service).1;
        })).0
        ≡ ok (failed answer)
    pub gone : is_upload_gone answer ≡ true
    pub offset : f.info.offset ≡ f.info.size

  -- A fetch without an error, of an upload with no more parts than the limit, whose received bytes are an
  -- int64: all its parts are listed over all pages, the
  -- size of the incomplete part is found, and the offset is the number of bytes that have been received; or HEAD of the
  -- incomplete part is denied, which is taken for none, and the offset is the number of bytes in parts; or the upload is
  -- gone, and the offset is its size.
  pub fetch_info-Resumed :
      (upload : S3Upload) (env : Env api) {f : Fetched}
      → length (L.pending env.service (object_key store upload.object_id) upload.multipart_id)
        ≤ store.limits.max_multipart_parts
      → length (
          received L
            (object_key store upload.object_id)
            upload.multipart_id
            (part_key store upload.object_id)
            env.service)
        < half_range
      → (fetch_info api os store upload env).0 ≡ ok f
      → Resumed upload env f ⊎ (IsDenied upload env f ⊎ IsGone upload env f)
  unfolding fetch_info list_all_parts head_incomplete_part received ListsAll IsSame above
  fetch_info-Resumed upload env few small h =
      let env1 : Env api = record env {
        service = (api.get_object (info_key store upload.object_id) env.service).1;
      } in
      let text = (api.get_object (info_key store upload.object_id) env.service).0 in
      let listing =
        list_pages api os store (suc store.limits.max_multipart_parts)
          (object_key store upload.object_id) upload.multipart_id none env1 in
      let (parts, e, whole) =
        and_then-ok listing
          (λ parts. head_incomplete_part api os store upload.object_id >>= λ size.
            λ env. (fetched (read_info os.unmarshal text) parts size, env))
          h in
      let (same_object, same_pending) =
        list_pages-IsSame api os store L (suc store.limits.max_multipart_parts)
          (object_key store upload.object_id) upload.multipart_id none env1 in
      let objects =
        same_object ∙ L.get_object-object (info_key store upload.object_id) env.service in
      let pendings =
        same_pending ∙ L.get_object-pending (info_key store upload.object_id) env.service in
      let pending1 =
        ap (λ P. P (object_key store upload.object_id) upload.multipart_id)
          (L.get_object-pending (info_key store upload.object_id) env.service) in
      let head = api.head_object (part_key store upload.object_id) listing.1.service in
      elim (fetched-cases (read_info os.unmarshal text) parts (read_size head.0)
        (sym (ap (λ q. q.0) whole) ∙ h)) [
          | inl (gone, is_failed, is_gone, offset) ↦ inr (
              inr (record {
                answer = gone;
                listing = e ∙ ap ok is_failed;
                gone = is_gone;
                offset = offset;
              }))
          | inr (ps, n, is_done, is_size, same_parts, same_size, offset) ↦
              let entries =
                list_pages-ListsAll api os store L (suc store.limits.max_multipart_parts)
                  (object_key store upload.object_id) upload.multipart_id none env1 _ pending1
                  (omega (arith, few)) ps (e ∙ ap ok is_done) in
              let part_bytes = L.object env.service (part_key store upload.object_id) in
              let ps_data =
                L.pending env.service (object_key store upload.object_id) upload.multipart_id in
              let lengths = length-append (part_data ps_data) (bytes_or_empty part_bytes) in
              let here =
                ap (λ o. length (bytes_or_empty (o (part_key store upload.object_id)))) objects in
              elim (read_size-ok head.0 (length (bytes_or_empty part_bytes))
                (λ k found.
                  L.head_object-size (part_key store upload.object_id) listing.1.service found
                  ∙ here)
                (λ x failing missing.
                  ap (λ o. length (bytes_or_empty o))
                    (sym (
                      L.head_object-missing (part_key store upload.object_id) listing.1.service
                        failing missing))
                  ∙ here)
                is_size) [
                  | inl size ↦ inl (record {
                    offset =
                        offset
                        ∙ part_sizes-listed ps ps_data n entries
                            (omega (arith, lengths, size, small))
                        ∙ ap pos (omega (arith, lengths, size));
                    parts = ap (map part_entry) same_parts ∙ entries;
                    incomplete = same_size ∙ size;
                  })
                  | inr (x, refused, ignored, unsaid, none_found) ↦ inr (
                      inl (record {
                        asked = listing.1.service;
                        same = objects;
                        answer = x;
                        refused = refused;
                        ignored = ignored;
                        unsaid = unsaid;
                        offset =
                            offset
                            ∙ part_sizes-listed ps ps_data n entries
                                (omega (arith, lengths, none_found, small))
                            ∙ ap pos (omega (arith, none_found));
                        incomplete = same_size ∙ none_found;
                      }))
                ]
        ]
