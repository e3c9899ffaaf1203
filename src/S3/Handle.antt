-- ===== src/S3/Handle.antt =====
-- A handle that has fetched what it knows is one that `WriteChunk` and `FinishUpload` can go by.
use tusd.Base.{
  ℕ, suc, ◌≤◌, ◌<◌, ◌≡◌, refl, List, [], ◌∷◌, none, some, Bytes, arith, ap, sym, ◌∙◌, subst, length,
  length-map, map, ◌⊎◌, inl, inr,
}
use tusd.Base.Int.{pos, half_range}
use tusd.Http.{ok}
use tusd.Action.{and_then, ◌>>=◌, pure, and_then-ok}
use tusd.S3.Service.{Part, S3Api, Env}
use tusd.S3.Upload.{
  Platform, S3Store, S3Upload, Fetched, read_info, fetched, list_pages, list_all_parts,
  head_incomplete_part, fetch_info, get_internal_info, object_key, info_key, part_key,
}
use tusd.S3.Laws.{S3Laws, AllBelow, listed_part, part_entry, bytes_or_empty, received}
use tusd.S3.Listing.{ok_inj, IsSame, list_pages-IsSame}
use tusd.S3.Resumed.{Resumed, IsDenied, IsGone, fetch_info-Resumed}
use tusd.S3.Write.Complete.{IsListed}
use tusd.S3.Write.Sent.{IsCurrent}

part_numbers :
    (parts : List Part) → map (λ e. e.0) (map part_entry parts) ≡ map (λ part. part.number) parts
part_numbers [] = refl
part_numbers (part ∷ parts) = ap (λ r. part.number ∷ r) (part_numbers parts)

listed_numbers : (ps : List (ℕ × Bytes)) → map (λ e. e.0) (map listed_part ps) ≡ map (λ p. p.0) ps
listed_numbers [] = refl
listed_numbers (p ∷ ps) = ap (λ r. p.0 ∷ r) (listed_numbers ps)

module _ (api : S3Api) (os : Platform) (store : S3Store) (L : S3Laws api) where
  -- A fetch changes nothing that the store sees.
  fetch_info-IsSame :
      (u : S3Upload) (env : Env api) {f : Fetched}
      → (fetch_info api os store u env).0 ≡ ok f
      → IsSame api os store L env (fetch_info api os store u env).1
  unfolding fetch_info list_all_parts head_incomplete_part IsSame
  fetch_info-IsSame u env h =
      let env1 : Env api = record env {
        service = (api.get_object (info_key store u.object_id) env.service).1;
      } in
      let text = (api.get_object (info_key store u.object_id) env.service).0 in
      let listing =
        list_pages api os store (suc store.limits.max_multipart_parts)
          (object_key store u.object_id) u.multipart_id none env1 in
      let (parts, e, whole) =
        and_then-ok listing
          (λ parts. head_incomplete_part api os store u.object_id >>= λ size.
            λ env. (fetched (read_info os.unmarshal text) parts size, env))
          h in
      let (objects, pendings) =
        list_pages-IsSame api os store L (suc store.limits.max_multipart_parts)
          (object_key store u.object_id) u.multipart_id none env1 in
      (
        ap (λ q. L.object q.1.service) whole
            ∙ L.head_object-object (part_key store u.object_id) listing.1.service
            ∙ objects
            ∙ L.get_object-object (info_key store u.object_id) env.service,
        ap (λ q. L.pending q.1.service) whole
            ∙ L.head_object-pending (part_key store u.object_id) listing.1.service
            ∙ pendings
            ∙ L.get_object-pending (info_key store u.object_id) env.service,
      )

  -- The handle that remembers what was fetched.
  abbrev pub remembering : S3Upload → Fetched → S3Upload
  remembering u f = record u {
    info = some f.info;
    parts = f.parts;
    incomplete_part_size = f.incomplete_part_size;
  }

  fetched-IsCurrent :
      (u : S3Upload) (env env' : Env api) (f : Fetched)
      → Resumed api os store L u env f
      → IsSame api os store L env env'
      → AllBelow
          (suc (length (L.pending env.service (object_key store u.object_id) u.multipart_id)))
          (L.pending env.service (object_key store u.object_id) u.multipart_id)
      → IsCurrent api os store L (remembering u f) env'.service
        × IsListed store L (remembering u f) env'.service
  unfolding IsSame IsListed
  fetched-IsCurrent u env env' f resumed (objects, pendings) numbered =
      let okey = object_key store u.object_id in
      let same = ap (λ P. P okey u.multipart_id) (sym pendings) in
      let ps = L.pending env.service okey u.multipart_id in
      let count = ap length resumed.parts in
      (
        record {
          info = f.info;
          known = refl;
          incomplete =
              resumed.incomplete
              ∙ ap (λ o. length (bytes_or_empty (o (part_key store u.object_id)))) (sym objects);
          below = subst (AllBelow (suc (length f.parts))) same (
              subst (λ n. AllBelow (suc n) ps)
                (omega (arith, count, length-map f.parts part_entry, length-map ps listed_part))
                numbered);
        },
        sym (part_numbers f.parts)
            ∙ ap (map (λ e. e.0)) resumed.parts
            ∙ listed_numbers ps
            ∙ ap (map (λ p. p.0)) same,
      )

  get_internal_info-fetched :
      (u : S3Upload) (env : Env api)
      → u.info ≡ none
      → get_internal_info api os store u env
        ≡ and_then (fetch_info api os store u env) (λ f. pure (f, remembering u f))
  unfolding get_internal_info
  get_internal_info-fetched u env e = rw e

  -- A new handle of an upload whose part numbers are no greater than the number of its parts, which are no more than the
  -- limit, and that fetches without an error: it knows the upload and lists its parts, and its offset is the number of
  -- bytes that have been received, which is an int64; or HEAD of the incomplete part is denied, which is taken for none,
  -- and the offset is the number of bytes in parts; or the upload is gone, and the offset is its size.
  pub get_internal_info-IsCurrent :
      (u : S3Upload) (env : Env api) {f : Fetched} {v : S3Upload}
      → u.info ≡ none
      → length (L.pending env.service (object_key store u.object_id) u.multipart_id)
        ≤ store.limits.max_multipart_parts
      → length (
          received L
            (object_key store u.object_id)
            u.multipart_id
            (part_key store u.object_id)
            env.service)
        < half_range
      → AllBelow
          (suc (length (L.pending env.service (object_key store u.object_id) u.multipart_id)))
          (L.pending env.service (object_key store u.object_id) u.multipart_id)
      → (get_internal_info api os store u env).0 ≡ ok (f, v)
      → (IsCurrent api os store L v (get_internal_info api os store u env).1.service
          × IsListed store L v (get_internal_info api os store u env).1.service
          × (f.info.offset
              ≡ pos (
                  length (
                    received L
                      (object_key store u.object_id)
                      u.multipart_id
                      (part_key store u.object_id)
                      env.service))))
        ⊎ (IsDenied api os store L u env f ⊎ IsGone api os store L u env f)
  get_internal_info-IsCurrent u env {f = f} {v = v} new few small numbered h =
      let fetch = get_internal_info-fetched u env new in
      let (g, e, whole) =
        and_then-ok (fetch_info api os store u env) (λ f. pure (f, remembering u f))
          (sym (ap (λ q. q.0) fetch) ∙ h) in
      let same : (g, remembering u g) ≡ (f, v) = ok_inj (sym (ap (λ q. q.0) (fetch ∙ whole)) ∙ h) in
      let after = ap (λ q. q.1) (fetch ∙ whole) in
      elim (fetch_info-Resumed api os store L u env few small e) [
        | inl resumed ↦
            let (current, listed) =
              fetched-IsCurrent u env (fetch_info api os store u env).1 g resumed
                (fetch_info-IsSame u env e) numbered in
            inl (
              subst
                  (λ x. IsCurrent api os store L x (get_internal_info api os store u env).1.service)
                  (ap (λ x. x.1) same)
                  (subst (λ y. IsCurrent api os store L (remembering u g) y.service) (sym after)
                    current),
              subst (λ x. IsListed store L x (get_internal_info api os store u env).1.service)
                  (ap (λ x. x.1) same)
                  (subst (λ y. IsListed store L (remembering u g) y.service) (sym after) listed),
              ap (λ x. x.0.info.offset) (sym same) ∙ resumed.offset,
            )
        | inr (inl denied) ↦
            inr (inl (subst (IsDenied api os store L u env) (ap (λ x. x.0) same) denied))
        | inr (inr gone) ↦ inr (inr (subst (IsGone api os store L u env) (ap (λ x. x.0) same) gone))
      ]
