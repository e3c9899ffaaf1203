-- ===== src/S3/Write/Taken.antt =====
-- The incomplete part that `WriteChunk` takes back before it uploads.
use tusd.Base.{
  ℕ, zero, suc, ◌≡◌, refl, [], ◌∷◌, Option, none, some, Bytes, arith, ap, sym, ◌∙◌, subst, length,
}
use tusd.Http.{ok}
use tusd.Action.{pure, and_then-ok}
use tusd.S3.Service.{Aws, done, failed, S3Api, Env, or_fail}
use tusd.S3.Upload.{S3Store, part_key, Platform}
use tusd.S3.Write.{
  found_or_none, expect_part, to_temp_file, delete_and_return, take_file, download_incomplete_part,
  take_incomplete_part,
}
use tusd.S3.Laws.{S3Laws, bytes_or_empty}

expect_part-ok : (f : Option Bytes) {bytes : Bytes} → expect_part f ≡ ok bytes → f ≡ some bytes
unfolding expect_part
expect_part-ok (some b) h = cc
expect_part-ok none h = cc

found_or_none-some :
    (r : Aws Bytes) {bytes : Bytes} → found_or_none r ≡ ok (some bytes) → r ≡ done bytes
unfolding found_or_none
found_or_none-some (done b) h = cc
found_or_none-some (failed e) h = ground arith

pub or_fail-ok : {A : Type 0} (r : Aws A) {a : A} → or_fail r ≡ ok a → r ≡ done a
unfolding or_fail
or_fail-ok (done b) h = cc
or_fail-ok (failed e) h = cc

ok_inj : {A : Type 0} {a b : A} → ok a ≡ ok b → a ≡ b
ok_inj h = cc

empty_of_length : (s : Bytes) → 0 ≡ length s → s ≡ []
empty_of_length [] h = refl
empty_of_length (c ∷ s) h = absurd (omega arith)

module _ (api : S3Api) (os : Platform) (store : S3Store) where
  to_temp_file-ok :
      (f : Option Bytes) (env : Env api) {g : Option Bytes}
      → (to_temp_file api os store f env).0 ≡ ok g
      → (f ≡ g) × ((to_temp_file api os store f env).1.service ≡ env.service)
  unfolding to_temp_file
  to_temp_file-ok none env h = (cc, refl)
  to_temp_file-ok (some b) env h = (ground arith, refl)

  -- What is returned is what the object held, and the parts are as before.
  pub record Took (L : S3Laws api) (id bytes : Bytes) (env env' : Env api) : Type 0 where
    pub held : bytes ≡ bytes_or_empty (L.object env.service (part_key store id))
    pub freed : bytes_or_empty (L.object env'.service (part_key store id)) ≡ []
    pub kept : L.pending env'.service ≡ L.pending env.service

  download_incomplete_part-ok :
      (L : S3Laws api) (id : Bytes) (env : Env api) {bytes : Bytes}
      → (download_incomplete_part api os store id env).0 ≡ ok (some bytes)
      → (L.object env.service (part_key store id) ≡ some bytes)
        × (L.pending (download_incomplete_part api os store id env).1.service
            ≡ L.pending env.service)
  unfolding download_incomplete_part
  download_incomplete_part-ok L id env h =
      let (found, e, whole) =
        and_then-ok
          (
            found_or_none (api.get_object (part_key store id) env.service).0,
            record env { service = (api.get_object (part_key store id) env.service).1 },
          )
          (to_temp_file api os store) h in
      let (same, service) =
        to_temp_file-ok found
          (record env { service = (api.get_object (part_key store id) env.service).1 })
          (sym (ap (λ q. q.0) whole) ∙ h) in
      (
        L.get_object-sound _ env.service (found_or_none-some _ (e ∙ ap ok same)),
        ap (λ q. L.pending q.1.service) whole
            ∙ ap L.pending service
            ∙ L.get_object-pending (part_key store id) env.service,
      )

  delete_and_return-ok :
      (L : S3Laws api) (id b : Bytes) (env : Env api) {bytes : Bytes}
      → (delete_and_return api os store id b env).0 ≡ ok bytes
      → (bytes ≡ b)
        × (L.object (delete_and_return api os store id b env).1.service (part_key store id) ≡ none)
        × (L.pending (delete_and_return api os store id b env).1.service ≡ L.pending env.service)
  unfolding delete_and_return
  delete_and_return-ok L id b env h =
      let (u, e, whole) =
        and_then-ok
          (
            or_fail (api.delete_object (part_key store id) env.service).0,
            record env { service = (api.delete_object (part_key store id) env.service).1 },
          )
          (λ u. pure b) h in
      (
        ok_inj (sym h ∙ ap (λ q. q.0) whole),
        ap (λ q. L.object q.1.service (part_key store id)) whole
            ∙ L.delete_object-removes (part_key store id) env.service (or_fail-ok _ e),
        ap (λ q. L.pending q.1.service) whole
            ∙ L.delete_object-pending (part_key store id) env.service,
      )

  pub take_incomplete_part-ok :
      (L : S3Laws api) (id : Bytes) (n : ℕ) (env : Env api) {bytes : Bytes}
      → n ≡ length (bytes_or_empty (L.object env.service (part_key store id)))
      → (take_incomplete_part api os store id n env).0 ≡ ok bytes
      → Took L id bytes env (take_incomplete_part api os store id n env).1
  unfolding take_incomplete_part take_file
  take_incomplete_part-ok L id zero env l h = record {
    held = sym (ok_inj h) ∙ sym (empty_of_length _ l);
    freed = empty_of_length _ l;
    kept = refl;
  }
  take_incomplete_part-ok L id (suc n) env l h =
      let (file, e, whole) =
        and_then-ok (download_incomplete_part api os store id env) (take_file api os store id) h in
      let (b, e', whole') =
        and_then-ok (expect_part file, (download_incomplete_part api os store id env).1)
          (delete_and_return api os store id) (sym (ap (λ q. q.0) whole) ∙ h) in
      let (found, kept) =
        download_incomplete_part-ok L id env (e ∙ ap ok (expect_part-ok file e')) in
      let (same, gone, kept') =
        delete_and_return-ok L id b (download_incomplete_part api os store id env).1
          (sym (ap (λ q. q.0) (whole ∙ whole')) ∙ h) in
      subst (Took L id _ env) (sym (ap (λ q. q.1) (whole ∙ whole'))) (record {
        held = same ∙ sym (ap bytes_or_empty found);
        freed = ap bytes_or_empty gone;
        kept = kept' ∙ kept;
      })
