-- ===== src/Tests/Bucket.antt =====
-- A service that keeps objects and parts in memory and never fails, as a concrete `S3API`.
use tusd.Base.{
  ℕ, ◌≡◌, refl, true, false, List, [], ◌∷◌, ◌++◌, Option, none, some, Bytes, codes, text_eq,
  text_eq_refl, arith, ap, sym, ◌∙◌, ◌≢◌, subst, length, map, ltb, ◌==◌, if◌then◌else◌, append-nil,
  ◌&&◌,
}
use tusd.Base.Int.{pos}
use tusd.S3.Service.{AwsError, Aws, done, failed, Part, Page, S3Api, Env, or_fail}
use tusd.S3.Laws.{
  S3Laws, AllBelow, above, listed_part, part_entry, IsPageOf, bytes_or_empty, part_data,
}
use tusd.Http.{ok}
use tusd.DataStore.{FileInfo}
use tusd.S3.Upload.{Platform, S3Store, S3Upload}
use tusd.S3.Finish.{parts_or_empty, complete_with, finish_parts, finish_upload}
use tusd.S3.Write.Sent.{get_internal_info-cached}
use tusd.S3.Write.Success.{IsHealthy}

pub record Bucket : Type 0 where
  pub objects : Bytes → Option Bytes
  pub parts : Bytes → Bytes → List (ℕ × Bytes)

abbrev missing : AwsError
missing = record {
  no_such_key = true;
  no_such_upload = false;
  not_found = true;
  code = codes "NoSuchKey";
  text = codes "The specified key does not exist.";
}

abbrev found : Option Bytes → Aws Bytes
found none = failed missing
found (some bytes) = done bytes

abbrev found_size : Option Bytes → Aws ℕ
found_size none = failed missing
found_size (some bytes) = done (length bytes)

abbrev with_object : Bytes → Option Bytes → Bucket → Bucket
with_object key value s = record s { objects = λ j. if text_eq key j then value else s.objects j }

abbrev with_parts : Bytes → Bytes → List (ℕ × Bytes) → Bucket → Bucket
with_parts key id ps s = record s {
  parts = λ k i. if text_eq key k && text_eq id i then ps else s.parts k i;
}

abbrev without : List Bytes → Bucket → Bucket
without [] s = s
without (key ∷ keys) s = without keys (with_object key none s)

abbrev put_part : ℕ → Bytes → List (ℕ × Bytes) → List (ℕ × Bytes)
put_part n bytes [] = (n, bytes) ∷ []
put_part n bytes (p ∷ ps) =
    let rest = put_part n bytes ps in
    if ltb p.0 n then p ∷ rest else if p.0 == n then (n, bytes) ∷ ps else (n, bytes) ∷ p ∷ ps

abbrev pub etag : Bytes
etag = codes "etag"

abbrev list_entry : ℕ × Bytes → Part
list_entry p = record { number = p.0; size = pos (length p.1); etag = etag }

abbrev pub bucket_api : S3Api
bucket_api = record {
  State = Bucket;
  put_object = λ key bytes s. (done tt, with_object key (some bytes) s);
  get_object = λ key s. (found (s.objects key), s);
  head_object = λ key s. (found_size (s.objects key), s);
  delete_object = λ key s. (done tt, with_object key none s);
  delete_objects = λ keys s. (done [], without keys s);
  create_multipart_upload = λ key meta type s. (done (codes "multipart"), s);
  upload_part =
      λ key id n bytes s. (done etag, with_parts key id (put_part n bytes (s.parts key id)) s);
  upload_part_copy = λ key id n source s. (done etag, s);
  list_parts = λ key id marker s. (
    done (record {
      parts = map list_entry (above marker (s.parts key id));
      is_truncated = false;
      next_marker = none;
    }),
    s,
  );
  complete_multipart_upload =
      λ key id listed s. (done tt, with_object key (some (part_data (s.parts key id))) s);
  abort_multipart_upload = λ key id s. (done tt, with_parts key id [] s);
}

false_ne_true : false ≢ true
false_ne_true e = cc

pub found-done : (o : Option Bytes) {bytes : Bytes} → found o ≡ done bytes → o ≡ some bytes
found-done none h = cc
found-done (some b) h = cc

pub put_part_last :
    (n : ℕ) (bytes : Bytes) (ps : List (ℕ × Bytes))
    → AllBelow n ps
    → put_part n bytes ps ≡ ps ++ ((n, bytes) ∷ [])
unfolding AllBelow
put_part_last n bytes [] h = refl
put_part_last n bytes (p ∷ ps) (h, hs) = ground (arith, put_part_last n bytes ps hs)

map-list_entry : (ps : List (ℕ × Bytes)) → map listed_part ps ≡ map part_entry (map list_entry ps)
map-list_entry [] = refl
map-list_entry (p ∷ ps) = ap (λ r. listed_part p ∷ r) (map-list_entry ps)

pub found_size-done :
    (o : Option Bytes) {n : ℕ} → found_size o ≡ done n → n ≡ length (bytes_or_empty o)
found_size-done none h = cc
found_size-done (some b) h = cc

pub found_size-failed : (o : Option Bytes) {e : AwsError} → found_size o ≡ failed e → o ≡ none
found_size-failed none h = refl
found_size-failed (some b) h = cc

pub done_inj : {A : Type 0} {a b : A} → done a ≡ done b → a ≡ b
done_inj h = cc

pub page_of :
    (ps : List (ℕ × Bytes)) (marker : Option ℕ) {page : Page}
    → record { parts = map list_entry (above marker ps); is_truncated = false; next_marker = none }
      ≡ page
    → IsPageOf ps marker page
page_of ps marker e = subst (IsPageOf ps marker) e (record {
  lists = map-list_entry (above marker ps) ∙ sym (append-nil _);
  proceeds = λ t. absurd (false_ne_true t);
})

abbrev pub bucket_laws : S3Laws bucket_api
bucket_laws = record {
  object = λ s. s.objects;
  pending = λ s. s.parts;
  get_object-sound = λ key s h. found-done (s.objects key) h;
  get_object-object = λ key s. refl;
  get_object-pending = λ key s. refl;
  put_object-sets = λ key bytes s h. rw (text_eq_refl key);
  put_object-pending = λ key bytes s. refl;
  delete_object-removes = λ key s h. rw (text_eq_refl key);
  delete_object-pending = λ key s. refl;
  upload_part-adds = λ key id n bytes s h below.
      rw (text_eq_refl key, text_eq_refl id) (put_part_last n bytes (s.parts key id) below);
  upload_part-object = λ key id n bytes s. refl;
  list_parts-page = λ key id marker s h. page_of (s.parts key id) marker (done_inj h);
  list_parts-object = λ key id marker s. refl;
  list_parts-pending = λ key id marker s. refl;
  head_object-size = λ key s h. found_size-done (s.objects key) h;
  head_object-missing = λ key s h m. found_size-failed (s.objects key) h;
  head_object-object = λ key s. refl;
  head_object-pending = λ key s. refl;
  complete_multipart_upload-joins = λ key id listed s h m. rw (text_eq_refl key);
}

abbrev pub Any : Bucket → Type 0
Any s = Unit {0}

pub bucket_healthy :
    (store : S3Store) (upload : S3Upload) → IsHealthy bucket_api store bucket_laws upload Any
bucket_healthy store upload = record {
  upload_part-done = λ n bytes s good positive few short. ((etag, refl), tt);
  put_object-done = λ bytes s good small. (refl, tt);
  delete_object-done = λ s good. (refl, tt);
  get_object-done = λ s bytes good h. (ap found h, tt);
}

-- The bucket completes each upload.
bucket_parts-finished :
    (os : Platform) (store : S3Store) (upload : S3Upload) (parts : List Part) (env : Env bucket_api)
    → (finish_parts bucket_api os store upload parts env).0 ≡ ok tt
unfolding finish_parts parts_or_empty complete_with or_fail
bucket_parts-finished os store upload [] env = refl
bucket_parts-finished os store upload (part ∷ parts) env = refl

pub bucket-finished :
    (os : Platform) (store : S3Store) (upload : S3Upload) (env : Env bucket_api) {info : FileInfo}
    → upload.info ≡ some info
    → (finish_upload bucket_api os store upload env).0 ≡ ok upload
unfolding finish_upload
bucket-finished os store upload env known = rw (
  get_internal_info-cached bucket_api os store upload env known,
  bucket_parts-finished os store upload upload.parts env,
)
