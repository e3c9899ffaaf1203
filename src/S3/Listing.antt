-- ===== src/S3/Listing.antt =====
-- All parts of an upload over the pages of `ListParts`.
use mathlib.Core.List.{map-append}
use tusd.Base.{
  ℕ, zero, suc, ◌<◌, ◌≡◌, refl, Bool, true, false, List, [], ◌++◌, Option, Bytes, arith, ap, sym,
  ◌∙◌, subst, length, length-append, length-map, map, if◌then◌else◌, append-nil,
}
use tusd.Http.{Result, ok}
use tusd.Action.{M, pure, and_then-ok, and_then-pure}
use tusd.S3.Service.{Aws, done, failed, Part, Page, S3Api, Env}
use tusd.S3.Upload.{Platform, S3Store, with_more, behind_page, after_page, list_pages}
use tusd.S3.Laws.{S3Laws, above, listed_part, part_entry, IsPageOf}

with_more-done :
    (parts : List Part) (r : Aws (List Part)) {all : List Part}
    → with_more parts r ≡ done all
    → (more : List Part) × (r ≡ done more) × (all ≡ parts ++ more)
unfolding with_more
with_more-done parts (done more) h = (more, refl, cc)
with_more-done parts (failed e) h = cc

done_inj :
    {a b : List Part} → ◌≡◌ {A = Result (Aws (List Part))} (ok (done a)) (ok (done b)) → a ≡ b
done_inj h = cc

pub ok_inj : {A : Type 0} {a b : A} → ok a ≡ ok b → a ≡ b
ok_inj h = cc

module _ (api : S3Api) (os : Platform) (store : S3Store) (L : S3Laws api) where
  -- What the pages behind a marker list is what there is behind it.
  unfoldable pub ListsAll :
      (Option ℕ → M (Env api) (Aws (List Part))) → Option ℕ → List (ℕ × Bytes) → Env api → Type 0
  ListsAll rest marker ps env =
      (parts : List Part)
      → (rest marker env).0 ≡ ok (done parts)
      → map part_entry parts ≡ map listed_part (above marker ps)

  behind_page-lists :
      (rest : Option ℕ → M (Env api) (Aws (List Part))) (p : Page) (more : Bool)
      (ps : List (ℕ × Bytes)) (env : Env api) (parts : List Part)
      → (more ≡ true → ListsAll rest p.next_marker ps env)
      → (behind_page api os store rest p more env).0 ≡ ok (done parts)
      → map part_entry parts
        ≡ map part_entry p.parts ++ (if more then map listed_part (above p.next_marker ps) else [])
  unfolding behind_page ListsAll
  behind_page-lists rest p false ps env parts all h =
      ap (map part_entry) (done_inj (sym h)) ∙ sym (append-nil _)
  behind_page-lists rest p true ps env parts all h =
      let (r, e, whole) =
        and_then-ok (rest p.next_marker env) (λ more. pure (with_more p.parts more)) h in
      let (more, e', same) = with_more-done p.parts r (ok_inj (sym (ap (λ q. q.0) whole) ∙ h)) in
      ap (map part_entry) same
      ∙ map-append part_entry p.parts more
      ∙ ap (λ b. map part_entry p.parts ++ b) (all refl more (e ∙ ap ok e'))

  after_page-lists :
      (rest : Option ℕ → M (Env api) (Aws (List Part))) (r : Aws Page) (marker : Option ℕ)
      (ps : List (ℕ × Bytes)) (env : Env api) (parts : List Part)
      → ((page : Page) → r ≡ done page → IsPageOf ps marker page)
      → ((page : Page)
          → r ≡ done page
          → page.is_truncated ≡ true
          → ListsAll rest page.next_marker ps env)
      → (after_page api os store rest r env).0 ≡ ok (done parts)
      → map part_entry parts ≡ map listed_part (above marker ps)
  unfolding after_page
  after_page-lists rest (failed e) marker ps env parts pages all h = cc
  after_page-lists rest (done p) marker ps env parts pages all h =
      behind_page-lists rest p p.is_truncated ps env parts (all p refl) h ∙ sym (pages p refl).lists

  -- A page that is not the last leaves fewer parts to list.
  fewer_behind :
      (ps : List (ℕ × Bytes)) (marker : Option ℕ) (page : Page)
      → IsPageOf ps marker page
      → page.is_truncated ≡ true
      → length (above page.next_marker ps) < length (above marker ps)
  fewer_behind ps marker page is t =
      let enough = is.proceeds t in
      let all = ap length (
        is.lists
        ∙ ap
            (λ b.
              map part_entry page.parts
              ++ (if b then map listed_part (above page.next_marker ps) else []))
            t) in
      omega (
        arith,
        all,
        length-append (map part_entry page.parts) (map listed_part (above page.next_marker ps)),
        length-map (above marker ps) listed_part,
        length-map (above page.next_marker ps) listed_part,
        length-map page.parts part_entry,
      )

  -- With more rounds than there are parts to list, all of them are listed.
  pub list_pages-ListsAll :
      (pages : ℕ) (key id : Bytes) (marker : Option ℕ) (env : Env api) (ps : List (ℕ × Bytes))
      → L.pending env.service key id ≡ ps
      → length (above marker ps) < pages
      → ListsAll (list_pages api os store pages key id) marker ps env
  unfolding list_pages ListsAll
  list_pages-ListsAll zero key id marker env ps same l parts h = absurd (omega arith)
  list_pages-ListsAll (suc pages) key id marker env ps same l parts h =
      after_page-lists (list_pages api os store pages key id)
        (api.list_parts key id marker env.service).0 marker ps
        (record env { service = (api.list_parts key id marker env.service).1 }) parts
        (λ page e.
          subst (λ qs. IsPageOf qs marker page) same
            (L.list_parts-page key id marker env.service e))
        (λ page e t.
          list_pages-ListsAll pages key id page.next_marker
            (record env { service = (api.list_parts key id marker env.service).1 }) ps
            (ap (λ P. P key id) (L.list_parts-pending key id marker env.service) ∙ same)
            (omega (
              arith,
              fewer_behind ps marker page
                  (subst (λ qs. IsPageOf qs marker page) same
                    (L.list_parts-page key id marker env.service e))
                  t,
            )))
        h

  -- Listing changes nothing that the store sees.
  unfoldable pub IsSame : Env api → Env api → Type 0
  IsSame env env' =
      (L.object env'.service ≡ L.object env.service)
      × (L.pending env'.service ≡ L.pending env.service)

  behind_page-IsSame :
      (rest : Option ℕ → M (Env api) (Aws (List Part))) (p : Page) (more : Bool) (env : Env api)
      → IsSame env (rest p.next_marker env).1
      → IsSame env (behind_page api os store rest p more env).1
  unfolding behind_page IsSame
  behind_page-IsSame rest p false env h = (refl, refl)
  behind_page-IsSame rest p true env h =
      let last = and_then-pure (rest p.next_marker env) (with_more p.parts) in
      (ap (λ e. L.object e.service) last ∙ h.0, ap (λ e. L.pending e.service) last ∙ h.1)

  after_page-IsSame :
      (rest : Option ℕ → M (Env api) (Aws (List Part))) (r : Aws Page) (env : Env api)
      → ((m : Option ℕ) → IsSame env (rest m env).1)
      → IsSame env (after_page api os store rest r env).1
  unfolding after_page IsSame
  after_page-IsSame rest (failed e) env h = (refl, refl)
  after_page-IsSame rest (done p) env h =
      behind_page-IsSame rest p p.is_truncated env (h p.next_marker)

  pub list_pages-IsSame :
      (pages : ℕ) (key id : Bytes) (marker : Option ℕ) (env : Env api)
      → IsSame env (list_pages api os store pages key id marker env).1
  unfolding list_pages IsSame
  list_pages-IsSame zero key id marker env = (refl, refl)
  list_pages-IsSame (suc pages) key id marker env =
      let env1 : Env api = record env { service = (api.list_parts key id marker env.service).1 } in
      let (o, p) =
        after_page-IsSame (list_pages api os store pages key id)
          (api.list_parts key id marker env.service).0 env1
          (λ m. list_pages-IsSame pages key id m env1) in
      (
        o ∙ L.list_parts-object key id marker env.service,
        p ∙ L.list_parts-pending key id marker env.service,
      )
