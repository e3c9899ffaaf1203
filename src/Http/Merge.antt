-- ===== src/Http/Merge.antt =====
-- Laws of `MergeWith`: what a hook's response changes, and what it leaves.
use tusd.Base.{
  [], ◌∷◌, Option, none, some, ◌≡◌, refl, Bytes, arith, text_eq, text_eq_iff, if◌then◌else◌, ◌∙◌,
  ap,
}
use tusd.Base.Dict.{Dict, lookup, insert, copy_into, lookup-insert}
use tusd.Http.{HttpResponse, merge_with}

-- The value of the last entry of a key, or a default.
last_or {ℓ} : {V : Type ℓ} → Bytes → Dict V → Option V → Option V
last_or k [] old = old
last_or k ((j, v) ∷ m) old = last_or k m (if text_eq j k then some v else old)

lookup-copy_into {ℓ} :
    {V : Type ℓ} (k : Bytes) (src dst : Dict V)
    → lookup k (copy_into dst src) ≡ last_or k src (lookup k dst)
unfolding copy_into last_or
lookup-copy_into k [] dst = refl
lookup-copy_into k ((j, v) ∷ src) dst =
    lookup-copy_into k src (insert j v dst) ∙ ap (last_or k src) (lookup-insert j k v dst)

-- As every Go map, no key is there twice.
abbrev pub NodupKeys {ℓ} : {V : Type ℓ} → Dict V → Type ℓ
NodupKeys [] = Unit
NodupKeys ((k, v) ∷ m) = (lookup k m ≡ none) × NodupKeys m

abbrev pub or_else {ℓ} : {V : Type ℓ} → Option V → Option V → Option V
or_else none old = old
or_else (some v) old = some v

last_or-none {ℓ} :
    {V : Type ℓ} (k : Bytes) (m : Dict V) (old : Option V)
    → lookup k m ≡ none
    → last_or k m old ≡ old
unfolding lookup last_or
last_or-none k [] old h = refl
last_or-none k ((j, v) ∷ m) old h = ground (arith, last_or-none k m old)

last_or-lookup {ℓ} :
    {V : Type ℓ} (k : Bytes) (m : Dict V) (old : Option V)
    → NodupKeys m
    → last_or k m old ≡ or_else (lookup k m) old
unfolding lookup last_or
last_or-lookup k [] old h = refl
last_or-lookup k ((j, v) ∷ m) old h =
    ground (arith, text_eq_iff j k, last_or-none k m (some v), last_or-lookup k m old)

-- A header of the merged response is that of the second response where this has one, and that
-- of the first otherwise; neither has a key twice.
pub lookup-merge_with :
    (k : Bytes) (a b : HttpResponse)
    → NodupKeys a.header
    → NodupKeys b.header
    → lookup k (merge_with a b).header ≡ or_else (lookup k b.header) (lookup k a.header)
unfolding merge_with
lookup-merge_with k a b ha hb =
    lookup-copy_into k b.header (copy_into [] a.header)
    ∙ last_or-lookup k b.header _ hb
    ∙ ap (or_else (lookup k b.header)) (
        lookup-copy_into k a.header []
        ∙ last_or-lookup k a.header _ ha
        ∙ (unfold lookup in ground arith))
